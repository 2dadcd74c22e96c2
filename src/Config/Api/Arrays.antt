-- ===== src/Config/Api/Arrays.antt =====
-- What a caller of the accessors of arrays may rely on.
use tdoa.Base.{
  ℕ, ◌+◌, ◌*◌, ◌%◌, ◌^◌, ◌≤◌, ◌<◌, ◌≡◌, refl, sym, ap, ap₂, subst, ◌∙◌, some, List, [], ◌∷◌, arith,
  length, take, length-append, take-append, drop-append, take_all, ℤ, pos, le_bytes, from_le,
  length-le_bytes, from_le-le_bytes,
}
use native.Mathlib.Nat.{mul-suc}
use tdoa.Config.Platform.{Platform, Durable}
use tdoa.Config.State.{size_tlv_max, ConfigField, field_code, State}
use tdoa.Config.Tlv.{read_value}
use tdoa.Config.Tlv.Store.{
  Entry, size_of, upsert, offset_from, lookup-upsert_self, size_of-upsert-le, offset_from-le,
}
use tdoa.Config.Tlv.Encoded.{Holds}
use tdoa.Config.Tlv.Read.{read_entry-some, read_found_fits, read_value-Holds}
use tdoa.Config.Save.Write.{Stored}
use tdoa.Config.Save.Update.{write_value-Stored}
use tdoa.Config.Api.{array_bytes, from_array_bytes, read_array, write_array}

-- Numbers of `k` bytes.
abbrev pub AreNumbers : ℕ → List ℕ → Type 0
AreNumbers k [] = Unit
AreNumbers k (x ∷ xs) = (x < 256 ^ k) × AreNumbers k xs

pub length-array_bytes : (k : ℕ) (xs : List ℕ) → length (array_bytes k xs) ≡ k * length xs
unfolding array_bytes
length-array_bytes k [] = omega arith
length-array_bytes k (x ∷ xs) =
    length-append (le_bytes k x) (array_bytes k xs)
    ∙ omega (arith, length-le_bytes k x, length-array_bytes k xs, mul-suc k (length xs))

from_array_bytes-array_bytes :
    (k : ℕ) (xs : List ℕ) → AreNumbers k xs → from_array_bytes k (length xs) (array_bytes k xs) ≡ xs
unfolding array_bytes from_array_bytes
from_array_bytes-array_bytes k [] h = refl
from_array_bytes-array_bytes k (x ∷ xs) (small, h) =
    ap₂ (λ y ys. y ∷ ys)
      (ap from_le (take-append k (le_bytes k x) (array_bytes k xs) (sym (length-le_bytes k x)))
        ∙ from_le-le_bytes k x small)
      (ap (from_array_bytes k (length xs))
          (drop-append k (le_bytes k x) (array_bytes k xs) (sym (length-le_bytes k x)))
        ∙ from_array_bytes-array_bytes k xs h)

module _ (p : Platform) (s : State p.Flash) (field : ConfigField) (k : ℕ) where
  read_array_run :
      (count size : ℕ) (array : List ℕ) {r : ℤ} {bytes : List ℕ}
      → k * count % 256 ≡ size
      → read_value s field size (array_bytes k array) ≡ some (r, bytes)
      → read_array p s field k count array ≡ some (r, from_array_bytes k (length array) bytes)
  unfolding read_array
  read_array_run count size array e f = ground arith

module _ (p : Platform) (d : Durable p) (s : State p.Flash) (field : ConfigField) (k : ℕ)
    (xs : List ℕ) (es : List Entry) (h : Holds s es) where
  -- The size of an array is passed on in eight bits: of one of 256 bytes or more only the first
  -- bytes, as many as its size modulo 256, are stored, and the write succeeds as any other.
  pub write_array_truncates :
      2 + k * length xs % 256 + size_of es ≤ size_tlv_max
      → Stored p s
          (upsert (field_code field) (take (k * length xs % 256) (array_bytes k xs)) es)
          (write_array p s field k (length xs) xs)
  unfolding write_array
  write_array_truncates fits =
      write_value-Stored p s field (k * length xs % 256) (array_bytes k xs) d es h
        (omega (arith, length-array_bytes k xs)) fits

  -- An array that fits, with a byte to spare, is what the next read of as many elements gives.
  pub read_array-write_array :
      (array : List ℕ)
      → AreNumbers k xs
      → length array ≡ length xs
      → 2 + k * length xs + size_of es < size_tlv_max
      → (code : ℤ) × (after : State p.Flash) × (write_array p s field k (length xs) xs
          ≡ some (code, after))
        × (read_array p after field k (length xs) array ≡ some (pos 0, xs))
  read_array-write_array array numbers same fits =
      let n = k * length xs in
      let whole : k * length xs % 256 ≡ n = omega arith in
      let size : length (array_bytes k xs) ≡ n = length-array_bytes k xs in
      let room : length (array_bytes k array) ≡ n =
        length-array_bytes k array ∙ ap (λ m. k * m) same in
      let bytes = array_bytes k xs in
      let written = upsert (field_code field) bytes es in
      let out : Stored p s written (write_array p s field k (length xs) xs) =
        subst
          (λ v.
            Stored p s (upsert (field_code field) v es) (write_array p s field k (length xs) xs))
          (take_all (k * length xs % 256) bytes (omega (arith, size)))
          (write_array_truncates (omega arith)) in
      let found = lookup-upsert_self (field_code field) bytes es in
      (
        out.code,
        out.after,
        out.returns,
        read_array_run p out.after field k (length xs) n array whole (
              read_value-Holds out.after field n (array_bytes k array) written out.is_sealed.holds
                (omega (arith, room))
              ∙ ap some (
                  read_entry-some written (field_code field) n (array_bytes k array) found
                  ∙ read_found_fits (offset_from 0 (field_code field) written) n bytes
                      (array_bytes k array)
                      (omega (
                        arith,
                        offset_from-le 0 (field_code field) written found,
                        size_of-upsert-le (field_code field) bytes es,
                        size,
                      ))
                      size room))
            ∙ ap (λ m. some (pos 0, from_array_bytes k m bytes)) same
            ∙ ap (λ l. some (pos 0, l)) (from_array_bytes-array_bytes k xs numbers),
      )
