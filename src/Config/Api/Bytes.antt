-- ===== src/Config/Api/Bytes.antt =====
-- Arrays of bytes through the accessors of arrays.
use tdoa.Base.{
  zero, drop, ℕ, ◌<◌, ◌≡◌, refl, ap, ap₂, ◌∙◌, suc, some, List, [], ◌∷◌, arith, length, ℤ, pos,
}
use tdoa.Config.Platform.{Platform}
use tdoa.Config.State.{size_tlv_max, ConfigField, field_code, State}
use tdoa.Config.Tlv.{read_value}
use tdoa.Config.Tlv.Store.{Entry, size_of, lookup, offset_from, offset_from-le}
use tdoa.Config.Tlv.Encoded.{Holds}
use tdoa.Config.Tlv.Read.{read_entry-some, read_found_fits, read_value-Holds}
use tdoa.Config.Api.{array_bytes, from_array_bytes, read_array, config_read_u8_array}

pub length-array_bytes : (xs : List ℕ) → length (array_bytes 1 xs) ≡ length xs
unfolding array_bytes
length-array_bytes [] = refl
length-array_bytes (x ∷ xs) = ap suc (length-array_bytes xs)

from_array_bytes_one : (xs : List ℕ) → from_array_bytes 1 (length xs) xs ≡ xs
unfolding from_array_bytes
from_array_bytes_one [] = refl
from_array_bytes_one (x ∷ xs) = ap₂ (λ y ys. y ∷ ys) (omega arith) (from_array_bytes_one xs)

pub length-from_array_bytes : (k n : ℕ) (bytes : List ℕ) → length (from_array_bytes k n bytes) ≡ n
unfolding from_array_bytes
length-from_array_bytes k zero bytes = refl
length-from_array_bytes k (suc n) bytes = ap suc (length-from_array_bytes k n (drop k bytes))

module _ (p : Platform) (s : State p.Flash) where
  pub read_array_run :
      (field : ConfigField) (n : ℕ) (array : List ℕ) {r : ℤ} {bytes : List ℕ}
      → n < 256
      → read_value s field n (array_bytes 1 array) ≡ some (r, bytes)
      → config_read_u8_array p s field n array ≡ some (r, from_array_bytes 1 (length array) bytes)
  unfolding config_read_u8_array read_array
  read_array_run field n array small e = ground arith

module _ (p : Platform) (s : State p.Flash) (es : List Entry) (h : Holds s es) where
  -- An array of bytes that is stored is read whole.
  pub config_read_u8_array_entry :
      (field : ConfigField) (v array : List ℕ)
      → lookup (field_code field) es ≡ some v
      → size_of es < size_tlv_max
      → length v < 256
      → length array ≡ length v
      → config_read_u8_array p s field (length v) array ≡ some (pos 0, v)
  config_read_u8_array_entry field v array e fits small same =
      let size : length (array_bytes 1 array) ≡ length v = length-array_bytes array ∙ same in
      let at = offset_from 0 (field_code field) es in
      read_array_run p s field (length v) array small (
        read_value-Holds s field (length v) (array_bytes 1 array) es h (omega (arith, size))
        ∙ ap some (
            read_entry-some es (field_code field) (length v) (array_bytes 1 array) e
            ∙ read_found_fits at (length v) v (array_bytes 1 array)
                (omega (arith, offset_from-le 0 (field_code field) es e)) refl size))
      ∙ ap (λ l. some (pos 0, l)) (ap (λ n. from_array_bytes 1 n v) same ∙ from_array_bytes_one v)
