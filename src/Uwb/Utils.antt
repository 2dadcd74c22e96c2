-- ===== src/Uwb/Utils.antt =====
-- src/uwb_utils.c: the five bytes of a DW1000 timestamp as a number.
use Prim.Native.Nat.{bit_or}
use tdoa.Base.{
  ℕ, zero, suc, ◌+◌, ◌*◌, ◌%◌, ◌^◌, ◌<◌, ◌≡◌, ap, ◌∙◌, Option, some, List, [], ◌∷◌, ◌>>=◌,
  get_elem?, arith, le_bytes, from_le, from_le-le_bytes, bit_or-add,
}

-- The loop with `i` bytes to go, from the highest down: `ts <<= 8; ts |= timestamp_buffer[i]`.
unfoldable pub timestamp_from : List ℕ → ℕ → ℕ → Option ℕ
timestamp_from buffer zero ts = some ts
timestamp_from buffer (suc i) ts = do
  byte ← get_elem? buffer i
  timestamp_from buffer i (bit_or (ts * 2 ^ 8 % 2 ^ 64) byte)

unfoldable pub uwb_utils_timestamp_to_u64 : List ℕ → Option ℕ
unfolding timestamp_from
uwb_utils_timestamp_to_u64 buffer = timestamp_from buffer 5 0

shift_in :
    (ts byte : ℕ) → ts < 2 ^ 56 → byte < 256 → bit_or (ts * 2 ^ 8 % 2 ^ 64) byte ≡ ts * 256 + byte
shift_in ts byte h k = ap (λ (t : ℕ). bit_or t byte) (omega arith) ∙ bit_or-add 8 ts byte k

timestamp_bytes :
    (a b c d e : ℕ)
    → (a < 256) × (b < 256) × (c < 256) × (d < 256) × (e < 256)
    → uwb_utils_timestamp_to_u64 (a ∷ b ∷ c ∷ d ∷ e ∷ []) ≡ some (from_le (a ∷ b ∷ c ∷ d ∷ e ∷ []))
unfolding uwb_utils_timestamp_to_u64
timestamp_bytes a b c d e h =
    let t1 = 0 * 256 + e in
    let t2 = t1 * 256 + d in
    let t3 = t2 * 256 + c in
    let t4 = t3 * 256 + b in
    rw
      (
        shift_in 0 e (omega arith) (omega arith),
        shift_in t1 d (omega arith) (omega arith),
        shift_in t2 c (omega arith) (omega arith),
        shift_in t3 b (omega arith) (omega arith),
        shift_in t4 a (omega arith) (omega arith),
      )
      (ap some (omega arith))

-- A 40-bit time written in the five bytes of the device, lowest first, is read back.
pub timestamp-le_bytes : (t : ℕ) → t < 2 ^ 40 → uwb_utils_timestamp_to_u64 (le_bytes 5 t) ≡ some t
timestamp-le_bytes t h = timestamp_bytes _ _ _ _ _ (omega arith) ∙ ap some (from_le-le_bytes 5 t h)
