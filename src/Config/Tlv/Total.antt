-- ===== src/Config/Tlv/Total.antt =====
-- The reads of the values over a buffer whose bytes need not be a list of entries.
use tdoa.Base.{
  ℕ, zero, suc, ◌+◌, ◌≤◌, ◌<◌, ◌≡◌, refl, ◌∙◌, true, false, some, inl, inr, List, [], ◌∷◌, ◌++◌,
  leb→le, leb→lt, arith, length, take, drop, get_elem?, Bool-cases, ltb, leb, ◌==◌, ltb→lt, ltb→le,
  ℤ, pos, negsuc, neg, write_at, length-append, length-take, length-drop, leb-eq_true,
}
use tdoa.Config.State.{
  size_read, size_header, size_tlv_max, ConfigField, field_code, State, tlv_length, tlv_byte,
  tlv_read,
}
use tdoa.Config.Tlv.Find.{find_from_end, find_from_here, find_from_next}
use tdoa.Config.Tlv.{find_from, find_field, read_value}

get_elem?_total : (xs : List ℕ) (i : ℕ) → i < length xs → (x : ℕ) × (get_elem? xs i ≡ some x)
get_elem?_total [] i h = absurd (omega arith)
get_elem?_total (x ∷ xs) zero h = (x, refl)
get_elem?_total (x ∷ xs) (suc i) h = get_elem?_total xs i (omega arith)

-- The buffer has its size, the pointer to the values is set, and their length is one that
-- `check_data` lets through.
pub record IsReadable {Flash : Type 0} (s : State Flash) : Type 0 where
  pub length-buffer : length s.buffer ≡ size_read
  pub data_set : s.tlv ≡ some size_header
  pub len : ℕ
  pub has_length : tlv_length s ≡ some len
  pub small : len + size_header < size_read

-- A place before the end of the values, or none.
abbrev IsBefore : ℕ → ℤ → Type 0
IsBefore len (pos at) = at < len
IsBefore len (negsuc _) = Unit

module _ {Flash : Type 0} (s : State Flash) (h : IsReadable s) where
  tlv_byte_total : (i : ℕ) → i + size_header < size_read → (b : ℕ) × (tlv_byte s i ≡ some b)
  unfolding tlv_byte
  tlv_byte_total i fits =
      let (b, e) = get_elem?_total s.buffer (6 + i) (omega (arith, h.length-buffer)) in
      (b, rw (h.data_set) e)

  pub tlv_read_total :
      (i n : ℕ)
      → i + n + size_header ≤ size_read
      → (bytes : List ℕ) × (tlv_read s i n ≡ some bytes) × (length bytes ≡ n)
  unfolding tlv_read
  tlv_read_total i n fits = (
    take n (drop (6 + i) s.buffer),
    rw (h.data_set, leb-eq_true (6 + i + n) (length s.buffer) (omega (arith, h.length-buffer)))
        refl,
    omega (
      arith,
      length-take n (drop (6 + i) s.buffer),
      length-drop (6 + i) s.buffer,
      h.length-buffer,
    ),
  )

  find_from_total :
      (len tag fuel at : ℕ)
      → len + size_header < size_read
      → 0 < fuel
      → len < at + fuel
      → (found : ℤ) × (find_from s len tag fuel at ≡ some found) × IsBefore len found
  find_from_total len tag zero at small some_fuel enough = absurd (omega arith)
  find_from_total len tag (suc fuel) at small some_fuel enough = elim (Bool-cases (ltb at len)) [
    | inr past ↦ (neg 1, find_from_end s len tag fuel at (ltb→le at len past), tt)
    | inl inside ↦
        let before = ltb→lt at len inside in
        let (t, here) = tlv_byte_total at (omega arith) in
        let (n, next) = tlv_byte_total (at + 1) (omega arith) in
        elim (Bool-cases (t == tag)) [
          | inl same ↦ (pos at, find_from_here s len tag fuel at before here same, before)
          | inr other ↦
              let (found, e, k) =
                find_from_total len tag fuel (at + (n + 2)) small (omega arith) (omega arith) in
              (found, find_from_next s len tag fuel at before here other next ∙ e, k)
        ]
  ]

  find_field_total :
      (field : ConfigField) → (found : ℤ) × (find_field s field ≡ some found) × IsBefore h.len found
  unfolding find_field
  find_field_total field =
      let (found, e, k) =
        find_from_total h.len (field_code field) (suc h.len) 0 (omega (arith, h.small))
          (omega arith) (omega arith) in
      (found, rw (h.has_length) e, k)

  module _ (field : ConfigField) (size : ℕ) (value : List ℕ) (fits : size ≤ length value) where
    -- A read that came to a result, and left the object of its size.
    abbrev Reads : Type 0
    Reads =
        (r : ℤ) × (out : List ℕ) × (read_value s field size value ≡ some (r, out))
        × (length out ≡ length value)

    read_value_past :
        (at : ℕ)
        → find_field s field ≡ some (pos at)
        → size_tlv_max ≤ at + 2 + size
        → read_value s field size value ≡ some (neg 2, value)
    unfolding read_value
    read_value_past at e past = ground arith

    read_value_other :
        (at stored : ℕ)
        → find_field s field ≡ some (pos at)
        → at + 2 + size < size_tlv_max
        → tlv_byte s (at + 1) ≡ some stored
        → (size == stored) ≡ false
        → read_value s field size value ≡ some (neg 3, value)
    unfolding read_value
    read_value_other at stored e inside b other = ground arith

    read_value_here :
        (at stored : ℕ) {bytes out : List ℕ}
        → find_field s field ≡ some (pos at)
        → at + 2 + size < size_tlv_max
        → tlv_byte s (at + 1) ≡ some stored
        → (size == stored) ≡ true
        → tlv_read s (at + 2) size ≡ some bytes
        → write_at value 0 bytes ≡ some out
        → read_value s field size value ≡ some (pos 0, out)
    unfolding read_value
    read_value_here at stored e inside b same r w = ground arith

    read_value_at : (found : ℤ) → find_field s field ≡ some found → IsBefore h.len found → Reads
    unfolding read_value
    read_value_at (negsuc n) e k = (neg 1, value, rw e refl, refl)
    read_value_at (pos at) e k = elim (Bool-cases (leb size_tlv_max (at + 2 + size))) [
      | inl past ↦
          (neg 2, value, read_value_past at e (leb→le size_tlv_max (at + 2 + size) past), refl)
      | inr inside ↦
          let inside = leb→lt size_tlv_max (at + 2 + size) inside in
          let (stored, b) = tlv_byte_total (at + 1) (omega (arith, h.small)) in
          elim (Bool-cases (size == stored)) [
            | inr other ↦ (neg 3, value, read_value_other at stored e inside b other, refl)
            | inl same ↦
                let (bytes, r, l) = tlv_read_total (at + 2) size (omega arith) in
                let out = bytes ++ drop (length bytes) value in
                (
                  pos 0,
                  out,
                  read_value_here at stored e inside b same r (ground arith),
                  omega (
                    arith,
                    length-append bytes (drop (length bytes) value),
                    length-drop (length bytes) value,
                  ),
                )
          ]
    ]

    -- If the buffer has its size, the pointer to the values is set and their length, with the header,
    -- is below 128, then a read of a value comes to a result, within the buffer and an object large
    -- enough, whatever bytes the buffer holds, entries or not.
    pub read_value_total : Reads
    read_value_total = let (found, e, k) = find_field_total field in read_value_at found e k
