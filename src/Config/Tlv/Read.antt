-- ===== src/Config/Tlv/Read.antt =====
-- `read_value` and `config_field_size` against the list of entries.
use tdoa.Base.{
  ℕ, ◌+◌, ◌≤◌, ◌<◌, ◌≡◌, sym, ap, ◌∙◌, none, some, inl, inr, List, arith, length, drop, drop_all,
  append-nil, leb, ◌==◌, if◌then◌else◌, ℤ, pos, neg, write_at, ◌++◌, Option-cases,
}
use tdoa.Config.State.{size_tlv_max, ConfigField, field_code, State, tlv_byte, tlv_read}
use tdoa.Config.Tlv.{find_field, read_value}
use tdoa.Config.Tlv.Store.{Entry, size_of, lookup, offset_from, lookup-eq_some→Split}
use tdoa.Config.Tlv.Encoded.{Holds}
use tdoa.Config.Tlv.Located.{stored_size, stored_bytes, offset_at}
use tdoa.Config.Tlv.Find.{found_at, find_field-Holds}

-- What `read_value` returns, and leaves in the caller's object, for a list of entries.
unfoldable pub read_entry : List Entry → ℕ → ℕ → List ℕ → ℤ × List ℕ
read_entry es tag size value = elim (lookup tag es) [
  | none ↦ (neg 1, value)
  | some v ↦
      if leb size_tlv_max (offset_from 0 tag es + 2 + size)
      then (neg 2, value)
      else if size == length v
      then (pos 0, v ++ drop size value)
      else (neg 3, value)
]

-- The result for an entry found at `at` with the bytes `v`.
abbrev pub read_found : ℕ → List ℕ → ℕ → List ℕ → ℤ × List ℕ
read_found at v size value =
    if leb size_tlv_max (at + 2 + size)
    then (neg 2, value)
    else if size == length v
    then (pos 0, v ++ drop size value)
    else (neg 3, value)

-- A value that ends before the last byte of the area is copied whole.
pub read_found_fits :
    (at size : ℕ) (v value : List ℕ)
    → at + 2 + size < size_tlv_max
    → length v ≡ size
    → length value ≡ size
    → read_found at v size value ≡ (pos 0, v)
read_found_fits at size v value h e q = ground (arith, drop_all size value, append-nil v)

-- One that ends with the area is refused.
pub read_found_edge :
    (at size : ℕ) (v value : List ℕ)
    → size_tlv_max ≤ at + 2 + size
    → read_found at v size value ≡ (neg 2, value)
read_found_edge at size v value h = ground arith

pub read_entry-none :
    (es : List Entry) (tag size : ℕ) (value : List ℕ)
    → lookup tag es ≡ none
    → read_entry es tag size value ≡ (neg 1, value)
unfolding read_entry
read_entry-none es tag size value e = ground arith

pub read_entry-some :
    (es : List Entry) (tag size : ℕ) (value : List ℕ) {v : List ℕ}
    → lookup tag es ≡ some v
    → read_entry es tag size value ≡ read_found (offset_from 0 tag es) v size value
unfolding read_entry
read_entry-some es tag size value e = ground arith

pub found_at-none : (tag : ℕ) (es : List Entry) → lookup tag es ≡ none → found_at 0 tag es ≡ neg 1
unfolding found_at
found_at-none tag es e = ground arith

pub found_at-some :
    (tag : ℕ) (es : List Entry) {v : List ℕ}
    → lookup tag es ≡ some v
    → found_at 0 tag es ≡ pos (offset_from 0 tag es)
unfolding found_at
found_at-some tag es e = ground arith

write_at_start :
    (m bs : List ℕ) → length bs ≤ length m → write_at m 0 bs ≡ some (bs ++ drop (length bs) m)
write_at_start m bs h = ground arith

module _ {Flash : Type 0} (s : State Flash) (field : ConfigField) (size : ℕ) (value : List ℕ) where
  read_value_missing :
      find_field s field ≡ some (neg 1) → read_value s field size value ≡ some (neg 1, value)
  unfolding read_value
  read_value_missing e = ground arith

  read_value_found :
      (at : ℕ) (v : List ℕ)
      → find_field s field ≡ some (pos at)
      → tlv_byte s (at + 1) ≡ some (length v)
      → tlv_read s (at + 2) (length v) ≡ some v
      → size ≤ length value
      → read_value s field size value ≡ some (read_found at v size value)
  unfolding read_value
  read_value_found at v e b r h = ground (arith, write_at_start value v)

  -- On a buffer that holds a list of entries `read_value` does no access out of range, and returns
  -- what the list says.
  pub read_value-Holds :
      (es : List Entry)
      → Holds s es
      → size ≤ length value
      → read_value s field size value ≡ some (read_entry es (field_code field) size value)
  read_value-Holds es h fits = elim (Option-cases (lookup (field_code field) es)) [
    | inl e ↦
        read_value_missing
          (find_field-Holds s es field h ∙ ap some (found_at-none (field_code field) es e))
        ∙ (ap some (sym (read_entry-none es (field_code field) size value e)))
    | inr (v, e) ↦
        let (sp, q) = lookup-eq_some→Split (field_code field) es v e in
        let at = size_of sp.before in
        let place : offset_from 0 (field_code field) es ≡ at = offset_at h sp in
        let found : find_field s field ≡ some (pos at) =
          find_field-Holds s es field h
          ∙ ap some (found_at-some (field_code field) es e ∙ ap pos place) in
        read_value_found at v found (stored_size h sp ∙ ap (λ w. some (length w)) q)
          (ap (λ w. tlv_read s (at + 2) (length w)) (sym q) ∙ stored_bytes h sp ∙ ap some q) fits
        ∙ ap (λ o. some (read_found o v size value)) (sym place)
        ∙ ap some (sym (read_entry-some es (field_code field) size value e))
  ]
