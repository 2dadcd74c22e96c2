-- ===== src/Config/Save/Malformed.antt =====
-- A write over contents that are no list of entries.
use tdoa.Base.{
  ℕ, ◌+◌, ◌-◌, ◌%◌, ◌^◌, ◌≤◌, ◌<◌, ◌≡◌, ◌≢◌, refl, false, none, some, List, arith, length, take,
  leb-eq_true, leb-eq_false, ==-eq_false, ◌==◌, read_at, pos,
}
use tdoa.Config.Platform.{Platform}
use tdoa.Config.State.{size_read, size_header, size_tlv_max, ConfigField, State, tlv_byte, tlv_read}
use tdoa.Config.Tlv.{find_field, no_room, shift_data, insert_value}
use tdoa.Config.Tlv.Total.{IsReadable, tlv_read_total}
use tdoa.Config.Save.{put_value, write_value}

module _ {Flash : Type 0} (s : State Flash) (h : IsReadable s) where
  tlv_read_past : (i n : ℕ) → size_read < i + n + size_header → tlv_read s i n ≡ none
  unfolding tlv_read
  tlv_read_past i n past =
      rw (h.data_set, leb-eq_false (6 + i + n) (length s.buffer) (omega (arith, h.length-buffer)))
        refl

  -- The number of bytes to move is a size_t, so it wraps around.
  shift_data_wraps :
      (at old size : ℕ)
      → at < h.len
      → h.len < at + 2 + old
      → old < 256
      → (size == old) ≡ false
      → shift_data s h.len at old size ≡ none
  unfolding shift_data
  shift_data_wraps at old size inside beyond byte other =
      let huge =
        tlv_read_past (at + 2 + old) ((2 ^ 32 + h.len - (at + 2 + old)) % 2 ^ 32)
          (omega (arith, h.small)) in
      ground arith

  insert_value_wraps :
      (at old size : ℕ) (field : ConfigField) (value : List ℕ)
      → at < h.len
      → h.len < at + 2 + old
      → old < 256
      → (size == old) ≡ false
      → tlv_byte s (at + 1) ≡ some old
      → 2 + size + h.len ≤ size_tlv_max
      → size ≤ length value
      → insert_value s at field size value ≡ none
  unfolding insert_value no_room
  insert_value_wraps at old size field value inside beyond byte other stored room fits =
      let (present, e, l) = tlv_read_total s h (at + 2) size (omega arith) in
      let moved = shift_data_wraps at old size inside beyond byte other in
      let len = h.has_length in
      let wanted : read_at value 0 size ≡ some (take size value) =
        rw (leb-eq_true (0 + size) (length value) (omega arith)) refl in
      ground arith

module _ (p : Platform) (s : State p.Flash) (h : IsReadable s) where
  -- Over contents that `check_data` lets through, but in which the first entry of the field says
  -- that it reaches beyond the values, a write of another size that passes the check of the room
  -- moves a number of bytes that has wrapped around, far beyond `_buffer`.
  pub write_value_wraps :
      (at old size : ℕ) (field : ConfigField) (value : List ℕ)
      → find_field s field ≡ some (pos at)
      → tlv_byte s (at + 1) ≡ some old
      → at < h.len
      → h.len < at + 2 + old
      → old < 256
      → size ≢ old
      → 2 + size + h.len ≤ size_tlv_max
      → size ≤ length value
      → write_value p s field size value ≡ none
  unfolding write_value put_value no_room
  write_value_wraps at old size field value found stored inside beyond byte other room fits =
      let len = h.has_length in
      let wraps =
        insert_value_wraps s h at old size field value inside beyond byte
          (==-eq_false size old other) stored room fits in
      ground arith
