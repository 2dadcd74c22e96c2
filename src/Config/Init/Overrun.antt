-- ===== src/Config/Init/Overrun.antt =====
-- Lengths that `check_data` lets through, or `write_defaults` keeps, although the checksum behind
-- them does not fit the buffer.
use tdoa.Base.{
  ℕ, ◌+◌, ◌-◌, ◌<◌, ◌≡◌, refl, ◌∙◌, none, some, List, arith, length, pos, read_at, leb-eq_false,
}
use tdoa.Config.Platform.{Platform}
use tdoa.Config.State.{size_read, size_header, size_tail, State, tlv_length}
use tdoa.Config.Save.{checksum, write_crc, check_magic, check_crc, check_data}
use tdoa.Config.Init.{write_defaults}
use tdoa.Config.Init.Header.{
  split-Header, stamped_state, tlv_length_kept, length-stamped, write_defaults_stuck,
}

read_at_past : (m : List ℕ) (off n : ℕ) → length m < off + n → read_at m off n ≡ none
read_at_past m off n h = rw (leb-eq_false (off + n) (length m) h) refl

module _ (p : Platform) where
  open p use {Flash}

  check_crc_past :
      (s : State Flash) {len : ℕ}
      → tlv_length s ≡ some len
      → length s.buffer < size_header + len + size_tail
      → check_crc p s ≡ none
  unfolding check_crc
  check_crc_past s {len} a b = ground (arith, read_at_past s.buffer (size_header + len) 4)

  -- With the magic in place, a stored length of 119, 120 or 121 passes the bound of `check_data`
  -- and makes `check_crc` read beyond the end of `_buffer`.
  pub check_data_overrun :
      (s : State Flash) (len : ℕ)
      → length s.buffer ≡ size_read
      → check_magic p s ≡ some (pos 0)
      → tlv_length s ≡ some len
      → size_read < size_header + len + size_tail
      → len < size_read - size_header
      → check_data p s ≡ none
  unfolding check_data
  check_data_overrun s len l m e a b = ground (arith, check_crc_past s e)

  write_crc_past :
      (s : State Flash) {len : ℕ}
      → tlv_length s ≡ some len
      → length s.buffer < size_header + len + size_tail
      → write_crc p s ≡ none
  unfolding write_crc checksum
  write_crc_past s {len} a b = ground arith

  -- `write_defaults` keeps whatever length the rejected data had: one beyond 118 makes it compute
  -- and store the checksum beyond the end of `_buffer`.
  pub write_defaults_overrun :
      (s : State Flash) (len : ℕ)
      → length s.buffer ≡ size_read
      → tlv_length s ≡ some len
      → size_read < size_header + len + size_tail
      → write_defaults p s ≡ none
  write_defaults_overrun s len l e h =
      let hd = split-Header s.buffer l in
      write_defaults_stuck p s hd (
        write_crc_past (stamped_state s hd) (tlv_length_kept s hd ∙ e)
          (omega (arith, length-stamped s hd, l)))
