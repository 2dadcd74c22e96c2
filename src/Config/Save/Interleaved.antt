-- ===== src/Config/Save/Interleaved.antt =====
-- Two threads that use the store: what becomes of a write that another thread cuts.
use tdoa.Base.{
  bind_same, branch_same, ℕ, ◌+◌, ◌≤◌, ◌≡◌, refl, sym, ap, ◌∙◌, false, Option, some, List, arith,
  length, pos, is_neg,
}
use tdoa.Config.Platform.{NvsFs, Platform, Durable}
use tdoa.Config.State.{size_read, size_tlv_max, config_nvs_id, ConfigField, State, tlv_length}
use tdoa.Config.Tlv.{no_room}
use tdoa.Config.Tlv.Store.{Entry, size_of}
use tdoa.Config.Tlv.Encoded.{Holds, Holds-transfer, tlv_length-Holds}
use tdoa.Config.Tlv.Append.{no_room-eq_false}
use tdoa.Config.Save.{write_crc, read_buffer, write_buffer, put_value, save_value, write_value}
use tdoa.Config.Save.Crc.{Sealed, with_crc, write_crc_lem, with_crc-Sealed}
use tdoa.Config.Save.Put.{put_value-Put}
use tdoa.Config.Save.Pauses.{
  Pause, before_checksum, in_sleep, reads_before_checksum, save_value_with, write_value_with,
}
use tdoa.Config.Save.Write.{
  OnFlash, flashed, write_fails, Sealed-flashed, flashed-OnFlash, read_buffer-OnFlash,
  read_buffer_lem, length-buffer,
}

module _ (p : Platform) (others : Pause → State p.Flash → Option (State p.Flash)) where
  open p use {Flash}

  save_value_with_run :
      (s : State Flash) {s1 t : State Flash}
      → write_crc p s ≡ some s1
      → write_fails p s1 ≡ false
      → others in_sleep (flashed p s1) ≡ some t
      → OnFlash p t
      → save_value_with p others s ≡ some (pos 0, t)
  unfolding save_value_with write_buffer
  save_value_with_run s {s1} {t} a b c on = let r = read_buffer-OnFlash p t on in ground arith

  write_value_with_run :
      (s : State Flash) (field : ConfigField) (size : ℕ) (value : List ℕ) {len n : ℕ}
      {s1 s2 : State Flash}
      → tlv_length s ≡ some len
      → no_room size len ≡ false
      → put_value p s field size value ≡ some (pos n, s1)
      → others before_checksum s1 ≡ some s2
      → write_value_with p others s field size value ≡ save_value_with p others s2
  unfolding write_value_with
  write_value_with_run s field size value a b c d = ground arith

module _ (p : Platform) where
  open p use {Flash}

  save_value_with-quiet : (s : State Flash) → save_value_with p (λ _ u. some u) s ≡ save_value p s
  unfolding save_value_with save_value
  save_value_with-quiet s = refl

  -- Where nobody cuts it, the write is the one without its pauses.
  pub write_value_with-quiet :
      (s : State Flash) (field : ConfigField) (size : ℕ) (value : List ℕ)
      → write_value_with p (λ _ u. some u) s field size value ≡ write_value p s field size value
  unfolding write_value_with write_value
  write_value_with-quiet s field size value = bind_same (tlv_length s) (λ len.
      branch_same (no_room size len)
        (bind_same (put_value p s field size value)
          (λ r. branch_same (is_neg r.0) (save_value_with-quiet r.1) refl))
        refl)

module _ (p : Platform) (d : Durable p)
    (accepts : (fs : NvsFs) (flash : p.Flash) (bytes : List ℕ)
      → is_neg (p.nvs_write fs flash config_nvs_id bytes).0 ≡ false)
    (s : State p.Flash) (es : List Entry) (sealed : Sealed p s es) (field : ConfigField) (size : ℕ)
    (value : List ℕ) (has : size ≤ length value) (fits : 2 + size + size_of es ≤ size_tlv_max) where
  open p use {Flash}

  read_buffer-Put :
      (u : State Flash) {es' : List Entry}
      → OnFlash p s
      → Holds u es'
      → u ≡ record s { buffer = u.buffer }
      → read_buffer p u ≡ some (pos 0, record u { buffer = s.buffer })
  read_buffer-Put u on h e =
      read_buffer_lem p u
        (ap (λ (v : State Flash). p.nvs_read v.fs v.flash config_nvs_id size_read) e ∙ on)
        (length-buffer h ∙ sym (length-buffer sealed.holds))

  -- An update may be lost: over entries under their checksum, in memory and on flash, with room
  -- for the value, and while NVS takes the writes, if another thread wakes up after the value is
  -- in the buffer and reads the buffer again from flash, as `write_defaults` does, then the write
  -- returns 0, but in memory and on flash the entries are those of before.
  pub write_value_with-lost :
      OnFlash p s
      → (after : State Flash) × (write_value_with p (reads_before_checksum p) s field size value
          ≡ some (pos 0, after))
        × Sealed p after es
        × OnFlash p after
  unfolding reads_before_checksum
  write_value_with-lost on =
      let put = put_value-Put p s field size value es sealed.holds has fits in
      let read = read_buffer-Put put.after on put.holds put.rest_same in
      let u : State Flash = record put.after { buffer = s.buffer } in
      let h : Holds u es =
        Holds-transfer s u es refl (put.holds.data_set ∙ sym sealed.holds.data_set) sealed.holds in
      let s1 = with_crc p u es h in
      let kept =
        flashed-OnFlash p d s1 (length-buffer (with_crc-Sealed p u es h).holds)
          (accepts s1.fs s1.flash s1.buffer) in
      (
        flashed p s1,
        write_value_with_run p (reads_before_checksum p) s field size value
              (tlv_length-Holds s es sealed.holds) (no_room-eq_false size (size_of es) fits)
              put.returns (rw read refl)
            ∙ save_value_with_run p (reads_before_checksum p) u (write_crc_lem p u es h)
                (accepts s1.fs s1.flash s1.buffer) refl kept,
        Sealed-flashed p s1 es (with_crc-Sealed p u es h),
        kept,
      )
