-- ===== src/Config/Save/Begun.antt =====
-- `write_value` of src/config.c cut in two by its own sleep, for other threads that go on in between.
use tdoa.Base.{
  ℕ, ◌+◌, ◌≤◌, ◌≡◌, true, false, Option, none, some, List, length, take, if◌then◌else◌, ◌>>=◌, ℤ,
  pos, neg, is_neg, is_zero, arith,
}
use tdoa.Config.Platform.{NvsFs, Platform, Durable}
use tdoa.Config.State.{size_tlv_max, config_nvs_id, ConfigField, field_code, State, tlv_length}
use tdoa.Config.Tlv.{no_room}
use tdoa.Config.Tlv.Store.{Entry, size_of, upsert}
use tdoa.Config.Tlv.Encoded.{tlv_length-Holds}
use tdoa.Config.Tlv.Append.{no_room-eq_false}
use tdoa.Config.Save.{write_crc, read_buffer, write_buffer, put_value, save_value, write_value}
use tdoa.Config.Save.Crc.{Sealed, with_crc, write_crc_lem, with_crc-Sealed}
use tdoa.Config.Save.Put.{put_value-Put}
use tdoa.Config.Save.Write.{
  OnFlash, flashed, write_fails, Sealed-flashed, flashed-OnFlash, read_buffer-OnFlash,
  length-buffer,
}

module _ (p : Platform) where
  open p use {Flash}

  -- What `write_value` does up to its sleep: the code with which it has returned before, or none if
  -- it sleeps.
  unfoldable pub begin_write :
      State Flash → ConfigField → ℕ → List ℕ → Option (Option ℤ × State Flash)
  begin_write s field size value = do
    len ← tlv_length s
    elim (no_room size len) [
      | true ↦ some (some (neg 1), s)
      | false ↦ do
        (inserted, s1) ← put_value p s field size value
        elim (is_neg inserted) [
          | true ↦ some (some (neg 2), s1)
          | false ↦ do
            s2 ← write_crc p s1
            let (written, s3) = write_buffer p s2
            some (if is_neg written then some (neg 3) else none, s3)
        ]
    ]

  -- What it does from its sleep on.
  unfoldable pub end_write : State Flash → Option (ℤ × State Flash)
  end_write s = do (r, s1) ← read_buffer p s; some (if is_zero r then pos 0 else neg 4, s1)

  -- If nobody else runs in the sleep the parts make the whole.
  write_value-begin_write :
      (s : State Flash) (field : ConfigField) (size : ℕ) (value : List ℕ)
      → write_value p s field size value ≡ (do
        (code, t) ← begin_write s field size value
        elim code [ some r ↦ some (r, t) | none ↦ end_write t ])
  unfolding write_value save_value begin_write end_write
  write_value-begin_write s field size value = ground arith

  begin_write_sleeps :
      (s : State Flash) (field : ConfigField) (size : ℕ) (value : List ℕ) {len n : ℕ}
      {s1 s2 : State Flash}
      → tlv_length s ≡ some len
      → no_room size len ≡ false
      → put_value p s field size value ≡ some (pos n, s1)
      → write_crc p s1 ≡ some s2
      → write_fails p s2 ≡ false
      → begin_write s field size value ≡ some (none, flashed p s2)
  unfolding begin_write write_buffer
  begin_write_sleeps s field size value a b c d e = ground arith

  -- Over a store that is on flash as it is in memory the rest of the write changes nothing.
  pub end_write-OnFlash : (s : State Flash) → OnFlash p s → end_write s ≡ some (pos 0, s)
  unfolding end_write
  end_write-OnFlash s on = let r = read_buffer-OnFlash p s on in ground arith

  -- A write of a value that fits begins by putting it in the buffer and on flash.
  pub begin_write-Sealed :
      (d : Durable p)
      → ((fs : NvsFs) (flash : Flash) (bytes : List ℕ)
          → is_neg (p.nvs_write fs flash config_nvs_id bytes).0 ≡ false)
      → (s : State Flash) (es : List Entry) → Sealed p s es
      → (field : ConfigField) (size : ℕ) (value : List ℕ) → size ≤ length value
      → 2 + size + size_of es ≤ size_tlv_max
      → (t : State Flash) × (begin_write s field size value ≡ some (none, t))
        × Sealed p t (upsert (field_code field) (take size value) es)
        × OnFlash p t
  begin_write-Sealed d accepts s es sealed field size value has fits =
      let put = put_value-Put p s field size value es sealed.holds has fits in
      let es1 = upsert (field_code field) (take size value) es in
      let s1 = with_crc p put.after es1 put.holds in
      let c1 = with_crc-Sealed p put.after es1 put.holds in
      let written = accepts s1.fs s1.flash s1.buffer in
      (
        flashed p s1,
        begin_write_sleeps s field size value (tlv_length-Holds s es sealed.holds)
            (no_room-eq_false size (size_of es) fits) put.returns
            (write_crc_lem p put.after es1 put.holds) written,
        Sealed-flashed p s1 es1 c1,
        flashed-OnFlash p d s1 (length-buffer c1.holds) written,
      )
