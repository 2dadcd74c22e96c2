-- ===== src/Config/Save/Update.antt =====
-- `write_value` as a whole, on both of its outcomes.
use tdoa.Base.{
  ℕ, ◌+◌, ◌≤◌, ◌<◌, ◌≡◌, ap, ◌∙◌, false, some, List, arith, length, take, Option, ℤ, pos, neg,
}
use tdoa.Config.Platform.{Platform, Durable}
use tdoa.Config.State.{size_tlv_max, ConfigField, field_code, State, tlv_length}
use tdoa.Config.Tlv.{no_room}
use tdoa.Config.Tlv.Store.{Entry, size_of, upsert}
use tdoa.Config.Tlv.Encoded.{Holds, tlv_length-Holds}
use tdoa.Config.Tlv.Append.{no_room-eq_false}
use tdoa.Config.Save.{save_value, put_value, write_value}
use tdoa.Config.Save.Put.{put_value-Put}
use tdoa.Config.Save.Write.{Stored, save_value-Stored}

module _ (p : Platform) (s : State p.Flash) (field : ConfigField) (size : ℕ) (value : List ℕ) where
  write_value_no_room :
      {len : ℕ}
      → tlv_length s ≡ some len
      → size_tlv_max < 2 + size + len
      → write_value p s field size value ≡ some (neg 1, s)
  unfolding write_value no_room
  write_value_no_room a b = ground arith

  write_value_run :
      {len n : ℕ} {s1 : State p.Flash}
      → tlv_length s ≡ some len
      → no_room size len ≡ false
      → put_value p s field size value ≡ some (pos n, s1)
      → write_value p s field size value ≡ save_value p s1
  unfolding write_value
  write_value_run a b c = ground arith

  Stored_from :
      (s1 : State p.Flash) {es : List Entry} {r : Option (ℤ × State p.Flash)}
      → s1 ≡ record s { buffer = s1.buffer }
      → Stored p s1 es r
      → Stored p s es r
  Stored_from s1 e t = record {
    code = t.code;
    after = t.after;
    returns = t.returns;
    is_sealed = t.is_sealed;
    kept = t.kept;
    tried = t.tried;
    same_buffer = t.same_buffer;
    code_by_flash = t.code_by_flash;
    same_device = (
      t.same_device.0 ∙ ap (λ (u : State p.Flash). u.flash) e,
      t.same_device.1 ∙ ap (λ (u : State p.Flash). u.fs) e,
    );
  }

  -- A value that does not fit beside the present entries is refused, and nothing changes, also
  -- where it would replace one of its own size.
  pub write_value_full :
      (es : List Entry)
      → Holds s es
      → size_tlv_max < 2 + size + size_of es
      → write_value p s field size value ≡ some (neg 1, s)
  write_value_full es h full = write_value_no_room (tlv_length-Holds s es h) full

  -- A value that fits is put into the buffer under a new checksum. The result is 0, and the
  -- buffer is on flash, if NVS takes the write, and -3 if it does not.
  pub write_value-Stored :
      Durable p
      → (es : List Entry) → Holds s es
      → size ≤ length value
      → 2 + size + size_of es ≤ size_tlv_max
      → Stored p s
          (upsert (field_code field) (take size value) es)
          (write_value p s field size value)
  write_value-Stored d es h has fits =
      let put = put_value-Put p s field size value es h has fits in
      let run : write_value p s field size value ≡ save_value p put.after =
        write_value_run (tlv_length-Holds s es h) (no_room-eq_false size (size_of es) fits)
          put.returns in
      rw run (
        Stored_from put.after put.rest_same (
          save_value-Stored p d put.after (upsert (field_code field) (take size value) es)
            put.holds))
