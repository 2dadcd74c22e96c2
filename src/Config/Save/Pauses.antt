-- ===== src/Config/Save/Pauses.antt =====
-- `write_value` of src/config.c where other threads run in between: after the value is in the
-- buffer, where a thread of a higher priority may wake up, and while it sleeps. What they do to the
-- store is a parameter.
use tdoa.Base.{
  ℕ, true, false, Option, some, List, if◌then◌else◌, ◌>>=◌, ℤ, pos, neg, is_neg, is_zero,
}
use tdoa.Config.Platform.{Platform}
use tdoa.Config.State.{ConfigField, State, tlv_length}
use tdoa.Config.Tlv.{no_room}
use tdoa.Config.Save.{write_crc, read_buffer, write_buffer, put_value}

pub data Pause : Type 0 where
  before_checksum in_sleep : Pause

module _ (p : Platform) (others : Pause → State p.Flash → Option (State p.Flash)) where
  open p use {Flash}

  unfoldable pub save_value_with : State Flash → Option (ℤ × State Flash)
  save_value_with s = do
    s1 ← write_crc p s
    let (written, s2) = write_buffer p s1
    elim (is_neg written) [
      | true ↦ some (neg 3, s2)
      | false ↦ do
        slept ← others in_sleep s2
        (r, s3) ← read_buffer p slept
        some (if is_zero r then pos 0 else neg 4, s3)
    ]

  unfoldable pub write_value_with :
      State Flash → ConfigField → ℕ → List ℕ → Option (ℤ × State Flash)
  write_value_with s field size value = do
    len ← tlv_length s
    elim (no_room size len) [
      | true ↦ some (neg 1, s)
      | false ↦ do
        (inserted, s1) ← put_value p s field size value
        elim (is_neg inserted) [
          | true ↦ some (neg 2, s1)
          | false ↦ do paused ← others before_checksum s1; save_value_with paused
        ]
    ]

module _ (p : Platform) where
  -- The rest of `write_defaults`, which reads the buffer again, before the checksum.
  unfoldable pub reads_before_checksum : Pause → State p.Flash → Option (State p.Flash)
  reads_before_checksum before_checksum s = do (_, t) ← read_buffer p s; some t
  reads_before_checksum in_sleep s = some s
