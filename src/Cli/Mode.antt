-- ===== src/Cli/Mode.antt =====
-- `config mode`
use tdoa.Base.{ℕ, ◌+◌, ◌<◌, ◌≡◌, refl, some, List, [], ◌∷◌, arith, pos, le_bytes}
use tdoa.Config.Platform.{Platform, Durable}
use tdoa.Config.State.{size_tlv_max, ConfigField, field_code, State}
use tdoa.Config.Tlv.Store.{Entry, size_of, upsert, size_of-upsert-le, lookup-upsert_self}
use tdoa.Config.Tlv.Encoded.{Holds}
use tdoa.Config.Save.Crc.{Sealed}
use tdoa.Config.Save.Write.{OnFlash}
use tdoa.Config.Api.{config_read_u8, config_write_u8}
use tdoa.Config.Api.Laws.{read_number_entry}
use tdoa.Uwb.Core.{uwb_mode_name}
use tdoa.Cli.{parse_mode, set_mode, show_mode, cmd_config_mode}
use tdoa.Cli.Saving.{Accepts, write_number-Saved}

module _ (p : Platform) (s : State p.Flash) where
  set_mode_run :
      (arg name : List ℕ) (mode : ℕ) {after : State p.Flash}
      → parse_mode arg ≡ some (mode, name)
      → config_write_u8 p s ConfigField.mode mode ≡ some (pos 0, after)
      → set_mode p s arg ≡ some (record { code = pos 0; shown = name }, after)
  unfolding set_mode
  set_mode_run arg name mode a b = ground arith

  show_mode_run :
      (stack mode : ℕ) (name : List ℕ)
      → config_read_u8 p s ConfigField.mode stack ≡ some (pos 0, mode)
      → uwb_mode_name mode ≡ some name
      → show_mode p s stack ≡ some (record { code = pos 0; shown = name }, s)
  unfolding show_mode
  show_mode_run stack mode name a b = rw a (rw b refl)

-- An argument stands for a mode of the table, by its own name there.
parse_mode-name :
    (arg name : List ℕ) (mode : ℕ)
    → parse_mode arg ≡ some (mode, name)
    → (uwb_mode_name mode ≡ some name) × (mode < 2)
unfolding parse_mode uwb_mode_name
parse_mode-name arg name mode e = ground arith

module _ (p : Platform) (d : Durable p) (accepts : Accepts p) (s : State p.Flash) (es : List Entry)
    (h : Holds s es) where
  -- While NVS takes the writes and the area has bytes to spare, an argument that names a mode sets
  -- it: the command prints its name and returns 0, the store holds the mode, also on flash, which
  -- stays mounted, and the command without an argument prints that name again.
  pub cmd_config_mode-set :
      (stack later mode : ℕ) (arg name : List ℕ) (more : List (List ℕ))
      → parse_mode arg ≡ some (mode, name)
      → 3 + size_of es < size_tlv_max
      → (after : State p.Flash) × (cmd_config_mode p s stack (arg ∷ more)
          ≡ some (record { code = pos 0; shown = name }, after))
        × Sealed p after (upsert (field_code ConfigField.mode) (le_bytes 1 mode) es)
        × OnFlash p after
        × (after.fs ≡ s.fs)
        × (cmd_config_mode p after later [] ≡ some (record { code = pos 0; shown = name }, after))
  unfolding cmd_config_mode config_write_u8 config_read_u8
  cmd_config_mode-set stack later mode arg name more parsed fits =
      let (named, small) = parse_mode-name arg name mode parsed in
      let es' = upsert (field_code ConfigField.mode) (le_bytes 1 mode) es in
      let saved =
        write_number-Saved p d accepts s ConfigField.mode 1 mode es h (omega arith) (omega arith) in
      let read =
        read_number_entry p saved.after ConfigField.mode 1 es' later mode saved.is_sealed.holds
          (lookup-upsert_self (field_code ConfigField.mode) (le_bytes 1 mode) es)
          (omega (arith, size_of-upsert-le (field_code ConfigField.mode) (le_bytes 1 mode) es))
          (omega arith) in
      (
        saved.after,
        set_mode_run p s arg name mode parsed saved.returns,
        saved.is_sealed,
        saved.on_flash,
        saved.same_fs,
        show_mode_run p saved.after later mode name read named,
      )
