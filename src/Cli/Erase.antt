-- ===== src/Cli/Erase.antt =====
-- `config erase`
use tdoa.Base.{
  ℕ, ◌+◌, ◌<◌, ◌≡◌, refl, some, arith, List, [], ◌∷◌, pos, neg, le_bytes, if◌then◌else◌, is_zero,
}
use tdoa.Config.Platform.{Platform, Durable}
use tdoa.Config.State.{config_nvs_id, size_tlv_max, ConfigField, field_code, State}
use tdoa.Config.Tlv.Store.{Entry, size_of, upsert}
use tdoa.Config.Tlv.Encoded.{Holds, Holds-transfer}
use tdoa.Config.Save.{config_erase}
use tdoa.Config.Save.Crc.{Sealed}
use tdoa.Config.Save.Write.{OnFlash}
use tdoa.Cli.{parse_mode, cmd_config_mode, cmd_config_erase}
use tdoa.Cli.Saving.{Accepts}
use tdoa.Cli.Mode.{cmd_config_mode-set}

module _ (p : Platform) (s : State p.Flash) where
  abbrev pub erased : State p.Flash
  erased = record s { flash = (p.nvs_delete s.fs s.flash config_nvs_id).1 }

  cmd_config_erase_run : cmd_config_erase p s ≡ (
    record {
      code = if is_zero (p.nvs_delete s.fs s.flash config_nvs_id).0 then pos 0 else neg 1;
      shown = [];
    },
    erased,
  )
  unfolding cmd_config_erase config_erase
  cmd_config_erase_run = ground arith

  -- `config erase` deletes the entry on flash, and returns 0 or -1 as NVS does, but the settings
  -- in memory stay as they were; so while NVS takes the writes and the area has bytes to spare,
  -- the next `config mode` puts all of them, with the new mode, back on flash.
  pub cmd_config_erase-undone :
      (d : Durable p) (accepts : Accepts p) (es : List Entry) (stack mode : ℕ) (arg name : List ℕ)
      → Holds s es
      → parse_mode arg ≡ some (mode, name)
      → 3 + size_of es < size_tlv_max
      → (cmd_config_erase p s ≡ (
        record {
          code = if is_zero (p.nvs_delete s.fs s.flash config_nvs_id).0 then pos 0 else neg 1;
          shown = [];
        },
        erased,
      ))
        × Holds erased es
        × (after : State p.Flash) × (cmd_config_mode p erased stack (arg ∷ [])
            ≡ some (record { code = pos 0; shown = name }, after))
        × Sealed p after (upsert (field_code ConfigField.mode) (le_bytes 1 mode) es)
        × OnFlash p after
  cmd_config_erase-undone d accepts es stack mode arg name h parsed fits =
      let kept = Holds-transfer s erased es refl refl h in
      let (after, runs, sealed, saved, _, _) =
        cmd_config_mode-set p d accepts erased es kept stack stack mode arg name [] parsed fits in
      (cmd_config_erase_run, kept, after, runs, sealed, saved)
