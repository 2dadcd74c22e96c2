-- ===== src/Uwb/Core/Unplaced.antt =====
-- `uwb_init` of src/uwb.c over a store that has the mode of an anchor and nothing else of it.
use tdoa.Base.{
  ℕ, ◌≡◌, ap, ◌∙◌, none, some, List, arith, length-le_bytes, replicate, pos, le_bytes, ◌<◌,
}
use tdoa.Config.Platform.{Platform}
use tdoa.Config.State.{size_tlv_max, ConfigField, field_code, State}
use tdoa.Config.Tlv.Store.{Entry, size_of, lookup}
use tdoa.Config.Tlv.Encoded.{Holds}
use tdoa.Config.Tlv.Read.{read_entry-none, read_value-Holds}
use tdoa.Config.Api.{config_read_u32}
use tdoa.Config.Api.Laws.{read_number_run}
use tdoa.Uwb.Types.{mode_anchor}
use tdoa.Uwb.Device.{Driver}
use tdoa.Uwb.Core.{core_boot, anchor_algorithm, read_coordinate, uwb_init}
use tdoa.Uwb.Core.Settings.{
  address_missing, read_mode_entry, read_settings_anchor, uwb_init_run, set_up,
}

module _ (p : Platform) (s : State p.Flash) (es : List Entry) (h : Holds s es) where
  read_coordinate_missing :
      (field : ConfigField) (before : ℕ)
      → lookup (field_code field) es ≡ none
      → read_coordinate p s field before ≡ some 0
  unfolding read_coordinate config_read_u32
  read_coordinate_missing field before e = ground (
    arith,
    read_number_run p s field 4 before (
        read_value-Holds s field 4 (le_bytes 4 before) es h
          (omega (arith, length-le_bytes 4 before))
        ∙ ap some (read_entry-none es (field_code field) 4 (le_bytes 4 before) e)),
  )

  -- Such a start is that of an anchor with an address of eight zero bytes that stands at the origin.
  pub uwb_init_unplaced :
      (driver : Driver) (opened : driver.openspi ≡ pos 0) (initialised : driver.initialised ≡ pos 0)
      → size_of es < size_tlv_max
      → lookup (field_code ConfigField.mode) es ≡ some (le_bytes 1 mode_anchor)
      → lookup (field_code ConfigField.address) es ≡ none
      → lookup (field_code ConfigField.anchor_x_pos_mm) es ≡ none
      → lookup (field_code ConfigField.anchor_y_pos_mm) es ≡ none
      → uwb_init p s driver core_boot
        ≡ some (
          pos 0,
          record (set_up p s es h driver opened initialised core_boot) {
            algorithm = anchor_algorithm;
            uwb_config = record {
              mode = mode_anchor;
              address = replicate 8 0;
              anchor_x_pos_mm = 0;
              anchor_y_pos_mm = 0;
            };
          },
        )
  uwb_init_unplaced driver opened initialised fits has_mode no_address no_x no_y =
      uwb_init_run p s driver core_boot opened initialised (
        read_settings_anchor p s (set_up p s es h driver opened initialised core_boot)
          (read_mode_entry p s es h mode_anchor 0 has_mode fits (omega arith))
          (address_missing p s es h no_address)
          (read_coordinate_missing ConfigField.anchor_x_pos_mm 0 no_x)
          (read_coordinate_missing ConfigField.anchor_y_pos_mm 0 no_y))
