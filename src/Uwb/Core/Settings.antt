-- ===== src/Uwb/Core/Settings.antt =====
-- What `uwb_init` makes of the configuration store.
use tdoa.Base.{
  ℕ, ◌^◌, ◌<◌, ◌≡◌, ◌≢◌, refl, sym, ap, ◌∙◌, false, none, some, List, ◌∷◌, arith, length, subst,
  replicate, ◌&&◌, ℤ, pos, neg, is_zero, le_bytes, if◌then◌else◌,
}
use tdoa.Config.Platform.{Platform}
use tdoa.Config.State.{size_tlv_max, ConfigField, field_code, State}
use tdoa.Config.Tlv.Store.{Entry, size_of, lookup}
use tdoa.Config.Tlv.Encoded.{Holds}
use tdoa.Config.Tlv.Read.{read_entry-none, read_value-Holds}
use tdoa.Config.Api.{
  array_bytes, from_array_bytes, config_read_u8, config_read_u32, config_read_u8_array,
}
use tdoa.Config.Api.Laws.{read_number_entry, read_number_run}
use tdoa.Config.Api.Bytes.{read_array_run, config_read_u8_array_entry}
use tdoa.Uwb.Types.{mode_anchor, mode_dummy}
use tdoa.Uwb.Device.{Driver, open_spi, initialise, slow_rate}
use tdoa.Uwb.Core.{
  Core, core_boot, Algorithm, anchor_algorithm, dummy_algorithm, choose_algorithm, read_coordinate,
  read_mode, read_position, read_settings, configure_driver, uwb_init,
}

module _ (p : Platform) (s : State p.Flash) (es : List Entry) (h : Holds s es) where
  pub address_missing :
      lookup (field_code ConfigField.address) es ≡ none
      → config_read_u8_array p s ConfigField.address 8 core_boot.uwb_config.address
        ≡ some (neg 1, core_boot.uwb_config.address)
  unfolding array_bytes from_array_bytes
  address_missing e =
      let zeros = array_bytes 1 core_boot.uwb_config.address in
      read_array_run p s ConfigField.address 8 core_boot.uwb_config.address (omega arith) (
        read_value-Holds s ConfigField.address 8 zeros es h (omega arith)
        ∙ ap some (read_entry-none es (field_code ConfigField.address) 8 zeros e))

  read_coordinate_entry :
      (field : ConfigField) (v before : ℕ)
      → lookup (field_code field) es ≡ some (le_bytes 4 v)
      → size_of es < size_tlv_max
      → v < 2 ^ 32
      → read_coordinate p s field before ≡ some v
  unfolding read_coordinate config_read_u32
  read_coordinate_entry field v before e fits small =
      ground (arith, read_number_entry p s field 4 es before v h e fits (omega arith))

  pub read_mode_entry :
      (v before : ℕ)
      → lookup (field_code ConfigField.mode) es ≡ some (le_bytes 1 v)
      → size_of es < size_tlv_max
      → v < 256
      → read_mode p s before ≡ some v
  unfolding read_mode config_read_u8
  read_mode_entry v before e fits small =
      ground (arith, read_number_entry p s ConfigField.mode 1 es before v h e fits (omega arith))

  read_mode_missing :
      (before : ℕ)
      → lookup (field_code ConfigField.mode) es ≡ none
      → read_mode p s before ≡ some mode_dummy
  unfolding read_mode config_read_u8
  read_mode_missing before e = ground (
    arith,
    read_number_run p s ConfigField.mode 1 before (
        read_value-Holds s ConfigField.mode 1 (le_bytes 1 before) es h (omega arith)
        ∙ ap some (read_entry-none es (field_code ConfigField.mode) 1 (le_bytes 1 before) e)),
  )

module _ (p : Platform) (s : State p.Flash) where
  pub uwb_init_run :
      (driver : Driver) (core : Core) {after : Core}
      → driver.openspi ≡ pos 0
      → driver.initialised ≡ pos 0
      → read_settings p s (record core {
        setup = configure_driver (initialise 1 ∷ slow_rate ∷ open_spi ∷ core.setup);
      })
        ≡ some after
      → uwb_init p s driver core ≡ some (pos 0, after)
  unfolding uwb_init
  uwb_init_run driver core a b e = ground arith

  pub read_settings_anchor :
      (core : Core) {address : List ℕ} {x y : ℕ} {r : ℤ}
      → read_mode p s core.uwb_config.mode ≡ some mode_anchor
      → config_read_u8_array p s ConfigField.address 8 core.uwb_config.address ≡ some (r, address)
      → read_coordinate p s ConfigField.anchor_x_pos_mm core.uwb_config.anchor_x_pos_mm ≡ some x
      → read_coordinate p s ConfigField.anchor_y_pos_mm core.uwb_config.anchor_y_pos_mm ≡ some y
      → read_settings p s core
        ≡ some (record core {
          algorithm = anchor_algorithm;
          uwb_config = record {
            mode = mode_anchor;
            address = address;
            anchor_x_pos_mm = x;
            anchor_y_pos_mm = y;
          };
        })
  unfolding read_settings read_position choose_algorithm
  read_settings_anchor core a b c d = ground arith

  read_settings_other :
      (core : Core) (mode : ℕ) {algorithm : Algorithm} {address : List ℕ} {r : ℤ}
      → mode ≢ mode_anchor
      → read_mode p s core.uwb_config.mode ≡ some mode
      → choose_algorithm mode core.algorithm ≡ some algorithm
      → config_read_u8_array p s ConfigField.address 8 core.uwb_config.address ≡ some (r, address)
      → read_settings p s core
        ≡ some (record core {
          algorithm = algorithm;
          uwb_config = record (core.uwb_config) { mode = mode; address = address };
        })
  unfolding read_settings read_position
  read_settings_other core mode ne a b c = ground arith

module _ (p : Platform) (s : State p.Flash) (es : List Entry) (h : Holds s es) (driver : Driver)
    (opened : driver.openspi ≡ pos 0) (initialised : driver.initialised ≡ pos 0) where
  -- The calls that set up the driver, once both that may fail have succeeded.
  abbrev pub set_up : Core → Core
  set_up core = record core {
    setup = configure_driver (initialise 1 ∷ slow_rate ∷ open_spi ∷ core.setup);
  }

  -- If the driver starts, a stored mode, address and position of an anchor are what `uwb_init`
  -- configures, and the anchor's algorithm is chosen, whatever stood in the static data before.
  pub uwb_init_anchor :
      (core : Core) (address : List ℕ) (x y : ℕ)
      → size_of es < size_tlv_max
      → lookup (field_code ConfigField.mode) es ≡ some (le_bytes 1 mode_anchor)
      → lookup (field_code ConfigField.address) es ≡ some address
      → lookup (field_code ConfigField.anchor_x_pos_mm) es ≡ some (le_bytes 4 x)
      → lookup (field_code ConfigField.anchor_y_pos_mm) es ≡ some (le_bytes 4 y)
      → length address ≡ 8
      → length core.uwb_config.address ≡ 8
      → x < 2 ^ 32
      → y < 2 ^ 32
      → uwb_init p s driver core
        ≡ some (
          pos 0,
          record (set_up core) {
            algorithm = anchor_algorithm;
            uwb_config = record {
              mode = mode_anchor;
              address = address;
              anchor_x_pos_mm = x;
              anchor_y_pos_mm = y;
            };
          },
        )
  uwb_init_anchor core address x y fits has_mode has_address has_x has_y la lc small_x small_y =
      uwb_init_run p s driver core opened initialised (
        read_settings_anchor p s (set_up core)
          (read_mode_entry p s es h mode_anchor core.uwb_config.mode has_mode fits (omega arith))
          (subst
            (λ n.
              config_read_u8_array p s ConfigField.address n core.uwb_config.address
              ≡ some (pos 0, address))
            la
            (config_read_u8_array_entry p s es h ConfigField.address address core.uwb_config.address
              has_address fits (omega arith) (lc ∙ sym la)))
          (read_coordinate_entry p s es h ConfigField.anchor_x_pos_mm x
            core.uwb_config.anchor_x_pos_mm has_x fits small_x)
          (read_coordinate_entry p s es h ConfigField.anchor_y_pos_mm y
            core.uwb_config.anchor_y_pos_mm has_y fits small_y))

  -- If the driver starts, without a stored mode and address a start ends in the dummy algorithm
  -- and an address of eight zero bytes.
  pub uwb_init_unconfigured :
      lookup (field_code ConfigField.mode) es ≡ none
      → lookup (field_code ConfigField.address) es ≡ none
      → uwb_init p s driver core_boot
        ≡ some (
          pos 0,
          record (set_up core_boot) {
            algorithm = dummy_algorithm;
            uwb_config = record {
              mode = mode_dummy;
              address = replicate 8 0;
              anchor_x_pos_mm = 0;
              anchor_y_pos_mm = 0;
            };
          },
        )
  unfolding choose_algorithm
  uwb_init_unconfigured no_mode no_address = uwb_init_run p s driver core_boot opened initialised (
      read_settings_other p s (set_up core_boot) mode_dummy (omega arith)
        (read_mode_missing p s es h 0 no_mode) refl (address_missing p s es h no_address))

module _ (p : Platform) (s : State p.Flash) (driver : Driver) (core : Core) where
  -- A driver that does not open, or then does not initialise, gives -1 or -2; the algorithm and
  -- its configuration stay as they were, and no further call is made.
  pub uwb_init_fails :
      (is_zero driver.openspi && is_zero driver.initialised) ≡ false
      → uwb_init p s driver core
        ≡ some (
            if is_zero driver.openspi
            then (neg 2, record core { setup = initialise 1 ∷ slow_rate ∷ open_spi ∷ core.setup })
            else (neg 1, record core { setup = open_spi ∷ core.setup }))
  unfolding uwb_init
  uwb_init_fails failed = ground arith
