-- ===== src/Uwb/Core/Total.antt =====
-- That `uwb_init` comes to a result, over any contents of the store that can be read.
use tdoa.Base.{
  from_le, ℕ, zero, suc, ◌==◌, ◌≡◌, refl, ap, ◌∙◌, true, inl, inr, Bool-cases, some, ◌∷◌, arith, ℤ,
  pos, negsuc, neg, is_zero, if◌then◌else◌, le_bytes, length, length-le_bytes,
}
use tdoa.Config.Platform.{Platform}
use tdoa.Config.State.{ConfigField, State}
use tdoa.Config.Tlv.Total.{IsReadable, read_value_total}
use tdoa.Config.Api.{array_bytes, from_array_bytes, read_number, config_read_u8, config_read_u32}
use tdoa.Config.Api.Laws.{read_number_run}
use tdoa.Config.Api.Bytes.{length-array_bytes, length-from_array_bytes, read_array_run}
use tdoa.Uwb.Types.{UwbConfig, mode_anchor, mode_dummy}
use tdoa.Uwb.Device.{open_spi, slow_rate, initialise, Driver}
use tdoa.Uwb.Core.{
  Algorithm, tag_algorithm, anchor_algorithm, dummy_algorithm, Core, choose_algorithm,
  read_coordinate, read_mode, read_position, read_settings, configure_driver, uwb_init,
}
use tdoa.Uwb.Core.Settings.{uwb_init_run}

pub is_zero→pos : (r : ℤ) → is_zero r ≡ true → r ≡ pos 0
is_zero→pos (pos zero) e = refl
is_zero→pos (pos (suc n)) e = cc
is_zero→pos (negsuc n) e = cc

module _ (p : Platform) (s : State p.Flash) (h : IsReadable s) where
  read_number_total :
      (field : ConfigField) (k v : ℕ)
      → (r : ℤ) × (x : ℕ) × (read_number p s field k v ≡ some (r, x))
  read_number_total field k v =
      let (r, out, run, _) =
        read_value_total s h field k (le_bytes k v) (omega (arith, length-le_bytes k v)) in
      (r, from_le out, read_number_run p s field k v run)

  read_mode_total : (v : ℕ) → (mode : ℕ) × (read_mode p s v ≡ some mode)
  unfolding read_mode config_read_u8
  read_mode_total v =
      let (r, x, run) = read_number_total ConfigField.mode 1 v in
      (if is_zero r then x else mode_dummy, rw run refl)

  read_coordinate_total :
      (field : ConfigField) (v : ℕ) → (x : ℕ) × (read_coordinate p s field v ≡ some x)
  unfolding read_coordinate config_read_u32
  read_coordinate_total field v =
      let (r, x, run) = read_number_total field 4 v in (if is_zero r then x else 0, rw run refl)

  choose_algorithm_total :
      (mode : ℕ) (before : Algorithm)
      → (chosen : Algorithm) × (choose_algorithm mode before ≡ some chosen)
  unfolding choose_algorithm
  choose_algorithm_total zero before = (tag_algorithm, refl)
  choose_algorithm_total (suc zero) before = (anchor_algorithm, refl)
  choose_algorithm_total (suc (suc zero)) before = (dummy_algorithm, refl)
  choose_algorithm_total (suc (suc (suc mode))) before = (before, ground arith)

  read_position_total :
      (c : UwbConfig)
      → (after : UwbConfig) × (read_position p s c ≡ some after) × (after.address ≡ c.address)
  unfolding read_position
  read_position_total c =
      let (x, ex) = read_coordinate_total ConfigField.anchor_x_pos_mm c.anchor_x_pos_mm in
      let (y, ey) = read_coordinate_total ConfigField.anchor_y_pos_mm c.anchor_y_pos_mm in
      elim (Bool-cases (c.mode == mode_anchor)) [
        | inl is_anchor ↦
            (record c { anchor_x_pos_mm = x; anchor_y_pos_mm = y }, ground arith, refl)
        | inr is_other ↦ (c, ground arith, refl)
      ]

  pub read_settings_total :
      (core : Core)
      → length core.uwb_config.address ≡ 8
      → (after : Core) × (read_settings p s core ≡ some after)
        × (after.setup ≡ core.setup)
        × (length after.uwb_config.address ≡ 8)
  unfolding read_settings
  read_settings_total core has =
      let (mode, em) = read_mode_total core.uwb_config.mode in
      let (chosen, ec) = choose_algorithm_total mode core.algorithm in
      let bytes = length-array_bytes core.uwb_config.address in
      let (r, out, read, _) =
        read_value_total s h ConfigField.address 8 (array_bytes 1 core.uwb_config.address)
          (omega (arith, bytes, has)) in
      let ea =
        read_array_run p s ConfigField.address 8 core.uwb_config.address (omega arith) read in
      let config = record (core.uwb_config) {
        mode = mode;
        address = from_array_bytes 1 (length core.uwb_config.address) out;
      } in
      let (c, ep, same) = read_position_total config in
      (
        record core { algorithm = chosen; uwb_config = c },
        ground arith,
        refl,
        ap length same ∙ length-from_array_bytes 1 (length core.uwb_config.address) out ∙ has,
      )

  -- The address keeps its eight bytes.
  pub uwb_init_total :
      (driver : Driver) (core : Core)
      → length core.uwb_config.address ≡ 8
      → (r : ℤ) × (after : Core) × (uwb_init p s driver core ≡ some (r, after))
        × (length after.uwb_config.address ≡ 8)
  unfolding uwb_init
  uwb_init_total driver core has =
      let opened = open_spi ∷ core.setup in
      let (after, run, _, eight) =
        read_settings_total
          (record core { setup = configure_driver (initialise 1 ∷ slow_rate ∷ opened) }) has in
      elim (Bool-cases (is_zero driver.openspi)) [
        | inr closed ↦ (neg 1, record core { setup = opened }, ground arith, has)
        | inl working ↦ elim (Bool-cases (is_zero driver.initialised)) [
          | inr failed ↦
              (neg 2, record core { setup = initialise 1 ∷ slow_rate ∷ opened }, ground arith, has)
          | inl started ↦ (
            pos 0,
            after,
            uwb_init_run p s driver core (is_zero→pos driver.openspi working)
                (is_zero→pos driver.initialised started) run,
            eight,
          )
        ]
      ]
