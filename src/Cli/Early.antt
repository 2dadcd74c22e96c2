-- ===== src/Cli/Early.antt =====
-- Commands that reach the store before `config_init` has set `tlv.data`.
use tdoa.Base.{
  zero, some_inj, subst, suc, get_elem?, ℕ, ◌+◌, ◌%◌, ◌^◌, ◌≤◌, ◌≡◌, refl, ap, ◌∙◌, none, some,
  Option, List, [], ◌∷◌, arith, length, neg, length-le_bytes, le_bytes,
}
use tdoa.Config.Platform.{Platform}
use tdoa.Config.State.{size_tlv_max, ConfigField, State, tlv_length, tlv_write}
use tdoa.Config.Tlv.{find_from, find_field, no_room, append_value}
use tdoa.Config.Save.{put_value, write_value}
use tdoa.Config.Api.{
  write_number, write_array, array_bytes, config_write_u8, config_write_u32, config_write_u8_array,
}
use tdoa.Config.Api.Arrays.{length-array_bytes}
use tdoa.Uwb.Types.{UwbConfig, mode_anchor}
use tdoa.Cli.{
  anchor_name, parse_mode, set_mode, cmd_config_mode, write_address, set_address,
  cmd_config_address, write_position, set_position, cmd_config_anchor_position,
}
use tdoa.Cli.Address.Parse.{length-parse_address}
use tdoa.Cli.Shell.{Locals, Shell, IsZephyr, Line, run_line}
use tdoa.Cli.Shell.Arguments.{run_line_mode, run_line_address, run_line_anchor_position}
use tdoa.Cli.Shell.Session.{anchor_session, Spells}

-- The pointer to the values is still null, and so is their length.
pub record IsEarly {Flash : Type 0} (s : State Flash) : Type 0 where
  pub no_data : s.tlv ≡ none
  pub no_length : tlv_length s ≡ some 0

module _ (p : Platform) (s : State p.Flash) (early : IsEarly s) where
  find_field_early : (field : ConfigField) → find_field s field ≡ some (neg 1)
  unfolding find_field find_from
  find_field_early field = rw early.no_length refl

  append_value_early :
      (field : ConfigField) (size : ℕ) (value : List ℕ)
      → size ≤ length value
      → 2 + size ≤ size_tlv_max
      → append_value s field size value ≡ none
  unfolding append_value no_room tlv_write
  append_value_early field size value h fits =
      let e = early.no_length in let e' = early.no_data in ground arith

  write_value_early :
      (field : ConfigField) (size : ℕ) (value : List ℕ)
      → size ≤ length value
      → 2 + size ≤ size_tlv_max
      → write_value p s field size value ≡ none
  unfolding write_value put_value no_room
  write_value_early field size value h fits =
      let e = early.no_length in
      let f = find_field_early field in
      let a = append_value_early field size value h fits in ground arith

  config_write_u8_early : (field : ConfigField) (value : ℕ) → config_write_u8 p s field value ≡ none
  unfolding config_write_u8 write_number
  config_write_u8_early field value =
      write_value_early field 1 (le_bytes 1 value) (omega arith) (omega arith)

  config_write_u32_early :
      (field : ConfigField) (value : ℕ) → config_write_u32 p s field value ≡ none
  unfolding config_write_u32 write_number
  config_write_u32_early field value =
      write_value_early field 4 (le_bytes 4 value) (omega (arith, length-le_bytes 4 value))
        (omega arith)

  config_write_u8_array_early :
      (field : ConfigField) (array : List ℕ)
      → length array ≡ 8
      → config_write_u8_array p s field 8 array ≡ none
  unfolding config_write_u8_array write_array
  config_write_u8_array_early field array l =
      write_value_early field 8 (array_bytes 1 array) (omega (arith, length-array_bytes 1 array))
        (omega arith)

  set_mode_early :
      (arg name : List ℕ) (mode : ℕ) → parse_mode arg ≡ some (mode, name) → set_mode p s arg ≡ none
  unfolding set_mode
  set_mode_early arg name mode e =
      let w = config_write_u8_early ConfigField.mode mode in ground arith

  write_address_early :
      (stack address : List ℕ) → length address ≡ 8 → write_address p s stack address ≡ none
  unfolding write_address
  write_address_early stack address l =
      rw (config_write_u8_array_early ConfigField.address address l) refl

  write_position_early : (x y x0 y0 : ℕ) → write_position p s x y x0 y0 ≡ none
  unfolding write_position
  write_position_early x y x0 y0 = rw (config_write_u32_early ConfigField.anchor_x_pos_mm x) refl

  set_position_early :
      (strtoul : List ℕ → ℕ → Option ℕ) (arg_x arg_y : List ℕ) (x y x0 y0 : ℕ)
      → strtoul arg_x 10 ≡ some x
      → strtoul arg_y 10 ≡ some y
      → set_position p s strtoul arg_x arg_y x0 y0 ≡ none
  unfolding set_position
  set_position_early strtoul arg_x arg_y x y x0 y0 e f =
      let w = write_position_early (x % 2 ^ 32) (y % 2 ^ 32) x0 y0 in ground arith

  module _ (shell : Shell p) (zephyr : IsZephyr p shell) where
    -- The lines of a session that makes a board an anchor write through the null pointer.
    pub anchor_session_early :
        (l : Locals) (c : UwbConfig) (mode address x y : List ℕ) (i : ℕ) {line : Line p}
        → Spells p shell c mode address x y
        → get_elem? (anchor_session p shell l mode address x y) i ≡ some line
        → run_line p shell s line ≡ none
    unfolding cmd_config_mode cmd_config_address set_address cmd_config_anchor_position
    anchor_session_early l c mode address x y zero w e =
        subst (λ line. run_line p shell s line ≡ none) (some_inj e)
          (run_line_mode p shell zephyr s l (mode ∷ [])
            ∙ set_mode_early mode anchor_name mode_anchor w.spells_mode)
    anchor_session_early l c mode address x y (suc zero) w e =
        subst (λ line. run_line p shell s line ≡ none) (some_inj e)
          (run_line_address p shell zephyr s l (address ∷ [])
            ∙ ap (set_address p s l.address) w.spells_address
            ∙ write_address_early l.address c.address
                (length-parse_address shell.shell_strtoul address w.spells_address))
    anchor_session_early l c mode address x y (suc (suc zero)) w e =
        subst (λ line. run_line p shell s line ≡ none) (some_inj e)
          (run_line_anchor_position p shell zephyr s l (x ∷ y ∷ [])
            ∙ set_position_early shell.shell_strtoul x y c.anchor_x_pos_mm c.anchor_y_pos_mm l.x l.y
                w.spells_x w.spells_y)
    anchor_session_early l c mode address x y (suc (suc (suc i))) w e = cc
