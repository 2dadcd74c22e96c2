-- ===== src/Cli/Position.antt =====
-- `config anchor_position`
use tdoa.Base.{
  ℕ, ◌+◌, ◌%◌, ◌^◌, ◌≤◌, ◌<◌, ◌≡◌, ◌∙◌, some, Option, List, [], ◌∷◌, arith, pos, le_bytes,
  length-le_bytes,
}
use tdoa.Config.Platform.{Platform, Durable}
use tdoa.Config.State.{size_tlv_max, ConfigField, field_code, State}
use tdoa.Config.Tlv.Store.{
  Entry, size_of, lookup, upsert, size_of-upsert-le, lookup-upsert_self, lookup-upsert_ne,
}
use tdoa.Config.Tlv.Encoded.{Holds}
use tdoa.Config.Save.Crc.{Sealed}
use tdoa.Config.Save.Write.{OnFlash}
use tdoa.Config.Api.{config_read_u32, config_write_u32}
use tdoa.Config.Api.Laws.{read_number_entry}
use tdoa.Cli.{
  Reply, check_position, write_position, set_position, show_position, cmd_config_anchor_position,
}
use tdoa.Cli.Saving.{Accepts, write_number-Saved}

module _ (p : Platform) (s : State p.Flash) where
  check_position_run :
      (after : State p.Flash) (x y x0 y0 : ℕ)
      → config_read_u32 p after ConfigField.anchor_x_pos_mm x0 ≡ some (pos 0, x)
      → config_read_u32 p after ConfigField.anchor_y_pos_mm y0 ≡ some (pos 0, y)
      → check_position p s after x y x0 y0
        ≡ some (record { code = pos 0; shown = x ∷ y ∷ [] }, after)
  unfolding check_position
  check_position_run after x y x0 y0 a b = ground arith

  show_position_run :
      (x y x0 y0 : ℕ)
      → config_read_u32 p s ConfigField.anchor_x_pos_mm x0 ≡ some (pos 0, x)
      → config_read_u32 p s ConfigField.anchor_y_pos_mm y0 ≡ some (pos 0, y)
      → show_position p s x0 y0 ≡ some (record { code = pos 0; shown = x ∷ y ∷ [] }, s)
  unfolding show_position
  show_position_run x y x0 y0 a b = ground arith

  write_position_run :
      (x y x0 y0 : ℕ) {s1 s2 : State p.Flash} {reply : Reply × State p.Flash}
      → config_write_u32 p s ConfigField.anchor_x_pos_mm x ≡ some (pos 0, s1)
      → config_write_u32 p s1 ConfigField.anchor_y_pos_mm y ≡ some (pos 0, s2)
      → check_position p s s2 x y x0 y0 ≡ some reply
      → write_position p s x y x0 y0 ≡ some reply
  unfolding write_position
  write_position_run x y x0 y0 a b c = ground arith

  set_position_run :
      (shell_strtoul : List ℕ → ℕ → Option ℕ) (arg_x arg_y : List ℕ) (x y x0 y0 : ℕ)
      {reply : Reply × State p.Flash}
      → shell_strtoul arg_x 10 ≡ some x
      → shell_strtoul arg_y 10 ≡ some y
      → x < 2 ^ 32
      → y < 2 ^ 32
      → write_position p s x y x0 y0 ≡ some reply
      → set_position p s shell_strtoul arg_x arg_y x0 y0 ≡ some reply
  unfolding set_position
  set_position_run shell_strtoul arg_x arg_y x y x0 y0 a b small_x small_y c =
      let wide_x : x % 2 ^ 32 ≡ x = omega arith in
      let wide_y : y % 2 ^ 32 ≡ y = omega arith in ground arith

module _ (p : Platform) (d : Durable p) (accepts : Accepts p) (s : State p.Flash) (es : List Entry)
    (h : Holds s es) (x y : ℕ) (small_x : x < 2 ^ 32) (small_y : y < 2 ^ 32)
    (fits : 12 + size_of es < size_tlv_max) where
  abbrev with_x : List Entry
  with_x = upsert (field_code ConfigField.anchor_x_pos_mm) (le_bytes 4 x) es

  -- The entries with both coordinates.
  abbrev pub placed : List Entry
  placed = upsert (field_code ConfigField.anchor_y_pos_mm) (le_bytes 4 y) with_x

  abbrev x-le : size_of with_x ≤ size_of es + 6
  x-le = omega (
    arith,
    size_of-upsert-le (field_code ConfigField.anchor_x_pos_mm) (le_bytes 4 x) es,
    length-le_bytes 4 x,
  )

  abbrev pub placed-le : size_of placed ≤ size_of es + 12
  placed-le = omega (
    arith,
    size_of-upsert-le (field_code ConfigField.anchor_y_pos_mm) (le_bytes 4 y) with_x,
    length-le_bytes 4 y,
    x-le,
  )

  pub lookup-placed_x : lookup (field_code ConfigField.anchor_x_pos_mm) placed ≡ some (le_bytes 4 x)
  unfolding field_code
  lookup-placed_x =
      lookup-upsert_ne (field_code ConfigField.anchor_y_pos_mm)
        (field_code ConfigField.anchor_x_pos_mm) (le_bytes 4 y) with_x (omega arith)
      ∙ lookup-upsert_self (field_code ConfigField.anchor_x_pos_mm) (le_bytes 4 x) es

  pub lookup-placed_y : lookup (field_code ConfigField.anchor_y_pos_mm) placed ≡ some (le_bytes 4 y)
  lookup-placed_y =
      lookup-upsert_self (field_code ConfigField.anchor_y_pos_mm) (le_bytes 4 y) with_x

  read_x :
      (t : State p.Flash) (x0 : ℕ)
      → Holds t placed
      → config_read_u32 p t ConfigField.anchor_x_pos_mm x0 ≡ some (pos 0, x)
  unfolding config_read_u32
  read_x t x0 g =
      read_number_entry p t ConfigField.anchor_x_pos_mm 4 placed x0 x g lookup-placed_x
        (omega (arith, placed-le)) small_x

  read_y :
      (t : State p.Flash) (y0 : ℕ)
      → Holds t placed
      → config_read_u32 p t ConfigField.anchor_y_pos_mm y0 ≡ some (pos 0, y)
  unfolding config_read_u32
  read_y t y0 g =
      read_number_entry p t ConfigField.anchor_y_pos_mm 4 placed y0 y g lookup-placed_y
        (omega (arith, placed-le)) small_y

  -- While NVS takes the writes and the area has bytes to spare, two numbers of 32 bits become the
  -- position: the command passes its own check, prints them and returns 0, the store holds both,
  -- also on flash, which stays mounted, and the command without arguments prints them again.
  pub cmd_config_anchor_position-set :
      (shell_strtoul : List ℕ → ℕ → Option ℕ) (arg_x arg_y : List ℕ) (x0 y0 x1 y1 : ℕ)
      → shell_strtoul arg_x 10 ≡ some x
      → shell_strtoul arg_y 10 ≡ some y
      → let reply : Reply = record { code = pos 0; shown = x ∷ y ∷ [] } in
        (after : State p.Flash) × (cmd_config_anchor_position p s shell_strtoul x0 y0
            (arg_x ∷ arg_y ∷ [])
          ≡ some (reply, after))
        × Sealed p after placed
        × OnFlash p after
        × (after.fs ≡ s.fs)
        × (cmd_config_anchor_position p after shell_strtoul x1 y1 [] ≡ some (reply, after))
  unfolding cmd_config_anchor_position config_write_u32
  cmd_config_anchor_position-set shell_strtoul arg_x arg_y x0 y0 x1 y1 ex ey =
      let first =
        write_number-Saved p d accepts s ConfigField.anchor_x_pos_mm 4 x es h small_x
          (omega arith) in
      let second =
        write_number-Saved p d accepts first.after ConfigField.anchor_y_pos_mm 4 y with_x
          first.is_sealed.holds small_y (omega (arith, x-le)) in
      let t = second.after in
      let g = second.is_sealed.holds in
      (
        t,
        set_position_run p s shell_strtoul arg_x arg_y x y x0 y0 ex ey small_x small_y (
            write_position_run p s x y x0 y0 first.returns second.returns
              (check_position_run p s t x y x0 y0 (read_x t x0 g) (read_y t y0 g))),
        second.is_sealed,
        second.on_flash,
        second.same_fs ∙ first.same_fs,
        show_position_run p t x y x1 y1 (read_x t x1 g) (read_y t y1 g),
      )
