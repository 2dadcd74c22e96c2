-- ===== src/Cli/Shell/Session.antt =====
-- A session of the shell that makes a board an anchor.
use tdoa.Base.{
  ℕ, ◌+◌, ◌^◌, ◌≤◌, ◌<◌, ◌≡◌, refl, ◌∙◌, some, List, [], ◌∷◌, arith, inr, length, pos, le_bytes,
  length-le_bytes,
}
use tdoa.Config.Platform.{Platform, Durable}
use tdoa.Config.State.{size_tlv_max, ConfigField, field_code, State}
use tdoa.Config.Tlv.Store.{
  Entry, size_of, lookup, upsert, size_of-upsert-le, lookup-upsert_self, lookup-upsert_ne,
}
use tdoa.Config.Tlv.Encoded.{Holds}
use tdoa.Config.Save.Crc.{Sealed}
use tdoa.Config.Save.Write.{OnFlash}
use tdoa.Uwb.Types.{UwbConfig, mode_anchor}
use tdoa.Cli.{Reply, anchor_name, parse_mode, parse_address}
use tdoa.Cli.Saving.{Accepts}
use tdoa.Cli.Mode.{cmd_config_mode-set}
use tdoa.Cli.Address.{cmd_config_address-set}
use tdoa.Cli.Position.{cmd_config_anchor_position-set}
use tdoa.Cli.Shell.{
  Locals, mode_name, address_name, anchor_position_name, Shell, IsZephyr, Line, run_line, run_lines,
}
use tdoa.Cli.Shell.Arguments.{run_line_mode, run_line_address, run_line_anchor_position}

-- The entries after the mode, the address and the position of `c` were stored.
abbrev pub with_mode : List Entry → List Entry
with_mode es = upsert (field_code ConfigField.mode) (le_bytes 1 mode_anchor) es

abbrev pub with_address : List Entry → UwbConfig → List Entry
with_address es c = upsert (field_code ConfigField.address) c.address (with_mode es)

abbrev pub provisioned : List Entry → UwbConfig → List Entry
provisioned es c = upsert (field_code ConfigField.anchor_y_pos_mm) (le_bytes 4 c.anchor_y_pos_mm) (
    upsert (field_code ConfigField.anchor_x_pos_mm) (le_bytes 4 c.anchor_x_pos_mm)
      (with_address es c))

abbrev pub anchor_replies : UwbConfig → List Reply
anchor_replies c =
    record { code = pos 0; shown = anchor_name }
    ∷ record { code = pos 0; shown = c.address }
    ∷ record { code = pos 0; shown = c.anchor_x_pos_mm ∷ c.anchor_y_pos_mm ∷ [] }
    ∷ []

module _ (p : Platform) (shell : Shell p) where
  -- `config mode`, `config address` and `config anchor_position` with their arguments
  abbrev pub anchor_session : Locals → List ℕ → List ℕ → List ℕ → List ℕ → List (Line p)
  anchor_session l mode address x y =
      record { locals = l; name = mode_name; args = mode ∷ [] }
      ∷ record { locals = l; name = address_name; args = address ∷ [] }
      ∷ record { locals = l; name = anchor_position_name; args = x ∷ y ∷ [] }
      ∷ []

  -- What the arguments of the session say.
  pub record Spells (c : UwbConfig) (mode address x y : List ℕ) : Type 0 where
    pub spells_mode : parse_mode mode ≡ some (mode_anchor, anchor_name)
    pub spells_address : parse_address shell.shell_strtoul address ≡ inr c.address
    pub spells_x : shell.shell_strtoul x 10 ≡ some c.anchor_x_pos_mm
    pub spells_y : shell.shell_strtoul y 10 ≡ some c.anchor_y_pos_mm
    pub x-lt : c.anchor_x_pos_mm < 2 ^ 32
    pub y-lt : c.anchor_y_pos_mm < 2 ^ 32

  run_lines_three :
      (s : State p.Flash) (a b c : Line p) {ra rb rc : Reply} {s1 s2 s3 : State p.Flash}
      → run_line p shell s a ≡ some (ra, s1)
      → run_line p shell s1 b ≡ some (rb, s2)
      → run_line p shell s2 c ≡ some (rc, s3)
      → run_lines p shell s (a ∷ b ∷ c ∷ []) ≡ some (ra ∷ rb ∷ rc ∷ [], s3)
  unfolding run_lines
  run_lines_three s a b c ea eb ec = rw ea (rw eb (rw ec refl))

  -- Where a session ends, with the entries in memory and on flash.
  pub record Session (s : State p.Flash) (lines : List (Line p)) (replies : List Reply)
      (es : List Entry) : Type 0 where
    pub after : State p.Flash
    pub runs : run_lines p shell s lines ≡ some (replies, after)
    pub is_sealed : Sealed p after es
    pub on_flash : OnFlash p after
    pub same_fs : after.fs ≡ s.fs

  module _ (zephyr : IsZephyr p shell) (d : Durable p) (accepts : Accepts p) (s : State p.Flash)
      (es : List Entry) (h : Holds s es) (fits : 25 + size_of es < size_tlv_max) where
    pub anchor_session_lem :
        (l : Locals) (c : UwbConfig) (mode address x y : List ℕ)
        → Spells c mode address x y
        → length l.address ≡ 8
        → (length c.address ≡ 8)
          × Session s (anchor_session l mode address x y) (anchor_replies c) (provisioned es c)
    anchor_session_lem l c mode address x y w ll =
        let small1 = size_of-upsert-le (field_code ConfigField.mode) (le_bytes 1 mode_anchor) es in
        let (s1, run1, sealed1, _, fs1, _) =
          cmd_config_mode-set p d accepts s es h l.mode l.mode mode_anchor mode anchor_name []
            w.spells_mode (omega arith) in
        let (length8, s2, run2, sealed2, _, fs2, _) =
          cmd_config_address-set p d accepts s1 (with_mode es) sealed1.holds shell.shell_strtoul
            address l.address l.address c.address [] w.spells_address ll ll
            (omega (arith, small1)) in
        let small2 = size_of-upsert-le (field_code ConfigField.address) c.address (with_mode es) in
        let (s3, run3, sealed3, kept, fs3, _) =
          cmd_config_anchor_position-set p d accepts s2 (with_address es c) sealed2.holds
            c.anchor_x_pos_mm c.anchor_y_pos_mm w.x-lt w.y-lt
            (omega (arith, small1, small2, length8)) shell.shell_strtoul x y l.x l.y l.x l.y
            w.spells_x w.spells_y in
        (
          length8,
          record {
            after = s3;
            runs =
                run_lines_three s _ _ _ (run_line_mode p shell zephyr s l (mode ∷ []) ∙ run1)
                  (run_line_address p shell zephyr s1 l (address ∷ []) ∙ run2)
                  (run_line_anchor_position p shell zephyr s2 l (x ∷ y ∷ []) ∙ run3);
            is_sealed = sealed3;
            on_flash = kept;
            same_fs = fs3 ∙ fs2 ∙ fs1;
          },
        )

-- The session's entries as a start of the firmware looks them up.
module _ (es : List Entry) (c : UwbConfig) where
  abbrev with_x : List Entry
  with_x =
      upsert (field_code ConfigField.anchor_x_pos_mm) (le_bytes 4 c.anchor_x_pos_mm)
        (with_address es c)

  pub provisioned_y :
      lookup (field_code ConfigField.anchor_y_pos_mm) (provisioned es c)
      ≡ some (le_bytes 4 c.anchor_y_pos_mm)
  provisioned_y = lookup-upsert_self _ _ with_x

  pub provisioned_x :
      lookup (field_code ConfigField.anchor_x_pos_mm) (provisioned es c)
      ≡ some (le_bytes 4 c.anchor_x_pos_mm)
  unfolding field_code
  provisioned_x =
      lookup-upsert_ne 3 2 _ with_x (omega arith) ∙ lookup-upsert_self _ _ (with_address es c)

  pub provisioned_address :
      lookup (field_code ConfigField.address) (provisioned es c) ≡ some c.address
  unfolding field_code
  provisioned_address =
      lookup-upsert_ne 3 1 _ with_x (omega arith)
      ∙ lookup-upsert_ne 2 1 _ (with_address es c) (omega arith)
      ∙ lookup-upsert_self _ _ (with_mode es)

  pub provisioned_mode :
      lookup (field_code ConfigField.mode) (provisioned es c) ≡ some (le_bytes 1 mode_anchor)
  unfolding field_code
  provisioned_mode =
      lookup-upsert_ne 3 0 _ with_x (omega arith)
      ∙ lookup-upsert_ne 2 0 _ (with_address es c) (omega arith)
      ∙ lookup-upsert_ne 1 0 _ (with_mode es) (omega arith)
      ∙ lookup-upsert_self _ _ es

  pub size_of-provisioned : length c.address ≡ 8 → size_of (provisioned es c) ≤ size_of es + 25
  size_of-provisioned l = omega (
    arith,
    size_of-upsert-le (field_code ConfigField.mode) (le_bytes 1 mode_anchor) es,
    size_of-upsert-le (field_code ConfigField.address) c.address (with_mode es),
    size_of-upsert-le (field_code ConfigField.anchor_x_pos_mm) (le_bytes 4 c.anchor_x_pos_mm)
        (with_address es c),
    size_of-upsert-le (field_code ConfigField.anchor_y_pos_mm) (le_bytes 4 c.anchor_y_pos_mm)
        with_x,
    length-le_bytes 4 c.anchor_x_pos_mm,
    length-le_bytes 4 c.anchor_y_pos_mm,
  )
