-- ===== src/Cli.antt =====
-- src/cli.c: the shell commands `config ...`. A string is the list of its characters, `args` are
-- argv[1] and what follows, and the numbers of a reply are those that the command prints.
-- `shell_strtoul` is a parameter, none where it sets the error. Messages of errors, and the
-- hexadecimal layout, are left out.
pub mod Saving
pub mod Mode
pub mod Position
pub mod Address
pub mod Erase
pub mod Early
pub mod Shell
use tdoa.Base.{
  ℕ, zero, suc, ◌%◌, ◌^◌, ◌⊎◌, inl, inr, true, false, not, Bool, ◌||◌, ◌&&◌, Option, none, some,
  List, [], ◌∷◌, ◌++◌, if◌then◌else◌, ltb, ◌==◌, ◌>>=◌, length, same_bytes, ℤ, pos, neg, is_zero,
  replicate,
}
use tdoa.Config.Platform.{Platform}
use tdoa.Config.State.{size_read, ConfigField, State}
use tdoa.Config.Save.{config_erase, config_buffer}
use tdoa.Config.Api.{
  config_read_u8, config_read_u32, config_read_u8_array, config_write_u8, config_write_u32,
  config_write_u8_array,
}
use tdoa.Uwb.Types.{mode_tag, mode_anchor}
use tdoa.Uwb.Core.{uwb_mode_name}

pub record Reply : Type 0 where
  pub code : ℤ
  pub shown : List ℕ

abbrev pub tag_name : List ℕ
tag_name = 116 ∷ 97 ∷ 103 ∷ []

abbrev pub anchor_name : List ℕ
anchor_name = 97 ∷ 110 ∷ 99 ∷ 104 ∷ 111 ∷ 114 ∷ []

-- The mode that an argument names, "tag" or "0", "anchor" or "1", and the name it stands for
unfoldable pub parse_mode : List ℕ → Option (ℕ × List ℕ)
parse_mode arg =
    if same_bytes arg tag_name || same_bytes arg (48 ∷ [])
    then some (mode_tag, tag_name)
    else if same_bytes arg anchor_name || same_bytes arg (49 ∷ [])
    then some (mode_anchor, anchor_name)
    else none

-- One of ":;,."
unfoldable pub is_delimiter : ℕ → Bool
is_delimiter c = (c == 58) || (c == 59) || (c == 44) || (c == 46)

unfoldable pub end_token : List ℕ → List (List ℕ) → List (List ℕ)
end_token [] tokens = tokens
end_token (c ∷ cs) tokens = (c ∷ cs) ∷ tokens

-- What `strtok_r` returns call by call: the parts between delimiters that are not empty.
unfoldable pub tokens_from : List ℕ → List ℕ → List (List ℕ)
tokens_from token [] = end_token token []
tokens_from token (c ∷ cs) = elim (is_delimiter c) [
  | true ↦ end_token token (tokens_from [] cs)
  | false ↦ tokens_from (token ++ (c ∷ [])) cs
]

-- A byte before the bytes, or the error, of the later tokens
unfoldable pub keep_byte : ℕ → ℤ ⊎ List ℕ → ℤ ⊎ List ℕ
keep_byte value (inl code) = inl code
keep_byte value (inr bytes) = inr (value ∷ bytes)

unfoldable pub read_byte : Option ℕ → ℤ ⊎ List ℕ → ℤ ⊎ List ℕ
read_byte none rest = inl (neg 1)
read_byte (some value) rest = if ltb 0xFF value then inl (neg 2) else keep_byte value rest

unfoldable pub check_length : ℤ ⊎ List ℕ → ℤ ⊎ List ℕ
check_length (inl code) = inl code
check_length (inr bytes) = if length bytes == 8 then inr bytes else inl (neg 3)

module _ (shell_strtoul : List ℕ → ℕ → Option ℕ) where
  -- The loop of `cmd_config_address` with room for `n` more bytes: the bytes, or the error's code.
  unfoldable pub parse_bytes : List (List ℕ) → ℕ → ℤ ⊎ List ℕ
  parse_bytes [] n = inr []
  parse_bytes (token ∷ tokens) zero = inr []
  parse_bytes (token ∷ tokens) (suc n) = read_byte (shell_strtoul token 16) (parse_bytes tokens n)

  unfoldable pub parse_address : List ℕ → ℤ ⊎ List ℕ
  parse_address arg = check_length (parse_bytes (tokens_from [] arg) 8)

module _ (p : Platform) (s : State p.Flash) where
  abbrev refused : State p.Flash → ℤ → Reply × State p.Flash
  refused after code = (record { code = code; shown = [] }, after)

  abbrev replied : State p.Flash → List ℕ → Reply × State p.Flash
  replied after shown = (record { code = pos 0; shown = shown }, after)

  unfoldable pub cmd_config_dump : List ℕ → Option (Reply × State p.Flash)
  cmd_config_dump stack = do bytes ← config_buffer p s stack size_read; some (replied s bytes)

  unfoldable pub cmd_config_print : Reply × State p.Flash
  cmd_config_print = replied s []

  unfoldable pub cmd_config_erase : Reply × State p.Flash
  cmd_config_erase =
      let (r, after) = config_erase p s in
      if is_zero r then replied after [] else refused after (neg 1)

  -- `config mode`, where `stack` is what the local `mode` held
  unfoldable pub show_mode : ℕ → Option (Reply × State p.Flash)
  show_mode stack = do
    (r, mode) ← config_read_u8 p s ConfigField.mode stack
    elim (is_zero r) [
      | false ↦ some (refused s (neg 2))
      | true ↦ do name ← uwb_mode_name mode; some (replied s name)
    ]

  unfoldable pub set_mode : List ℕ → Option (Reply × State p.Flash)
  set_mode arg = elim (parse_mode arg) [
    | none ↦ some (refused s (neg 1))
    | some (mode, name) ↦ do
      (r, after) ← config_write_u8 p s ConfigField.mode mode
      some (if is_zero r then replied after name else refused after (neg 1))
  ]

  unfoldable pub cmd_config_mode : ℕ → List (List ℕ) → Option (Reply × State p.Flash)
  cmd_config_mode stack [] = show_mode stack
  cmd_config_mode stack (arg ∷ args) = set_mode arg

  -- `config address`, where `stack` is what the local `address` held
  unfoldable pub show_address : List ℕ → Option (Reply × State p.Flash)
  show_address stack = do
    (r, address) ← config_read_u8_array p s ConfigField.address 8 stack
    some (if is_zero r then replied s address else refused s (neg 4))

  -- The address is shown as it is read again, also if that fails.
  unfoldable pub write_address : List ℕ → List ℕ → Option (Reply × State p.Flash)
  write_address stack new_address = do
    (r, after) ← config_write_u8_array p s ConfigField.address 8 new_address
    elim (is_zero r) [
      | false ↦ some (refused after (neg 4))
      | true ↦ do
        (_, address) ← config_read_u8_array p after ConfigField.address 8 stack
        some (replied after address)
    ]

  unfoldable pub set_address : List ℕ → ℤ ⊎ List ℕ → Option (Reply × State p.Flash)
  set_address stack (inl code) = some (refused s code)
  set_address stack (inr bytes) = write_address stack bytes

  unfoldable pub cmd_config_address :
      (List ℕ → ℕ → Option ℕ) → List ℕ → List (List ℕ) → Option (Reply × State p.Flash)
  cmd_config_address shell_strtoul stack [] = show_address stack
  cmd_config_address shell_strtoul stack (arg ∷ args) =
      set_address stack (parse_address shell_strtoul arg)

  -- `config anchor_position`, where `x` and `y` are what the locals held; y is read if x is
  unfoldable pub show_position : ℕ → ℕ → Option (Reply × State p.Flash)
  show_position x0 y0 = do
    (r, x) ← config_read_u32 p s ConfigField.anchor_x_pos_mm x0
    elim (is_zero r) [
      | false ↦ some (refused s (neg 9))
      | true ↦ do
        (q, y) ← config_read_u32 p s ConfigField.anchor_y_pos_mm y0
        some (if is_zero q then replied s (x ∷ y ∷ []) else refused s (neg 9))
    ]

  -- The comparison of what was written with what is read again
  unfoldable pub check_position : State p.Flash → ℕ → ℕ → ℕ → ℕ → Option (Reply × State p.Flash)
  check_position after new_x new_y x0 y0 = do
    (r, old_x) ← config_read_u32 p after ConfigField.anchor_x_pos_mm x0
    elim (is_zero r) [
      | false ↦ some (refused after (neg 6))
      | true ↦ do
        (q, old_y) ← config_read_u32 p after ConfigField.anchor_y_pos_mm y0
        some (
            if not (is_zero q)
            then refused after (neg 7)
            else if (old_x == new_x) && (old_y == new_y)
            then replied after (new_x ∷ new_y ∷ [])
            else refused after (neg 8))
    ]

  unfoldable pub write_position : ℕ → ℕ → ℕ → ℕ → Option (Reply × State p.Flash)
  write_position new_x new_y x0 y0 = do
    (r, s1) ← config_write_u32 p s ConfigField.anchor_x_pos_mm new_x
    elim (is_zero r) [
      | false ↦ some (refused s1 (neg 4))
      | true ↦ do
        (q, s2) ← config_write_u32 p s1 ConfigField.anchor_y_pos_mm new_y
        elim (is_zero q) [
          | false ↦ some (refused s2 (neg 5))
          | true ↦ check_position s2 new_x new_y x0 y0
        ]
    ]

  unfoldable pub set_position :
      (List ℕ → ℕ → Option ℕ) → List ℕ → List ℕ → ℕ → ℕ → Option (Reply × State p.Flash)
  set_position shell_strtoul arg_x arg_y x0 y0 = elim (shell_strtoul arg_x 10) [
    | none ↦ some (refused s (neg 2))
    | some x ↦ elim (shell_strtoul arg_y 10) [
      | none ↦ some (refused s (neg 3))
      | some y ↦ write_position (x % 2 ^ 32) (y % 2 ^ 32) x0 y0
    ]
  ]

  unfoldable pub cmd_config_anchor_position :
      (List ℕ → ℕ → Option ℕ) → ℕ → ℕ → List (List ℕ) → Option (Reply × State p.Flash)
  cmd_config_anchor_position shell_strtoul x0 y0 [] = show_position x0 y0
  cmd_config_anchor_position shell_strtoul x0 y0 (arg_x ∷ arg_y ∷ []) =
      set_position shell_strtoul arg_x arg_y x0 y0
  cmd_config_anchor_position shell_strtoul x0 y0 args = some (refused s (neg 1))
