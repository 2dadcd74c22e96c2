-- ===== src/Tests/Commands.antt =====
-- The commands of the shell, over the flash of the other tests.
use tdoa.Base.{
  same_bytes, ℕ, ◌+◌, ◌-◌, ◌*◌, ◌≡◌, refl, some, inr, Option, List, [], ◌∷◌, arith, replicate,
  length, take, drop, pos, le_bytes,
}
use tdoa.Config.State.{ConfigField, field_code, State}
use tdoa.Config.Tlv.Store.{upsert}
use tdoa.Config.Tlv.Encoded.{Holds}
use tdoa.Config.Save.Crc.{Sealed}
use tdoa.Config.Save.Write.{OnFlash}
use tdoa.Uwb.Types.{mode_anchor}
use tdoa.Cli.{
  Reply, anchor_name, parse_mode, parse_address, tokens_from, end_token, is_delimiter, check_length,
  parse_bytes, read_byte, keep_byte, cmd_config_mode, cmd_config_address,
  cmd_config_anchor_position, cmd_config_erase,
}
use tdoa.Cli.Erase.{erased, cmd_config_erase-undone}
use tdoa.Cli.Position.{placed, cmd_config_anchor_position-set}
use tdoa.Cli.Address.{cmd_config_address-set}
use tdoa.Cli.Address.Parse.{SpellBytes, none_left, next_byte, parse_address_ignores_rest}
use tdoa.Tests.Ram.{ram, ram-Durable, entries, sample, sample-Holds}
use tdoa.Tests.Anchor.{settings}

-- A reading of digits in any base.
abbrev digits_from : ℕ → List ℕ → ℕ → ℕ
digits_from value [] base = value
digits_from value (c ∷ cs) base = digits_from (value * base + (c - 48)) cs base

abbrev pub strtoul : List ℕ → ℕ → Option ℕ
strtoul token base = some (digits_from 0 token base)

cmd_config_anchor_position-set_example :
    let reply : Reply = record { code = pos 0; shown = 12 ∷ 345 ∷ [] } in
    (after : State (Option (List ℕ))) × (cmd_config_anchor_position ram sample strtoul 5 5
        ((49 ∷ 50 ∷ []) ∷ (51 ∷ 52 ∷ 53 ∷ []) ∷ [])
      ≡ some (reply, after))
    × Sealed ram after (
        placed ram ram-Durable
          (λ _ _ _. refl)
          sample
          entries
          sample-Holds
          12
          345
          (omega arith)
          (omega arith)
          (omega arith))
    × OnFlash ram after
    × (after.fs ≡ sample.fs)
    × (cmd_config_anchor_position ram after strtoul 6 6 [] ≡ some (reply, after))
cmd_config_anchor_position-set_example =
    cmd_config_anchor_position-set ram ram-Durable (λ _ _ _. refl) sample entries sample-Holds 12
      345 (omega arith) (omega arith) (omega arith) strtoul (49 ∷ 50 ∷ []) (51 ∷ 52 ∷ 53 ∷ []) 5 5 6
      6 refl refl

-- "1:2:3:4:5:6:7:8", and the same with a ninth part
abbrev pub eight_parts : List ℕ
eight_parts = 49 ∷ 58 ∷ 50 ∷ 58 ∷ 51 ∷ 58 ∷ 52 ∷ 58 ∷ 53 ∷ 58 ∷ 54 ∷ 58 ∷ 55 ∷ 58 ∷ 56 ∷ []

abbrev nine_parts : List ℕ
nine_parts = 49 ∷ 58 ∷ 50 ∷ 58 ∷ 51 ∷ 58 ∷ 52 ∷ 58 ∷ 53 ∷ 58 ∷ 54 ∷ 58 ∷ 55 ∷ 58 ∷ 56 ∷ 58 ∷ 57 ∷ []

cmd_config_address-set_example :
    let reply : Reply = record { code = pos 0; shown = settings.address } in
    (length settings.address ≡ 8)
    × (after : State (Option (List ℕ))) × (cmd_config_address ram sample strtoul
          (replicate 8 3)
          (eight_parts ∷ [])
        ≡ some (reply, after))
    × Sealed ram after (upsert (field_code ConfigField.address) settings.address entries)
    × OnFlash ram after
    × (after.fs ≡ sample.fs)
    × (cmd_config_address ram after strtoul (replicate 8 4) [] ≡ some (reply, after))
unfolding parse_address tokens_from check_length parse_bytes is_delimiter end_token read_byte
    keep_byte
cmd_config_address-set_example =
    cmd_config_address-set ram ram-Durable (λ _ _ _. refl) sample entries sample-Holds strtoul
      eight_parts (replicate 8 3) (replicate 8 4) settings.address [] refl refl refl (omega arith)

abbrev nine_tokens : List (List ℕ)
nine_tokens =
    (49 ∷ [])
    ∷ (50 ∷ [])
    ∷ (51 ∷ [])
    ∷ (52 ∷ [])
    ∷ (53 ∷ [])
    ∷ (54 ∷ [])
    ∷ (55 ∷ [])
    ∷ (56 ∷ [])
    ∷ (57 ∷ [])
    ∷ []

SpellBytes-eight : SpellBytes strtoul (take 8 nine_tokens) settings.address
SpellBytes-eight = next_byte refl (omega arith) (
    next_byte refl (omega arith) (
      next_byte refl (omega arith) (
        next_byte refl (omega arith) (
          next_byte refl (omega arith) (
            next_byte refl (omega arith)
              (next_byte refl (omega arith) (next_byte refl (omega arith) none_left)))))))

parse_address_ignores_rest_example : parse_address strtoul nine_parts ≡ inr settings.address
unfolding tokens_from is_delimiter end_token
parse_address_ignores_rest_example =
    parse_address_ignores_rest strtoul nine_parts settings.address (take 8 nine_tokens)
      (drop 8 nine_tokens) refl SpellBytes-eight refl

cmd_config_erase-undone_example :
    (cmd_config_erase ram sample ≡ (record { code = pos 0; shown = [] }, erased ram sample))
    × Holds (erased ram sample) entries
    × (after : State (Option (List ℕ))) × (cmd_config_mode ram
          (erased ram sample)
          9
          ((49 ∷ []) ∷ [])
        ≡ some (record { code = pos 0; shown = anchor_name }, after))
    × Sealed ram after (upsert (field_code ConfigField.mode) (le_bytes 1 mode_anchor) entries)
    × OnFlash ram after
unfolding parse_mode same_bytes
cmd_config_erase-undone_example =
    cmd_config_erase-undone ram sample ram-Durable (λ _ _ _. refl) entries 9 mode_anchor (49 ∷ [])
      anchor_name sample-Holds refl (omega arith)
