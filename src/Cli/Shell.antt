-- ===== src/Cli/Shell.antt =====
-- The table of the commands at the end of src/cli.c. Zephyr's shell, which looks a word up in the
-- table and checks the number of the arguments, is a parameter.
pub mod Arguments
pub mod Session
use tdoa.Base.{
  ℕ, suc, ◌+◌, ◌<◌, ◌≡◌, Bool, true, ◌&&◌, Option, none, some, List, [], ◌∷◌, if◌then◌else◌, leb,
  length, same_bytes, ◌>>=◌, ℤ,
}
use tdoa.Config.Platform.{Platform}
use tdoa.Config.State.{State}
use tdoa.Cli.{
  Reply, cmd_config_dump, cmd_config_print, cmd_config_erase, cmd_config_mode, cmd_config_address,
  cmd_config_anchor_position,
}

-- What the local variables of a command hold as it starts.
pub record Locals : Type 0 where
  pub buffer : List ℕ
  pub mode : ℕ
  pub address : List ℕ
  pub x : ℕ
  pub y : ℕ

abbrev pub dump_name : List ℕ
dump_name = 100 ∷ 117 ∷ 109 ∷ 112 ∷ []

abbrev pub print_name : List ℕ
print_name = 112 ∷ 114 ∷ 105 ∷ 110 ∷ 116 ∷ []

abbrev pub erase_name : List ℕ
erase_name = 101 ∷ 114 ∷ 97 ∷ 115 ∷ 101 ∷ []

abbrev pub mode_name : List ℕ
mode_name = 109 ∷ 111 ∷ 100 ∷ 101 ∷ []

abbrev pub address_name : List ℕ
address_name = 97 ∷ 100 ∷ 100 ∷ 114 ∷ 101 ∷ 115 ∷ 115 ∷ []

abbrev pub anchor_position_name : List ℕ
anchor_position_name =
    97 ∷ 110 ∷ 99 ∷ 104 ∷ 111 ∷ 114 ∷ 95 ∷ 112 ∷ 111 ∷ 115 ∷ 105 ∷ 116 ∷ 105 ∷ 111 ∷ 110 ∷ []

module _ (p : Platform) where
  -- An entry of the table. `mandatory` counts the name of the command.
  pub record ShellCommand : Type 0 where
    pub syntax : List ℕ
    pub handler : Locals → State p.Flash → List (List ℕ) → Option (Reply × State p.Flash)
    pub mandatory : ℕ
    pub optional : ℕ

  -- SHELL_CMD is SHELL_CMD_ARG with 0 and 0.
  abbrev pub config_sub : (List ℕ → ℕ → Option ℕ) → List ShellCommand
  config_sub shell_strtoul =
      record {
        syntax = dump_name;
        handler = λ l s _. cmd_config_dump p s l.buffer;
        mandatory = 0;
        optional = 0;
      }
      ∷ record {
        syntax = print_name;
        handler = λ _ s _. some (cmd_config_print p s);
        mandatory = 0;
        optional = 0;
      }
      ∷ record {
        syntax = erase_name;
        handler = λ _ s _. some (cmd_config_erase p s);
        mandatory = 0;
        optional = 0;
      }
      ∷ record {
        syntax = mode_name;
        handler = λ l s args. cmd_config_mode p s l.mode args;
        mandatory = 1;
        optional = 1;
      }
      ∷ record {
        syntax = address_name;
        handler = λ l s args. cmd_config_address p s shell_strtoul l.address args;
        mandatory = 1;
        optional = 1;
      }
      ∷ record {
        syntax = anchor_position_name;
        handler = λ l s args. cmd_config_anchor_position p s shell_strtoul l.x l.y args;
        mandatory = 1;
        optional = 2;
      }
      ∷ []

  -- Zephyr's shell: the entry of a name, the check of the number of arguments, and what it returns
  -- itself when it calls no command.
  pub record Shell : Type 0 where
    pub shell_strtoul : List ℕ → ℕ → Option ℕ
    pub find : List ShellCommand → List ℕ → Option ShellCommand
    pub accepts : ℕ → ℕ → ℕ → Bool
    pub not_called : ℤ

  -- Its documentation: the first entry of the name is called, with `argc` from the mandatory
  -- arguments to all of them; without mandatory arguments nothing is checked.
  pub record IsZephyr (shell : Shell) : Type 0 where
    pub find_none : (name : List ℕ) → shell.find [] name ≡ none
    pub find_first :
        (c : ShellCommand) (cs : List ShellCommand) (name : List ℕ)
        → shell.find (c ∷ cs) name
          ≡ (if same_bytes name c.syntax then some c else shell.find cs name)
    pub accepts_all : (optional argc : ℕ) → shell.accepts 0 optional argc ≡ true
    pub accepts_counted :
        (mandatory optional argc : ℕ)
        → 0 < mandatory
        → shell.accepts mandatory optional argc
          ≡ (leb mandatory argc && leb argc (mandatory + optional))

  -- `config name args...`
  pub record Line : Type 0 where
    pub locals : Locals
    pub name : List ℕ
    pub args : List (List ℕ)

  module _ (shell : Shell) where
    abbrev pub refused_line : State p.Flash → Reply × State p.Flash
    refused_line s = (record { code = shell.not_called; shown = [] }, s)

    unfoldable pub call_command :
        State p.Flash → Line → Option ShellCommand → Option (Reply × State p.Flash)
    call_command s line none = some (refused_line s)
    call_command s line (some c) =
        if shell.accepts c.mandatory c.optional (suc (length line.args))
        then c.handler line.locals s line.args
        else some (refused_line s)

    unfoldable pub run_line : State p.Flash → Line → Option (Reply × State p.Flash)
    unfolding call_command
    run_line s line = call_command s line (shell.find (config_sub shell.shell_strtoul) line.name)

    unfoldable pub run_lines : State p.Flash → List Line → Option (List Reply × State p.Flash)
    run_lines s [] = some ([], s)
    run_lines s (line ∷ lines) = do
      (reply, s1) ← run_line s line
      (replies, s2) ← run_lines s1 lines
      some (reply ∷ replies, s2)
