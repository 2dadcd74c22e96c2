-- ===== src/Cli/Shell/Arguments.antt =====
-- Which lines of the shell reach a command.
use tdoa.Base.{
  ℕ, suc, ◌+◌, ◌≡◌, refl, ap, ◌∙◌, true, false, some, Option, List, [], ◌∷◌, ◌&&◌, leb, same_bytes,
  arith, neg, length, if◌then◌else◌,
}
use tdoa.Config.Platform.{Platform}
use tdoa.Config.State.{State}
use tdoa.Cli.{Reply, cmd_config_mode, cmd_config_address, cmd_config_anchor_position}
use tdoa.Cli.Shell.{
  Locals, mode_name, address_name, anchor_position_name, ShellCommand, config_sub, Shell, IsZephyr,
  Line, refused_line, call_command, run_line,
}

leb_counted : (n k : ℕ) → (leb 1 (suc n) && leb (suc n) (1 + k)) ≡ leb n k
leb_counted n k = ground arith

module _ (p : Platform) (shell : Shell p) (zephyr : IsZephyr p shell) where
  find_skip :
      (c : ShellCommand p) (cs : List (ShellCommand p)) (name : List ℕ)
      → same_bytes name c.syntax ≡ false
      → shell.find (c ∷ cs) name ≡ shell.find cs name
  find_skip c cs name e =
      zephyr.find_first c cs name ∙ ap (λ b. if b then some c else shell.find cs name) e

  find_hit :
      (c : ShellCommand p) (cs : List (ShellCommand p)) (name : List ℕ)
      → same_bytes name c.syntax ≡ true
      → shell.find (c ∷ cs) name ≡ some c
  find_hit c cs name e =
      zephyr.find_first c cs name ∙ ap (λ b. if b then some c else shell.find cs name) e

  module _ (s : State p.Flash) (line : Line p) (c : ShellCommand p)
      (found : shell.find (config_sub p shell.shell_strtoul) line.name ≡ some c) where
    -- A command whose name is its only mandatory argument
    run_line_found :
        c.mandatory ≡ 1
        → run_line p shell s line ≡ (
            if leb (length line.args) c.optional
            then c.handler line.locals s line.args
            else some (refused_line p shell s))
    unfolding run_line call_command
    run_line_found one =
        let accepted : shell.accepts c.mandatory c.optional (suc (length line.args))
            ≡ leb (length line.args) c.optional =
          zephyr.accepts_counted c.mandatory c.optional (suc (length line.args)) (omega arith)
          ∙ ap
              (λ m. leb m (suc (length line.args)) && leb (suc (length line.args)) (m + c.optional))
              one
          ∙ leb_counted (length line.args) c.optional in
        rw found (rw accepted refl)

  module _ (s : State p.Flash) (locals : Locals) (args : List (List ℕ)) where
    pub run_line_mode :
        run_line p shell s (record { locals = locals; name = mode_name; args = args }) ≡ (
          if leb (length args) 1
          then cmd_config_mode p s locals.mode args
          else some (refused_line p shell s))
    unfolding same_bytes
    run_line_mode =
        run_line_found s _ _
          (find_skip _ _ _ refl ∙ find_skip _ _ _ refl ∙ find_skip _ _ _ refl ∙ find_hit _ _ _ refl)
          refl

    pub run_line_address :
        run_line p shell s (record { locals = locals; name = address_name; args = args }) ≡ (
          if leb (length args) 1
          then cmd_config_address p s shell.shell_strtoul locals.address args
          else some (refused_line p shell s))
    unfolding same_bytes
    run_line_address =
        run_line_found s _ _
          (find_skip _ _ _ refl
            ∙ find_skip _ _ _ refl
            ∙ find_skip _ _ _ refl
            ∙ find_skip _ _ _ refl
            ∙ find_hit _ _ _ refl)
          refl

    pub run_line_anchor_position :
        run_line p shell s (record { locals = locals; name = anchor_position_name; args = args })
        ≡ (if leb (length args) 2
            then cmd_config_anchor_position p s shell.shell_strtoul locals.x locals.y args
            else some (refused_line p shell s))
    unfolding same_bytes
    run_line_anchor_position =
        run_line_found s _ _
          (find_skip _ _ _ refl
            ∙ find_skip _ _ _ refl
            ∙ find_skip _ _ _ refl
            ∙ find_skip _ _ _ refl
            ∙ find_skip _ _ _ refl
            ∙ find_hit _ _ _ refl)
          refl

  -- A line with more arguments than `config mode`, `config address` or `config anchor_position`
  -- takes is refused by the shell, and a position of one number by the command itself with -1;
  -- the store stays as it was.
  pub run_line_refuses :
      (s : State p.Flash) (locals : Locals) (a b c : List ℕ) (more : List (List ℕ))
      → let run : List ℕ → List (List ℕ) → Option (Reply × State p.Flash) =
          λ name args. run_line p shell s (record { locals = locals; name = name; args = args }) in
        (run mode_name (a ∷ b ∷ more) ≡ some (refused_line p shell s))
        × (run address_name (a ∷ b ∷ more) ≡ some (refused_line p shell s))
        × (run anchor_position_name (a ∷ b ∷ c ∷ more) ≡ some (refused_line p shell s))
        × (run anchor_position_name (a ∷ []) ≡ some (record { code = neg 1; shown = [] }, s))
  unfolding cmd_config_anchor_position
  run_line_refuses s locals a b c more = (
    run_line_mode s locals (a ∷ b ∷ more) ∙ ground arith,
    run_line_address s locals (a ∷ b ∷ more) ∙ ground arith,
    run_line_anchor_position s locals (a ∷ b ∷ c ∷ more) ∙ ground arith,
    run_line_anchor_position s locals (a ∷ []),
  )
