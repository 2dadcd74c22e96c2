-- ===== src/Main/Sleeps/Early.antt =====
-- A start while which the shell gets a command too early.
use tdoa.Base.{
  arith, ℕ, ◌≡◌, ◌≢◌, ◌⊎◌, inl, inr, refl, ◌∙◌, none, some, List, [], ◌∷◌, get_elem?, pos,
}
use tdoa.Config.Platform.{Platform}
use tdoa.Config.State.{State, boot, tlv_length}
use tdoa.Config.Init.{flash_init}
use tdoa.Config.Init.Sleeps.{
  Sleep, Others, in_main, in_flash_init, in_config_init, in_write_defaults, load_config_with,
  config_init_with,
}
use tdoa.Config.Init.Quiet.{flash_init_with_quiet}
use tdoa.Config.Init.Reboot.{buffer-flash_init, tlv-flash_init}
use tdoa.Uwb.Types.{UwbConfig}
use tdoa.Uwb.Radio.{Radio}
use tdoa.Uwb.Device.{Driver}
use tdoa.Uwb.Core.{Core}
use tdoa.Cli.Early.{IsEarly, anchor_session_early}
use tdoa.Cli.Shell.{Locals, Shell, IsZephyr, Line, run_line, run_lines}
use tdoa.Cli.Shell.Session.{anchor_session, Spells}
use tdoa.Main.Sleeps.{shell_during, main_with}

module _ (p : Platform) where
  boot-IsEarly : (flash : p.Flash) → IsEarly (boot flash)
  unfolding boot tlv_length
  boot-IsEarly flash = record { no_data = refl; no_length = refl }

  flash_init-IsEarly :
      (dummy : List ℕ) (s : State p.Flash) → IsEarly s → IsEarly (flash_init p dummy s).1
  unfolding tlv_length
  flash_init-IsEarly dummy s early = record {
    no_data = tlv-flash_init p dummy s ∙ early.no_data;
    no_length = rw (buffer-flash_init p dummy s) early.no_length;
  }

  module _ (shell : Shell p) (lines : Sleep → List (Line p)) where
    shell_during_faults :
        (sleep : Sleep) (s : State p.Flash) {line : Line p} {more : List (Line p)}
        → sleep ≢ in_write_defaults
        → lines sleep ≡ line ∷ more
        → run_line p shell s line ≡ none
        → shell_during p shell lines sleep s ≡ none
    unfolding shell_during run_lines
    shell_during_faults in_main s before e f = rw e (rw f refl)
    shell_during_faults in_flash_init s before e f = rw e (rw f refl)
    shell_during_faults in_config_init s before e f = rw e (rw f refl)
    shell_during_faults in_write_defaults s before e f = absurd (before refl)

    shell_during_nothing :
        (sleep : Sleep) (s : State p.Flash)
        → lines sleep ≡ []
        → shell_during p shell lines sleep s ≡ some s
    unfolding shell_during run_lines
    shell_during_nothing in_main s e = rw e refl
    shell_during_nothing in_flash_init s e = rw e refl
    shell_during_nothing in_config_init s e = rw e refl
    shell_during_nothing in_write_defaults s e = refl

  config_init_with_faults :
      (others : Others p) (dummy : List ℕ) (s : State p.Flash)
      → ((u : State p.Flash) → others in_flash_init u ≡ some u)
      → (flash_init p dummy s).0 ≡ pos 0
      → others in_config_init (flash_init p dummy s).1 ≡ none
      → config_init_with p others dummy s ≡ none
  unfolding config_init_with load_config_with
  config_init_with_faults others dummy s still ok f =
      let e = flash_init_with_quiet p others still dummy s in ground arith

  main_with_faults :
      (others : Others p) (driver : Driver) (radio : Radio) (dummy : List ℕ) (s : State p.Flash)
      (core : Core)
      → others in_main s ≡ some s
      → config_init_with p others dummy s ≡ none
      → main_with p others driver radio dummy s core ≡ none
  unfolding main_with
  main_with_faults others driver radio dummy s core e f = rw e (rw f refl)

  module _ (shell : Shell p) (zephyr : IsZephyr p shell) (lines : Sleep → List (Line p))
      (l : Locals) (c : UwbConfig) (mode address x y : List ℕ) (i : ℕ) (line : Line p)
      (more : List (Line p)) (w : Spells p shell c mode address x y)
      (chosen : get_elem? (anchor_session p shell l mode address x y) i ≡ some line) where
    -- With a shell that finds and checks commands as documented, a start is left by an access
    -- through the null pointer if the shell gets one of the lines that make a board an anchor too
    -- early: first of all in the second that `main` sleeps, or, if `flash_init` succeeds, as the
    -- first line of all in the sleep of `config_init`.
    pub main_with_early :
        (driver : Driver) (radio : Radio) (dummy : List ℕ) (flash : p.Flash) (core : Core)
        → (lines in_main ≡ line ∷ more)
          ⊎ ((lines in_main ≡ [])
              × (lines in_flash_init ≡ [])
              × (lines in_config_init ≡ line ∷ more)
              × ((flash_init p dummy (boot flash)).0 ≡ pos 0))
        → main_with p (shell_during p shell lines) driver radio dummy (boot flash) core ≡ none
    unfolding main_with
    main_with_early driver radio dummy flash core (inl first) =
        let faults =
          shell_during_faults shell lines in_main (boot flash) (λ q. cc) first
            (anchor_session_early p (boot flash) (boot-IsEarly flash) shell zephyr l c mode address
              x y i w chosen) in
        rw faults refl
    main_with_early driver radio dummy flash core (inr (none_main, none_flash, first, ok)) =
        let s1 = (flash_init p dummy (boot flash)).1 in
        let early = flash_init-IsEarly dummy (boot flash) (boot-IsEarly flash) in
        let faults =
          shell_during_faults shell lines in_config_init s1 (λ q. cc) first
            (anchor_session_early p s1 early shell zephyr l c mode address x y i w chosen) in
        main_with_faults (shell_during p shell lines) driver radio dummy (boot flash) core
          (shell_during_nothing shell lines in_main (boot flash) none_main)
          (config_init_with_faults (shell_during p shell lines) dummy (boot flash)
            (λ u. shell_during_nothing shell lines in_flash_init u none_flash) ok faults)
