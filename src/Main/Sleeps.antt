-- ===== src/Main/Sleeps.antt =====
-- src/main.c with its sleep of a second and those of `config_init`, while which the shell runs.
pub mod Quiet
pub mod Early
pub mod Begun
use tdoa.Base.{true, false, ℕ, Option, none, some, List, ◌>>=◌, ℤ, pos, neg, is_zero}
use tdoa.Config.Platform.{Platform}
use tdoa.Config.State.{State}
use tdoa.Config.Init.Sleeps.{
  Sleep, Others, in_main, in_flash_init, in_config_init, in_write_defaults, config_init_with,
}
use tdoa.Uwb.Radio.{Radio}
use tdoa.Uwb.Device.{Driver}
use tdoa.Uwb.Core.{Core, uwb_init}
use tdoa.Uwb.Loop.{Loop, uwb_start}
use tdoa.Cli.Shell.{Shell, Line, run_lines}

-- The lines that the shell gets in the sleeps before `tlv.data` is set. There a write leaves through
-- the null pointer or is refused, both before its own sleep, so the run of a line ends in the sleep
-- in which it begins. In the sleep of `write_defaults`, where a write would sleep, it gets none.
unfoldable pub shell_during : (p : Platform) → Shell p → (Sleep → List (Line p)) → Others p
shell_during p shell lines in_main s = do
  (_, after) ← run_lines p shell s (lines in_main)
  some after
shell_during p shell lines in_flash_init s = do
  (_, after) ← run_lines p shell s (lines in_flash_init)
  some after
shell_during p shell lines in_config_init s = do
  (_, after) ← run_lines p shell s (lines in_config_init)
  some after
shell_during p shell lines in_write_defaults s = some s

module _ (p : Platform) (others : Others p) (driver : Driver) (radio : Radio) where
  unfoldable pub main_with :
      List ℕ → State p.Flash → Core → Option (ℤ × State p.Flash × Option Loop)
  main_with dummy s core = do
    slept ← others in_main s
    (r, s1) ← config_init_with p others dummy slept
    elim (is_zero r) [
      | false ↦ some (neg 1, s1, none)
      | true ↦ do
        (q, c1) ← uwb_init p s1 driver core
        elim (is_zero q) [
          | false ↦ some (neg 2, s1, none)
          | true ↦ some (pos 0, s1, some (uwb_start radio c1))
        ]
    ]
