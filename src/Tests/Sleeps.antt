-- ===== src/Tests/Sleeps.antt =====
-- A board that the shell reaches while `main` sleeps.
use tdoa.Base.{ℕ, ◌≡◌, refl, none, some, inr, Option, List, [], ◌∷◌, pos, same_bytes}
use tdoa.Config.State.{ConfigField, field_code, State, boot}
use tdoa.Config.Init.{ensure_entry, flash_init}
use tdoa.Config.Init.Sleeps.{Sleep, in_main, in_flash_init, in_config_init, in_write_defaults}
use tdoa.Config.Save.Crc.{Sealed}
use tdoa.Config.Save.Write.{OnFlash}
use tdoa.Uwb.Core.{core_boot}
use tdoa.Uwb.Loop.{Loop, as_anchor, anchor_boot, uwb_loop}
use tdoa.Uwb.Loop.Safe.{IsReady}
use tdoa.Cli.{anchor_name}
use tdoa.Cli.Shell.{mode_name, Line}
use tdoa.Main.Sleeps.{shell_during, main_with}
use tdoa.Main.Sleeps.Early.{main_with_early}
use tdoa.Main.Sleeps.Begun.{unplaced, main_with_begun}
use tdoa.Config.Init.Begun.{begins_write}
use tdoa.Config.Save.Begun.{end_write}
use tdoa.Tests.Ram.{ram, ram-Durable}
use tdoa.Tests.Anchor.{fixed, fixed-IsSound, settings}
use tdoa.Tests.Boot.{working, wakes}
use tdoa.Tests.Commands.{eight_parts}
use tdoa.Tests.Provision.{
  ram-Restarts, ram-ReadsShort, shell, shell-IsZephyr, locals, digits_x, digits_y, settings-Spells,
}

abbrev unset : List ℕ
unset = 1 ∷ 2 ∷ 3 ∷ 4 ∷ []

abbrev mode_line : Line ram
mode_line = record { locals = locals; name = mode_name; args = anchor_name ∷ [] }

abbrev mode_too_early : Sleep → List (Line ram)
mode_too_early in_main = []
mode_too_early in_flash_init = []
mode_too_early in_config_init = mode_line ∷ []
mode_too_early in_write_defaults = []

main_with_early_example :
    main_with ram (shell_during ram shell mode_too_early) working fixed unset (boot none) core_boot
    ≡ none
unfolding flash_init ensure_entry boot
main_with_early_example =
    main_with_early ram shell shell-IsZephyr mode_too_early locals settings anchor_name eight_parts
      digits_x digits_y 0 mode_line [] settings-Spells refl working fixed unset none core_boot
      (inr (refl, refl, refl, refl))

main_with_begun_example :
    (after : State (Option (List ℕ))) × (loop : Loop) × (main_with ram
        (begins_write ram ConfigField.mode 1 (1 ∷ []))
        working
        fixed
        unset
        (boot none)
        core_boot
      ≡ some (pos 0, after, some loop))
    × (end_write ram after ≡ some (pos 0, after))
    × Sealed ram after ((field_code ConfigField.mode, 1 ∷ []) ∷ [])
    × OnFlash ram after
    × (loop.running ≡ as_anchor (record anchor_boot { config = unplaced }))
    × (last : Loop) × (uwb_loop fixed loop wakes ≡ some last)
    × IsReady unplaced last.running
unfolding same_bytes
main_with_begun_example =
    main_with_begun ram ram-Durable ram-Restarts ram-ReadsShort (λ _ _ _. refl) none refl 1 2 3 4
      refl fixed fixed-IsSound working wakes refl refl
