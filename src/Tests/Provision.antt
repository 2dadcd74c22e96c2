-- ===== src/Tests/Provision.antt =====
-- A board that is configured through the shell, over the flash of the other tests.
use tdoa.Base.{
  ap, take_all, length, ℕ, ◌+◌, ◌≡◌, refl, true, ◌&&◌, ◌==◌, leb, same_bytes, none, some, Option,
  List, [], ◌∷◌, arith, replicate, pos, neg, if◌then◌else◌, Bool, is_neg, false,
}
use tdoa.Config.State.{State, boot}
use tdoa.Config.Init.Restart.{Restarts}
use tdoa.Uwb.Core.{core_boot}
use tdoa.Uwb.Loop.{Loop, as_dummy, as_anchor, anchor_boot, uwb_loop}
use tdoa.Uwb.Loop.Safe.{IsReady}
use tdoa.Cli.{
  anchor_name, parse_mode, parse_address, tokens_from, check_length, parse_bytes, is_delimiter,
  end_token, read_byte, keep_byte,
}
use tdoa.Cli.Shell.{Locals, ShellCommand, Shell, IsZephyr, run_lines}
use tdoa.Cli.Shell.Session.{anchor_session, anchor_replies, Spells}
use tdoa.Main.{main}
use tdoa.Config.Init.First.{ReadsShort}
use tdoa.Config.Save.Crc.{Sealed}
use tdoa.Config.Save.Write.{OnFlash}
use tdoa.Main.First.{main_first}
use tdoa.Main.Provision.{main_provisioned}
use tdoa.Tests.Ram.{ram, ram_read, ram-Durable, entries, sample, sample-Holds}
use tdoa.Tests.Anchor.{fixed, fixed-IsSound, settings}
use tdoa.Tests.Boot.{working, wakes}
use tdoa.Tests.Commands.{strtoul, eight_parts}

pub ram_read_found :
    (flash : Option (List ℕ)) (n m : ℕ) {bytes : List ℕ}
    → ram_read flash n ≡ (pos n, bytes)
    → is_neg (ram_read flash m).0 ≡ false
ram_read_found none n m e = cc
ram_read_found (some stored) n m e = refl

abbrev pub ram-Restarts : Restarts ram
ram-Restarts = record {
  page_size = 4096;
  ready = λ _. refl;
  paged = λ _. refl;
  mounts = λ _ _. refl;
  nvs_read-nvs_mount = λ _ _ _ _. refl;
  found = λ _ flash _ n m e. ram_read_found flash n m e;
}

abbrev first_entry : List (ShellCommand ram) → List ℕ → Option (ShellCommand ram)
first_entry [] name = none
first_entry (c ∷ cs) name = if same_bytes name c.syntax then some c else first_entry cs name

abbrev counted : ℕ → ℕ → ℕ → Bool
counted mandatory optional argc =
    if mandatory == 0 then true else leb mandatory argc && leb argc (mandatory + optional)

abbrev pub shell : Shell ram
shell = record {
  shell_strtoul = strtoul;
  find = first_entry;
  accepts = counted;
  not_called = neg 22;
}

pub shell-IsZephyr : IsZephyr ram shell
shell-IsZephyr = record {
  find_none = λ _. refl;
  find_first = λ _ _ _. refl;
  accepts_all = λ _ _. refl;
  accepts_counted = λ mandatory optional argc some_counted. ground arith;
}

abbrev pub locals : Locals
locals = record { buffer = replicate 128 7; mode = 9; address = replicate 8 3; x = 5; y = 6 }

-- "1500" and "70000"
abbrev pub digits_x : List ℕ
digits_x = 49 ∷ 53 ∷ 48 ∷ 48 ∷ []

abbrev pub digits_y : List ℕ
digits_y = 55 ∷ 48 ∷ 48 ∷ 48 ∷ 48 ∷ []

pub settings-Spells : Spells ram shell settings anchor_name eight_parts digits_x digits_y
unfolding parse_mode same_bytes parse_address tokens_from check_length parse_bytes is_delimiter
    end_token read_byte keep_byte
settings-Spells = record {
  spells_mode = refl;
  spells_address = refl;
  spells_x = refl;
  spells_y = refl;
  x-lt = omega arith;
  y-lt = omega arith;
}

main_provisioned_example :
    (t : State (Option (List ℕ))) × (run_lines ram shell sample
        (anchor_session ram shell locals anchor_name eight_parts digits_x digits_y)
      ≡ some (anchor_replies settings, t))
    × (after : State (Option (List ℕ))) × (loop : Loop) × (main ram working fixed
          (0 ∷ 0 ∷ 0 ∷ 0 ∷ [])
          (boot t.flash)
          core_boot
        ≡ some (pos 0, after, some loop))
    × (loop.running ≡ as_anchor (record anchor_boot { config = settings }))
    × (last : Loop) × (uwb_loop fixed loop wakes ≡ some last)
    × IsReady settings last.running
main_provisioned_example =
    main_provisioned ram ram-Durable (λ _ _ _. refl) ram-Restarts shell shell-IsZephyr fixed
      fixed-IsSound working refl refl sample entries locals settings anchor_name eight_parts
      digits_x digits_y (0 ∷ 0 ∷ 0 ∷ 0 ∷ []) wakes sample-Holds refl (omega arith) settings-Spells
      refl

pub ram-ReadsShort : ReadsShort ram
ram-ReadsShort =
    λ _ _ _ n bytes _ le. ap (λ (l : List ℕ). (pos (length l), l)) (take_all n bytes le)

main_first_example :
    (after : State (Option (List ℕ))) × (loop : Loop) × (main ram working fixed
        (1 ∷ 2 ∷ 3 ∷ 4 ∷ [])
        (boot none)
        core_boot
      ≡ some (pos 0, after, some loop))
    × (loop.running ≡ as_dummy)
    × Sealed ram after []
    × OnFlash ram after
unfolding same_bytes
main_first_example =
    main_first ram ram-Durable ram-Restarts ram-ReadsShort (λ _ _ _. refl) none refl 1 2 3 4 refl
      fixed working refl refl
