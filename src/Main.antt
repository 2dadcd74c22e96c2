-- ===== src/Main.antt =====
-- src/main.c, in `Sleeps` with its first second of sleep.
pub mod Boot
pub mod Provision
pub mod First
pub mod Sleeps
pub mod Total
use tdoa.Base.{ℕ, true, false, Option, none, some, List, ◌>>=◌, ℤ, pos, neg, is_zero}
use tdoa.Config.Platform.{Platform}
use tdoa.Config.State.{State}
use tdoa.Config.Init.{config_init}
use tdoa.Uwb.Radio.{Radio}
use tdoa.Uwb.Device.{Driver}
use tdoa.Uwb.Core.{Core, uwb_init}
use tdoa.Uwb.Loop.{Loop, uwb_start}

module _ (p : Platform) (driver : Driver) (radio : Radio) where
  -- The store and the thread after `main`, if it came to that.
  unfoldable pub main : List ℕ → State p.Flash → Core → Option (ℤ × State p.Flash × Option Loop)
  main dummy s core = do
    (r, s1) ← config_init p dummy s
    elim (is_zero r) [
      | false ↦ some (neg 1, s1, none)
      | true ↦ do
        (q, c1) ← uwb_init p s1 driver core
        elim (is_zero q) [
          | false ↦ some (neg 2, s1, none)
          | true ↦ some (pos 0, s1, some (uwb_start radio c1))
        ]
    ]
