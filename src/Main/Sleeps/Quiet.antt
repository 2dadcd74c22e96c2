-- ===== src/Main/Sleeps/Quiet.antt =====
-- A start while which nobody else runs.
use tdoa.Base.{refl, ℕ, ◌≡◌, List}
use tdoa.Config.Platform.{Platform}
use tdoa.Config.State.{State}
use tdoa.Config.Init.Quiet.{quiet, config_init_with-quiet}
use tdoa.Uwb.Radio.{Radio}
use tdoa.Uwb.Device.{Driver}
use tdoa.Uwb.Core.{Core}
use tdoa.Main.{main}
use tdoa.Main.Sleeps.{main_with}

module _ (p : Platform) (driver : Driver) (radio : Radio) where
  -- If the other threads leave the store alone while it sleeps then `main` does what it does
  -- without its sleeps.
  pub main_with-quiet :
      (dummy : List ℕ) (s : State p.Flash) (core : Core)
      → main_with p (quiet p) driver radio dummy s core ≡ main p driver radio dummy s core
  unfolding main_with main
  main_with-quiet dummy s core = rw (config_init_with-quiet p dummy s) refl
