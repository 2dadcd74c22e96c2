-- ===== src/Main/First.antt =====
-- The first start of a board.
use tdoa.Base.{ℕ, ◌≡◌, refl, true, false, some, [], ◌∷◌, pos, is_neg, same_bytes, le_bytes}
use tdoa.Config.Platform.{Platform, Durable}
use tdoa.Config.State.{config_nvs_id, magic, State, boot}
use tdoa.Config.Tlv.Store.{lookup}
use tdoa.Config.Save.Crc.{Sealed}
use tdoa.Config.Save.Write.{OnFlash}
use tdoa.Config.Init.Restart.{Restarts, mounted_fs}
use tdoa.Config.Init.First.{ReadsShort, config_init-FirstStart}
use tdoa.Uwb.Radio.{Radio}
use tdoa.Uwb.Device.{Driver}
use tdoa.Uwb.Core.{core_boot}
use tdoa.Uwb.Core.Settings.{uwb_init_unconfigured}
use tdoa.Uwb.Loop.{Loop, as_dummy, init, uwb_start}
use tdoa.Cli.Saving.{Accepts}
use tdoa.Main.{main}
use tdoa.Main.Boot.{main_run}

module _ (p : Platform) (d : Durable p) (restarts : Restarts p) (short : ReadsShort p)
    (accepts : Accepts p) (flash : p.Flash)
    (absent : is_neg (p.nvs_read (mounted_fs p restarts) flash config_nvs_id 4).0 ≡ true)
    (a b c e : ℕ) (no_magic : same_bytes (a ∷ b ∷ []) (le_bytes 2 magic) ≡ false) where
  -- A new board, whose flash holds no configuration and whose NVS mounts and takes the writes: if
  -- the driver starts, and the int that `flash_init` writes without setting it does not begin with
  -- the magic, then `main` returns 0 and runs the dummy algorithm, and an empty configuration
  -- stands under its checksum in memory and on flash.
  pub main_first :
      (radio : Radio) (driver : Driver)
      → driver.openspi ≡ pos 0
      → driver.initialised ≡ pos 0
      → (after : State p.Flash) × (loop : Loop) × (main p driver radio
            (a ∷ b ∷ c ∷ e ∷ [])
            (boot flash)
            core_boot
          ≡ some (pos 0, after, some loop))
        × (loop.running ≡ as_dummy)
        × Sealed p after []
        × OnFlash p after
  unfolding uwb_start init lookup
  main_first radio driver opened initialised =
      let first = config_init-FirstStart p d restarts short accepts flash absent a b c e no_magic in
      let ready =
        uwb_init_unconfigured p first.after [] first.is_sealed.holds driver opened initialised refl
          refl in
      (
        first.after,
        _,
        main_run p driver radio (a ∷ b ∷ c ∷ e ∷ []) (boot flash) core_boot first.returns ready,
        refl,
        first.is_sealed,
        first.on_flash,
      )
