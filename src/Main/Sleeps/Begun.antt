-- ===== src/Main/Sleeps/Begun.antt =====
-- A new board that gets its mode from the shell while `main` waits for its first write to flash.
use tdoa.Base.{
  ℕ, ◌≡◌, refl, true, false, some, List, [], ◌∷◌, arith, replicate, pos, is_neg, same_bytes,
  le_bytes,
}
use tdoa.Config.Platform.{Platform, Durable}
use tdoa.Config.State.{config_nvs_id, magic, ConfigField, field_code, State, boot}
use tdoa.Config.Tlv.Store.{lookup, upsert}
use tdoa.Config.Save.Begun.{end_write}
use tdoa.Config.Save.Crc.{Sealed}
use tdoa.Config.Save.Write.{OnFlash}
use tdoa.Config.Init.Restart.{Restarts, mounted_fs}
use tdoa.Config.Init.First.{ReadsShort}
use tdoa.Config.Init.Sleeps.{Others, in_main, config_init_with}
use tdoa.Config.Init.Begun.{begins_write, config_init_with_begun}
use tdoa.Uwb.Types.{UwbConfig, mode_anchor}
use tdoa.Uwb.Radio.{Radio, IsSound}
use tdoa.Uwb.Device.{Driver}
use tdoa.Uwb.Core.{Core, core_boot, anchor_algorithm, uwb_init}
use tdoa.Uwb.Core.Settings.{set_up}
use tdoa.Uwb.Core.Unplaced.{uwb_init_unplaced}
use tdoa.Uwb.Anchor.{anchor_init}
use tdoa.Uwb.Loop.{Wake, Loop, as_anchor, anchor_boot, init, uwb_start, uwb_loop}
use tdoa.Uwb.Loop.Safe.{IsReady, uwb_loop-uwb_start}
use tdoa.Cli.Saving.{Accepts}
use tdoa.Main.Sleeps.{main_with}

-- What an anchor that knows its mode only is configured with.
abbrev pub unplaced : UwbConfig
unplaced = record {
  mode = mode_anchor;
  address = replicate 8 0;
  anchor_x_pos_mm = 0;
  anchor_y_pos_mm = 0;
}

module _ (p : Platform) where
  main_with_run :
      (others : Others p) (driver : Driver) (radio : Radio) (dummy : List ℕ) (s t : State p.Flash)
      (core c1 : Core)
      → others in_main s ≡ some s
      → config_init_with p others dummy s ≡ some (pos 0, t)
      → uwb_init p t driver core ≡ some (pos 0, c1)
      → main_with p others driver radio dummy s core ≡ some (pos 0, t, some (uwb_start radio c1))
  unfolding main_with
  main_with_run others driver radio dummy s t core c1 a b c = ground arith

module _ (p : Platform) (d : Durable p) (restarts : Restarts p) (short : ReadsShort p)
    (accepts : Accepts p) (flash : p.Flash)
    (absent : is_neg (p.nvs_read (mounted_fs p restarts) flash config_nvs_id 4).0 ≡ true)
    (a b c e : ℕ) (no_magic : same_bytes (a ∷ b ∷ []) (le_bytes 2 magic) ≡ false) where
  -- On a new board, whose flash holds no configuration, the shell begins to write the mode of an
  -- anchor while `main` sleeps in `write_defaults`. If the NVS mounts and takes the writes, the int
  -- that `flash_init` writes does not begin with the magic, and the driver starts and is sound,
  -- then `main`, which wakes up before the shell does, returns 0 and runs the anchor's algorithm in
  -- that same start, with an address of zeros and at the origin; the rest of the write then returns
  -- 0, the mode is the one entry, in memory and on flash; and whatever wakes the thread, no access
  -- leaves an object and the settings stay.
  pub main_with_begun :
      (radio : Radio) (ok : IsSound radio) (driver : Driver) (ws : List Wake)
      → driver.openspi ≡ pos 0
      → driver.initialised ≡ pos 0
      → let value = le_bytes 1 mode_anchor in
        (after : State p.Flash) × (loop : Loop) × (main_with p
            (begins_write p ConfigField.mode 1 value)
            driver
            radio
            (a ∷ b ∷ c ∷ e ∷ [])
            (boot flash)
            core_boot
          ≡ some (pos 0, after, some loop))
        × (end_write p after ≡ some (pos 0, after))
        × Sealed p after ((field_code ConfigField.mode, value) ∷ [])
        × OnFlash p after
        × (loop.running ≡ as_anchor (record anchor_boot { config = unplaced }))
        × (last : Loop) × (uwb_loop radio loop ws ≡ some last)
        × IsReady unplaced last.running
  unfolding begins_write field_code lookup upsert uwb_start init anchor_init
  main_with_begun radio ok driver ws opened initialised =
      let value = le_bytes 1 mode_anchor in
      let others = begins_write p ConfigField.mode 1 value in
      let (t, inits, ends, sealed, on) =
        config_init_with_begun p d restarts short accepts flash absent a b c e no_magic
          ConfigField.mode 1 value (omega arith) (omega arith) in
      let es = (field_code ConfigField.mode, value) ∷ [] in
      let started : Core = record (set_up p t es sealed.holds driver opened initialised core_boot) {
        algorithm = anchor_algorithm;
        uwb_config = unplaced;
      } in
      let ready =
        uwb_init_unplaced p t es sealed.holds driver opened initialised (omega arith) refl refl refl
          refl in
      let (last, runs, k) = uwb_loop-uwb_start radio ok started ws refl in
      (
        t,
        uwb_start radio started,
        main_with_run p others driver radio (a ∷ b ∷ c ∷ e ∷ []) (boot flash) t core_boot started
            refl inits ready,
        ends,
        sealed,
        on,
        refl,
        last,
        runs,
        k,
      )
