-- ===== src/Main/Boot.antt =====
-- A start of the firmware over a flash that holds a configuration.
use tdoa.Base.{ℕ, ◌^◌, ◌<◌, ◌≡◌, refl, some, List, arith, length, pos, le_bytes}
use tdoa.Config.Platform.{Platform}
use tdoa.Config.State.{size_read, size_tlv_max, config_nvs_id, ConfigField, field_code, State}
use tdoa.Config.Tlv.Store.{Entry, size_of, lookup}
use tdoa.Config.Tlv.Encoded.{Holds}
use tdoa.Config.Save.Crc.{Sealed}
use tdoa.Config.Init.{flash_init, config_init}
use tdoa.Config.Init.Reboot.{restarted, config_init-Sealed}
use tdoa.Uwb.Types.{UwbConfig, mode_anchor}
use tdoa.Uwb.Radio.{Radio, IsSound}
use tdoa.Uwb.Device.{Driver}
use tdoa.Uwb.Core.{Core, anchor_algorithm, uwb_init}
use tdoa.Uwb.Core.Settings.{set_up, uwb_init_anchor}
use tdoa.Uwb.Loop.{Wake, Loop, as_anchor, anchor_boot, init, uwb_start, uwb_loop}
use tdoa.Uwb.Loop.Safe.{IsReady, uwb_loop-uwb_start}
use tdoa.Uwb.Anchor.{anchor_init}
use tdoa.Main.{main}

-- What an anchor's store holds.
pub record AnchorEntries (es : List Entry) (c : UwbConfig) : Type 0 where
  pub fits : size_of es < size_tlv_max
  pub has_mode : lookup (field_code ConfigField.mode) es ≡ some (le_bytes 1 mode_anchor)
  pub has_address : lookup (field_code ConfigField.address) es ≡ some c.address
  pub has_x :
      lookup (field_code ConfigField.anchor_x_pos_mm) es ≡ some (le_bytes 4 c.anchor_x_pos_mm)
  pub has_y :
      lookup (field_code ConfigField.anchor_y_pos_mm) es ≡ some (le_bytes 4 c.anchor_y_pos_mm)
  pub length-address : length c.address ≡ 8
  pub x-lt : c.anchor_x_pos_mm < 2 ^ 32
  pub y-lt : c.anchor_y_pos_mm < 2 ^ 32

module _ (p : Platform) (driver : Driver) (radio : Radio) where
  pub main_run :
      (dummy : List ℕ) (s : State p.Flash) (core : Core) {s1 : State p.Flash} {c1 : Core}
      → config_init p dummy s ≡ some (pos 0, s1)
      → uwb_init p s1 driver core ≡ some (pos 0, c1)
      → main p driver radio dummy s core ≡ some (pos 0, s1, some (uwb_start radio c1))
  unfolding main
  main_run dummy s core a b = ground arith

  module _ (ok : IsSound radio) (core : Core) (es : List Entry) (c : UwbConfig)
      (e : AnchorEntries es c) (opened : driver.openspi ≡ pos 0)
      (initialised : driver.initialised ≡ pos 0) (lc : length core.uwb_config.address ≡ 8) where
    -- The end of a `main` whose store holds an anchor's entries, and the run of its thread.
    pub anchor_starts :
        (s1 : State p.Flash) (ws : List Wake)
        → Holds s1 es
        → let config = record c { mode = mode_anchor } in
          (c1 : Core) × (uwb_init p s1 driver core ≡ some (pos 0, c1))
          × ((uwb_start radio c1).running ≡ as_anchor (record anchor_boot { config = config }))
          × (last : Loop) × (uwb_loop radio (uwb_start radio c1) ws ≡ some last)
          × IsReady config last.running
    unfolding uwb_start init anchor_init
    anchor_starts s1 ws h =
        let config = record c { mode = mode_anchor } in
        let started = record (set_up p s1 es h driver opened initialised core) {
          algorithm = anchor_algorithm;
          uwb_config = config;
        } in
        let ready =
          uwb_init_anchor p s1 es h driver opened initialised core c.address c.anchor_x_pos_mm
            c.anchor_y_pos_mm e.fits e.has_mode e.has_address e.has_x e.has_y e.length-address lc
            e.x-lt e.y-lt in
        let (last, runs, k) = uwb_loop-uwb_start radio ok started ws e.length-address in
        (started, ready, refl, last, runs, k)

  -- A firmware that finds the saved store of an anchor on flash ends `main` with 0, if
  -- `flash_init` and the set-up of the driver succeed and the driver is sound, and runs the
  -- anchor's algorithm with the stored address and position; from then on, whatever wakes the
  -- thread and however often, no access leaves an object and the configuration stays.
  pub main_anchor :
      (ok : IsSound radio) (dummy : List ℕ) (s t : State p.Flash) (core : Core) (es : List Entry)
      (c : UwbConfig) (ws : List Wake)
      → Sealed p t es
      → AnchorEntries es c
      → length s.buffer ≡ size_read
      → (flash_init p dummy s).0 ≡ pos 0
      → p.nvs_read
          (flash_init p dummy s).1.fs
          (flash_init p dummy s).1.flash
          config_nvs_id
          size_read
        ≡ (pos size_read, t.buffer)
      → driver.openspi ≡ pos 0
      → driver.initialised ≡ pos 0
      → length core.uwb_config.address ≡ 8
      → let config = record c { mode = mode_anchor } in
        (after : State p.Flash) × (loop : Loop) × (main p driver radio dummy s core
          ≡ some (pos 0, after, some loop))
        × (loop.running ≡ as_anchor (record anchor_boot { config = config }))
        × (last : Loop) × (uwb_loop radio loop ws ≡ some last)
        × IsReady config last.running
  main_anchor ok dummy s t core es c ws sealed e l mounted saved opened initialised lc =
      let (loaded, again) = config_init-Sealed p dummy s t es sealed l mounted saved in
      let s1 = restarted p (flash_init p dummy s).1 t.buffer in
      let (c1, ready, anchored, last, runs, k) =
        anchor_starts ok core es c e opened initialised lc s1 ws again.holds in
      (s1, uwb_start radio c1, main_run dummy s core loaded ready, anchored, last, runs, k)
