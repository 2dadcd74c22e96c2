-- ===== src/Main/Provision.antt =====
-- A board that is configured through the shell and then starts again.
use tdoa.Base.{ℕ, ◌+◌, ◌^◌, ◌<◌, ◌≡◌, refl, ap, ◌∙◌, some, List, arith, length, ℤ, pos}
use tdoa.Config.Platform.{Platform, Durable}
use tdoa.Config.State.{size_read, size_tlv_max, config_nvs_id, State, boot}
use tdoa.Config.Tlv.Store.{Entry, size_of}
use tdoa.Config.Tlv.Encoded.{Holds}
use tdoa.Config.Init.Restart.{Restarts, mounted_fs, flash_init-boot}
use tdoa.Uwb.Types.{UwbConfig, mode_anchor}
use tdoa.Uwb.Radio.{Radio, IsSound}
use tdoa.Uwb.Device.{Driver}
use tdoa.Uwb.Core.{core_boot}
use tdoa.Uwb.Loop.{Wake, Loop, as_anchor, anchor_boot, uwb_loop}
use tdoa.Uwb.Loop.Safe.{IsReady}
use tdoa.Cli.Saving.{Accepts}
use tdoa.Cli.Shell.{Locals, Shell, IsZephyr, run_lines}
use tdoa.Cli.Shell.Session.{
  provisioned, anchor_replies, anchor_session, Spells, anchor_session_lem, provisioned_mode,
  provisioned_address, provisioned_x, provisioned_y, size_of-provisioned,
}
use tdoa.Main.{main}
use tdoa.Main.Boot.{AnchorEntries, main_anchor}

pub provisioned-AnchorEntries :
    (es : List Entry) (c : UwbConfig)
    → 25 + size_of es < size_tlv_max
    → length c.address ≡ 8
    → c.anchor_x_pos_mm < 2 ^ 32
    → c.anchor_y_pos_mm < 2 ^ 32
    → AnchorEntries (provisioned es c) c
provisioned-AnchorEntries es c fits l x-lt y-lt = record {
  fits = omega (arith, size_of-provisioned es c l);
  has_mode = provisioned_mode es c;
  has_address = provisioned_address es c;
  has_x = provisioned_x es c;
  has_y = provisioned_y es c;
  length-address = l;
  x-lt = x-lt;
  y-lt = y-lt;
}

module _ (p : Platform) (d : Durable p) (accepts : Accepts p) (restarts : Restarts p)
    (shell : Shell p) (zephyr : IsZephyr p shell) (radio : Radio) (ok : IsSound radio)
    (driver : Driver) (opened : driver.openspi ≡ pos 0)
    (initialised : driver.initialised ≡ pos 0) where
  -- A board whose NVS takes the writes is told by `config mode`, `config address` and
  -- `config anchor_position`, with arguments that spell the settings of an anchor, what to be; the
  -- store has bytes to spare, and after that the board starts again with only its flash. Then each
  -- command answers 0 and prints its setting, and if NVS mounts and the driver starts and is sound,
  -- `main` returns 0 and runs the anchor's algorithm with exactly these settings; from then on,
  -- whatever wakes the thread, no access leaves an object and the settings stay.
  pub main_provisioned :
      (s : State p.Flash) (es : List Entry) (l : Locals) (c : UwbConfig)
      (mode address x y dummy : List ℕ) (ws : List Wake)
      → Holds s es
      → s.fs ≡ mounted_fs p restarts
      → 25 + size_of es < size_tlv_max
      → Spells p shell c mode address x y
      → length l.address ≡ 8
      → let config : UwbConfig = record c { mode = mode_anchor } in
        (t : State p.Flash) × (run_lines p shell s (anchor_session p shell l mode address x y)
          ≡ some (anchor_replies c, t))
        × (after : State p.Flash) × (loop : Loop) × (main p driver radio dummy
              (boot t.flash)
              core_boot
            ≡ some (pos 0, after, some loop))
        × (loop.running ≡ as_anchor (record anchor_boot { config = config }))
        × (last : Loop) × (uwb_loop radio loop ws ≡ some last)
        × IsReady config last.running
  unfolding boot
  main_provisioned s es l c mode address x y dummy ws h mounted fits w ll =
      let (length8, session) =
        anchor_session_lem p shell zephyr d accepts s es h fits l c mode address x y w ll in
      let t = session.after in
      let (started, again) =
        flash_init-boot p restarts t session.on_flash (session.same_fs ∙ mounted) dummy in
      let (after, loop, runs, anchored, last, loops, ready) =
        main_anchor p driver radio ok dummy (boot t.flash) t core_boot (provisioned es c) c ws
          session.is_sealed (provisioned-AnchorEntries es c fits length8 w.x-lt w.y-lt) refl
          (ap (λ r. r.0) started)
          (ap (λ (r : ℤ × State p.Flash). p.nvs_read r.1.fs r.1.flash config_nvs_id size_read)
              started
            ∙ again)
          opened initialised refl in
      (t, session.runs, after, loop, runs, anchored, last, loops, ready)
