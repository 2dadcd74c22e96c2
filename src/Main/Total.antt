-- ===== src/Main/Total.antt =====
-- The firmware over any contents of flash.
use tdoa.Base.{
  ℕ, ◌≤◌, ◌≡◌, refl, true, false, Option, none, some, inl, inr, List, arith, Bool-cases, ℤ, pos,
  neg, is_zero,
}
use tdoa.Config.Platform.{Platform, Durable}
use tdoa.Config.State.{size_tlv_max, State, boot, tlv_length}
use tdoa.Config.Init.{flash_init, config_init}
use tdoa.Config.Init.Total.{first_read, config_init_total}
use tdoa.Uwb.Radio.{Radio, IsSound}
use tdoa.Uwb.Device.{Driver}
use tdoa.Uwb.Core.{Core, core_boot, uwb_init}
use tdoa.Uwb.Core.Total.{is_zero→pos, uwb_init_total}
use tdoa.Uwb.Loop.{Wake, Loop, uwb_start, uwb_loop}
use tdoa.Uwb.Loop.Safe.{uwb_loop-uwb_start}
use tdoa.Main.{main}

-- A thread that was started, if it was, runs on without leaving an object.
unfoldable pub RunsOn : Radio → List Wake → Option Loop → Type 0
RunsOn radio ws none = Unit
RunsOn radio ws (some loop) = (last : Loop) × (uwb_loop radio loop ws ≡ some last)

module _ (p : Platform) (driver : Driver) (radio : Radio) where
  main_refuses :
      (dummy : List ℕ) (s : State p.Flash) (core : Core) {r : ℤ} {s1 : State p.Flash}
      → config_init p dummy s ≡ some (r, s1)
      → is_zero r ≡ false
      → main p driver radio dummy s core ≡ some (neg 1, s1, none)
  unfolding main
  main_refuses dummy s core a b = ground arith

  main_starts :
      (dummy : List ℕ) (s : State p.Flash) (core : Core) {r q : ℤ} {s1 : State p.Flash} {c1 : Core}
      → config_init p dummy s ≡ some (r, s1)
      → is_zero r ≡ true
      → uwb_init p s1 driver core ≡ some (q, c1)
      → is_zero q ≡ true
      → main p driver radio dummy s core ≡ some (pos 0, s1, some (uwb_start radio c1))
  unfolding main
  main_starts dummy s core a b c d = ground arith

  main_fails :
      (dummy : List ℕ) (s : State p.Flash) (core : Core) {r q : ℤ} {s1 : State p.Flash} {c1 : Core}
      → config_init p dummy s ≡ some (r, s1)
      → is_zero r ≡ true
      → uwb_init p s1 driver core ≡ some (q, c1)
      → is_zero q ≡ false
      → main p driver radio dummy s core ≡ some (neg 2, s1, none)
  unfolding main
  main_fails dummy s core a b c d = ground arith

  -- Whatever the flash holds, be it a configuration or not, and whatever the flash device, the mount
  -- and the set-up of the driver return: over an NVS that gives back what it wrote, and no more bytes
  -- than were asked for, if the length field of what is first read is at most 118, then `main` comes
  -- to a result without an access out of range; and if it started the thread, and the driver is
  -- sound, then so does every run of that.
  pub main_total :
      (d : Durable p) (ok : IsSound radio) (dummy : List ℕ) (flash : p.Flash) (len : ℕ)
      (ws : List Wake)
      → tlv_length (first_read p (flash_init p dummy (boot flash)).1) ≡ some len
      → len ≤ size_tlv_max
      → (r : ℤ) × (after : State p.Flash) × (l : Option Loop) × (main p driver radio dummy
            (boot flash)
            core_boot
          ≡ some (r, after, l))
        × RunsOn radio ws l
  unfolding RunsOn
  main_total d ok dummy flash len ws e bounded =
      let s = boot flash in
      let (q, after, inits, readable) = config_init_total p d dummy flash len e bounded in
      elim (Bool-cases (is_zero q)) [
        | inr bad ↦ (neg 1, after, none, main_refuses dummy s core_boot inits bad, tt)
        | inl good ↦
            let (r, core, run, eight) =
              uwb_init_total p after (readable (is_zero→pos q good)) driver core_boot refl in
            elim (Bool-cases (is_zero r)) [
              | inr bad ↦ (neg 2, after, none, main_fails dummy s core_boot inits good run bad, tt)
              | inl fine ↦
                  let (last, loops, _) = uwb_loop-uwb_start radio ok core ws eight in
                  (
                    pos 0,
                    after,
                    some (uwb_start radio core),
                    main_starts dummy s core_boot inits good run fine,
                    (last, loops),
                  )
            ]
      ]
