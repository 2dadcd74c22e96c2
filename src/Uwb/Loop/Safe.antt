-- ===== src/Uwb/Loop/Safe.antt =====
-- That the thread never leaves an object, whatever wakes it.
use tdoa.Base.{ℕ, ◌≡◌, refl, ap, ◌∙◌, some, List, length}
use tdoa.Uwb.Types.{UwbConfig, UwbEvent, timeout_maximum}
use tdoa.Uwb.Mac.{packet_size}
use tdoa.Uwb.Radio.{Radio, IsSound}
use tdoa.Uwb.Anchor.{anchor_init}
use tdoa.Uwb.Anchor.Total.{anchor_on_event_total}
use tdoa.Uwb.Tag.{tag_init}
use tdoa.Uwb.Tag.Total.{tag_on_event_total}
use tdoa.Uwb.Core.{Algorithm, Core}
use tdoa.Uwb.Loop.{
  Running, as_tag, as_anchor, as_dummy, Callback, Wake, interrupt, Loop, init, uwb_start, on_event,
  isr, uwb_iteration, uwb_loop,
}
use tdoa.Uwb.Loop.Induction.{isr-Keeps, interrupt-Keeps, uwb_loop-Keeps}

-- The objects of the running algorithm have their sizes, and its configuration is the one given.
unfoldable pub IsReady : UwbConfig → Running → Type 0
IsReady config (as_tag t) = (length t.rx_packet ≡ packet_size) × (t.config ≡ config)
IsReady config (as_anchor a) = (length a.config.address ≡ 8) × (a.config ≡ config)
IsReady config as_dummy = Unit

module _ (radio : Radio) (ok : IsSound radio) (config : UwbConfig) where
  pub on_event-IsReady :
      (r : Running) (event : UwbEvent)
      → IsReady config r
      → (wait : ℕ) × (next : Running) × (on_event radio r event ≡ some (wait, next))
        × IsReady config next
  unfolding on_event IsReady
  on_event-IsReady (as_tag t) event (l, same) =
      let (t', e, l', kept) = tag_on_event_total radio ok t event l in
      (timeout_maximum, as_tag t', rw e refl, (l', kept ∙ same))
  on_event-IsReady (as_anchor a) event (has, same) =
      let (wait, b, e, kept) = anchor_on_event_total radio ok a event has in
      (
        wait,
        as_anchor b,
        rw e refl,
        (ap (λ (c : UwbConfig). length (c.address)) kept ∙ has, kept ∙ same),
      )
  on_event-IsReady as_dummy event u = (_, as_dummy, refl, u)

  pub isr-IsReady :
      (r : Running) (cs : List Callback)
      → IsReady config r
      → (next : Running) × (isr radio r cs ≡ some next) × IsReady config next
  isr-IsReady = isr-Keeps radio (IsReady config) on_event-IsReady

  pub interrupt-IsReady :
      (loop : Loop) (first : List Callback) (more : List (List Callback))
      → IsReady config loop.running
      → (next : Running) × (uwb_iteration radio loop (interrupt first more)
          ≡ some (record loop { running = next }))
        × IsReady config next
  interrupt-IsReady = interrupt-Keeps radio (IsReady config) on_event-IsReady

  pub init-IsReady :
      (chosen : Algorithm) → length config.address ≡ 8 → IsReady config (init radio chosen config)
  unfolding init IsReady tag_init anchor_init
  init-IsReady Algorithm.tag_algorithm has = (refl, refl)
  init-IsReady Algorithm.anchor_algorithm has = (has, refl)
  init-IsReady Algorithm.dummy_algorithm has = tt

module _ (radio : Radio) (ok : IsSound radio) (core : Core) where
  -- From the start of the thread on, whatever wakes it, and however often, and whatever the sound
  -- driver returns, no access leaves an object, and the algorithm keeps the configuration it was
  -- given and the sizes of its objects.
  pub uwb_loop-uwb_start :
      (ws : List Wake)
      → length core.uwb_config.address ≡ 8
      → (last : Loop) × (uwb_loop radio (uwb_start radio core) ws ≡ some last)
        × IsReady core.uwb_config last.running
  unfolding uwb_start
  uwb_loop-uwb_start ws has =
      uwb_loop-Keeps radio (IsReady core.uwb_config) (on_event-IsReady radio ok core.uwb_config)
        (uwb_start radio core) ws (init-IsReady radio ok core.uwb_config core.algorithm has)
