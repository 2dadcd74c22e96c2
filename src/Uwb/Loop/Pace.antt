-- ===== src/Uwb/Loop/Pace.antt =====
-- How often the thread of an anchor sends, whatever wakes it.
use tdoa.Base.{some_inj, sym, ap, subst, ◌∙◌, ◌∷◌, ℕ, ◌≡◌, refl, some, List, length}
use tdoa.Uwb.Types.{UwbEvent}
use tdoa.Uwb.Radio.{Radio, IsSound}
use tdoa.Uwb.Anchor.{Anchor, anchor_init, anchor_on_event}
use tdoa.Uwb.Anchor.Rate.{
  sent_at, IsTimely, IsSpaced, IsDue, IsSoon, IsOverdue, IsOverdue-IsSoon, anchor_continue-sends,
  Paces, anchor_on_event-Paces,
}
use tdoa.Uwb.Core.{Algorithm, Core}
use tdoa.Uwb.Loop.{
  Running, as_tag, as_anchor, as_dummy, Wake, timed_out, Loop, init, uwb_start, on_event,
  uwb_iteration, uwb_loop,
}
use tdoa.Uwb.Loop.Induction.{uwb_loop-Keeps}

module _ (radio : Radio) (ok : IsSound radio) (timely : IsTimely radio) where
  unfoldable RunsInPace : Running → Type 0
  RunsInPace (as_tag t) = ⊥
  RunsInPace (as_anchor a) = Paces radio ok timely a
  RunsInPace as_dummy = ⊥

  on_event-RunsInPace :
      (r : Running) (event : UwbEvent)
      → RunsInPace r
      → (wait : ℕ) × (next : Running) × (on_event radio r event ≡ some (wait, next))
        × RunsInPace next
  unfolding on_event RunsInPace
  on_event-RunsInPace (as_anchor a) event h =
      let (wait, b, e, k) = anchor_on_event-Paces radio ok timely a event h in
      (wait, as_anchor b, rw e refl, k)
  on_event-RunsInPace (as_tag t) event h = elim h [ ]
  on_event-RunsInPace as_dummy event h = elim h [ ]

  paced : (r : Running) → RunsInPace r → (a : Anchor) × (r ≡ as_anchor a) × Paces radio ok timely a
  unfolding RunsInPace
  paced (as_anchor a) h = (a, refl, h)
  paced (as_tag t) h = elim h [ ]
  paced as_dummy h = elim h [ ]

  init-RunsInPace :
      (core : Core)
      → core.algorithm ≡ Algorithm.anchor_algorithm
      → length core.uwb_config.address ≡ 8
      → RunsInPace (uwb_start radio core).running
  unfolding uwb_start init anchor_init RunsInPace IsSpaced IsDue IsSoon sent_at
  init-RunsInPace core e has =
      rw e (record { has_address = has; spaced = tt; due = tt; soon = refl })

  -- An anchor keeps its distance: from the start of its thread on, whatever wakes it, and however
  -- often, no packet is handed to the driver until more than 195 milliseconds of uptime have
  -- passed since the one before, if the address has eight bytes, the driver is sound, more
  -- milliseconds are not fewer ticks, and the uptime and 204 milliseconds stay within 32 bits.
  pub uwb_loop-IsSpaced :
      (core : Core) (ws : List Wake)
      → core.algorithm ≡ Algorithm.anchor_algorithm
      → length core.uwb_config.address ≡ 8
      → (last : Loop) × (a : Anchor) × (uwb_loop radio (uwb_start radio core) ws ≡ some last)
        × (last.running ≡ as_anchor a)
        × IsSpaced (radio.ms_to_ticks_floor64 195) (sent_at radio a.calls)
  uwb_loop-IsSpaced core ws chosen has =
      let (last, e, k) =
        uwb_loop-Keeps radio RunsInPace on_event-RunsInPace (uwb_start radio core) ws
          (init-RunsInPace core chosen has) in
      let (a, f, h) = paced last.running k in (last, a, e, f, h.spaced)

  timed_out_run :
      (loop : Loop) {r next : Running} {wait : ℕ}
      → loop.running ≡ r
      → on_event radio r UwbEvent.timeout ≡ some (wait, next)
      → uwb_iteration radio loop timed_out ≡ some (record { timeout_ms = wait; running = next })
  unfolding uwb_iteration
  timed_out_run loop e f = rw e (rw f refl)

  -- An anchor does not fall silent: after any run of its thread, once more than 204 milliseconds of
  -- uptime have passed since its last packet, or any at all before the first, the next timeout of
  -- the thread hands a packet to the driver, if the address has eight bytes, the driver is sound,
  -- more milliseconds are not fewer ticks, and the uptime and 204 milliseconds stay within 32 bits.
  pub uwb_loop-IsOverdue :
      (core : Core) (ws : List Wake) (last : Loop) (a : Anchor)
      → core.algorithm ≡ Algorithm.anchor_algorithm
      → length core.uwb_config.address ≡ 8
      → uwb_loop radio (uwb_start radio core) ws ≡ some last
      → last.running ≡ as_anchor a
      → IsOverdue
          (radio.ms_to_ticks_floor64 204)
          (sent_at radio a.calls)
          (radio.uptime_ticks a.calls)
      → (next : Loop) × (b : Anchor) × (uwb_iteration radio last timed_out ≡ some next)
        × (next.running ≡ as_anchor b)
        × (sent_at radio b.calls ≡ radio.uptime_ticks a.calls ∷ sent_at radio a.calls)
  unfolding on_event anchor_on_event RunsInPace
  uwb_loop-IsOverdue core ws last a chosen has runs at_anchor overdue =
      let (last', e, k) =
        uwb_loop-Keeps radio RunsInPace on_event-RunsInPace (uwb_start radio core) ws
          (init-RunsInPace core chosen has) in
      let same : last' ≡ last = some_inj (sym e ∙ runs) in
      let h : Paces radio ok timely a =
        subst RunsInPace (ap (λ (l : Loop). l.running) same ∙ at_anchor) k in
      let (wait, b, f, sent, _) = anchor_continue-sends radio ok timely a h (
        IsOverdue-IsSoon (radio.ms_to_ticks_floor64 204) (sent_at radio a.calls) a.next_tx_tick
          (radio.uptime_ticks a.calls) h.soon overdue) in
      (
        record { timeout_ms = wait; running = as_anchor b },
        b,
        timed_out_run last at_anchor (rw f refl),
        refl,
        sent,
      )
