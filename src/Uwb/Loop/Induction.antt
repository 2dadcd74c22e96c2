-- ===== src/Uwb/Loop/Induction.antt =====
-- What every event keeps, every run of the thread keeps, and no run is stuck.
use tdoa.Base.{ℕ, ◌≡◌, refl, some, Option, List, [], ◌∷◌}
use tdoa.Uwb.Types.{UwbEvent}
use tdoa.Uwb.Radio.{Radio}
use tdoa.Uwb.Loop.{
  Running, Callback, callback_event, Wake, timed_out, interrupt, Loop, on_event, isr, isr_again,
  uwb_iteration, uwb_loop,
}

module _ (radio : Radio) (Keeps : Running → Type 0)
    (on_event-Keeps : (r : Running) (event : UwbEvent)
      → Keeps r
      → (wait : ℕ) × (next : Running) × (on_event radio r event ≡ some (wait, next))
        × Keeps next) where
  -- A step that returns, in such a state again.
  abbrev pub Advances : Option Running → Type 0
  Advances r = (next : Running) × (r ≡ some next) × Keeps next

  pub isr-Keeps : (r : Running) (cs : List Callback) → Keeps r → Advances (isr radio r cs)
  unfolding isr
  isr-Keeps r [] h = (r, refl, h)
  isr-Keeps r (c ∷ cs) h =
      let (wait, next, e, h') = on_event-Keeps r (callback_event c) h in
      let (last, f, k) = isr-Keeps next cs h' in (last, rw e f, k)

  isr_again-Keeps :
      (r : Running) (more : List (List Callback)) → Keeps r → Advances (isr_again radio r more)
  unfolding isr_again
  isr_again-Keeps r [] h = (r, refl, h)
  isr_again-Keeps r (cs ∷ more) h =
      let (next, e, h') = isr-Keeps r cs h in
      let (last, f, k) = isr_again-Keeps next more h' in (last, rw e f, k)

  pub interrupt-Keeps :
      (loop : Loop) (first : List Callback) (more : List (List Callback))
      → Keeps loop.running
      → (next : Running) × (uwb_iteration radio loop (interrupt first more)
          ≡ some (record loop { running = next }))
        × Keeps next
  unfolding uwb_iteration
  interrupt-Keeps loop first more h =
      let (r1, e, h1) = isr-Keeps loop.running first h in
      let (r2, f, h2) = isr_again-Keeps r1 more h1 in (r2, rw (e, f) refl, h2)

  uwb_iteration-Keeps :
      (loop : Loop) (w : Wake)
      → Keeps loop.running
      → (next : Loop) × (uwb_iteration radio loop w ≡ some next) × Keeps next.running
  unfolding uwb_iteration
  uwb_iteration-Keeps loop (interrupt first more) h =
      let (next, e, k) = interrupt-Keeps loop first more h in (record loop { running = next }, e, k)
  uwb_iteration-Keeps loop timed_out h =
      let (wait, next, e, k) = on_event-Keeps loop.running UwbEvent.timeout h in
      (record { timeout_ms = wait; running = next }, rw e refl, k)

  pub uwb_loop-Keeps :
      (loop : Loop) (ws : List Wake)
      → Keeps loop.running
      → (last : Loop) × (uwb_loop radio loop ws ≡ some last) × Keeps last.running
  unfolding uwb_loop
  uwb_loop-Keeps loop [] h = (loop, refl, h)
  uwb_loop-Keeps loop (w ∷ ws) h =
      let (next, e, h') = uwb_iteration-Keeps loop w h in
      let (last, f, k) = uwb_loop-Keeps next ws h' in (last, rw e f, k)
