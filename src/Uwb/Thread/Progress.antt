-- ===== src/Uwb/Thread/Progress.antt =====
-- No handler leaves an object, whatever the order of the steps, and no interrupt is lost.
use tdoa.Base.{
  ℕ, ◌≡◌, ◌≢◌, ◌⊎◌, refl, sym, subst, true, Bool-cases, Option-cases, some, inl, inr, List, [],
  length,
}
use tdoa.Uwb.Types.{UwbConfig, UwbEvent}
use tdoa.Uwb.Radio.{Radio, IsSound}
use tdoa.Uwb.Core.{Core}
use tdoa.Uwb.Loop.{Running, Callback, uwb_start, on_event, isr}
use tdoa.Uwb.Loop.Safe.{IsReady, on_event-IsReady, isr-IsReady, init-IsReady}
use tdoa.Uwb.Thread.{
  Semaphore, IsBinary, Phase, waiting, serving, checking, faulted, System, uwb_isr, Step, edge,
  take, serve, serve_faults, again, done, time_out, time_out_faults, Reach, start, later,
}

module _ (semaphore : Semaphore) (binary : IsBinary semaphore) (radio : Radio) (ok : IsSound radio)
    (config : UwbConfig) where
  -- Whenever the thread waits and the line is up, the semaphore can be taken.
  record IsAwake (s : System semaphore) : Type 0 where
    awake :
        s.phase ≡ waiting
        → s.line ≡ true
        → (t : semaphore.Sem) × (semaphore.k_sem_take s.sem ≡ some t)
    ready : IsReady config s.loop.running
    going : s.phase ≢ faulted

  on_event-IsReady_of :
      (r next : Running) (event : UwbEvent) (wait : ℕ)
      → IsReady config r
      → on_event radio r event ≡ some (wait, next)
      → IsReady config next
  on_event-IsReady_of r next event wait h e =
      let (wait', next', e', k) = on_event-IsReady radio ok config r event h in
      let same : next' ≡ next = cc in subst (IsReady config) same k

  isr-IsReady_of :
      (r next : Running) (cs : List Callback)
      → IsReady config r
      → isr radio r cs ≡ some next
      → IsReady config next
  isr-IsReady_of r next cs h e =
      let (next', e', k) = isr-IsReady radio ok config r cs h in
      let same : next' ≡ next = cc in subst (IsReady config) same k

  Step-IsAwake : {s t : System semaphore} → Step semaphore radio s t → IsAwake s → IsAwake t
  unfolding uwb_isr
  Step-IsAwake {s} (edge low e) a =
      let (sem, taken, _) = binary.take-give s.sem in
      subst IsAwake (sym e)
        (record { awake = λ _ _. (sem, taken); ready = a.ready; going = a.going })
  Step-IsAwake (take sem w taken e) a =
      subst IsAwake (sym e) (record { awake = λ q _. cc; ready = a.ready; going = λ q. cc })
  Step-IsAwake {s} (serve cs line next at keep run e) a = subst IsAwake (sym e) (record {
    awake = λ q _. cc;
    ready = isr-IsReady_of s.loop.running next cs a.ready run;
    going = λ q. cc;
  })
  Step-IsAwake {s} (serve_faults cs at stuck e) a =
      let (next, run, _) = isr-IsReady radio ok config s.loop.running cs a.ready in absurd cc
  Step-IsAwake (again at up e) a =
      subst IsAwake (sym e) (record { awake = λ q _. cc; ready = a.ready; going = λ q. cc })
  Step-IsAwake (done at low e) a =
      subst IsAwake (sym e) (record { awake = λ _ q. cc; ready = a.ready; going = λ q. cc })
  Step-IsAwake {s} (time_out wait next w empty run e) a = subst IsAwake (sym e) (record {
    awake = a.awake;
    ready = on_event-IsReady_of s.loop.running next UwbEvent.timeout wait a.ready run;
    going = a.going;
  })
  Step-IsAwake {s} (time_out_faults w empty stuck e) a =
      let (wait, next, run, _) =
        on_event-IsReady radio ok config s.loop.running UwbEvent.timeout a.ready in
      absurd cc

  -- A phase in which the thread goes on, with the equation.
  Phase-cases : (q : Phase) → q ≢ faulted → (q ≡ waiting) ⊎ ((q ≡ serving) ⊎ (q ≡ checking))
  Phase-cases waiting going = inl refl
  Phase-cases serving going = inr (inl refl)
  Phase-cases checking going = inr (inr refl)
  Phase-cases faulted going = absurd (going refl)

  step_from_waiting :
      (s : System semaphore)
      → IsAwake s
      → s.phase ≡ waiting
      → (t : System semaphore) × Step semaphore radio s t
  step_from_waiting s a w = elim (Option-cases (semaphore.k_sem_take s.sem)) [
    | inl empty ↦
        let (wait, next, run, _) =
          on_event-IsReady radio ok config s.loop.running UwbEvent.timeout a.ready in
        (_, time_out wait next w empty run refl)
    | inr (sem, taken) ↦ (_, take sem w taken refl)
  ]

  step_from : (s : System semaphore) → IsAwake s → (t : System semaphore) × Step semaphore radio s t
  step_from s a = elim (Phase-cases s.phase a.going) [
    | inl w ↦ step_from_waiting s a w
    | inr (inl at) ↦
        let (next, run, _) = isr-IsReady radio ok config s.loop.running [] a.ready in
        (_, serve [] s.line next at (λ up. up) run refl)
    | inr (inr at) ↦ elim (Bool-cases s.line) [
      | inl up ↦ (_, again at (λ e. cc) refl)
      | inr low ↦ (_, done at (rw low refl) refl)
    ]
  ]

  -- With the line up and the thread at its wait, nothing but the taking of the semaphore can happen.
  only_take :
      {s t : System semaphore}
      → IsAwake s
      → s.phase ≡ waiting
      → s.line ≡ true
      → Step semaphore radio s t
      → t.phase ≡ serving
  only_take a w up (edge low e) = cc
  only_take a w up (take sem _ taken e) = rw e refl
  only_take a w up (serve cs line next at keep run e) = cc
  only_take a w up (serve_faults cs at stuck e) = cc
  only_take a w up (again at _ e) = cc
  only_take a w up (done at low e) = cc
  only_take a w up (time_out wait next _ empty run e) = let (sem, taken) = a.awake w up in cc
  only_take a w up (time_out_faults _ empty stuck e) = let (sem, taken) = a.awake w up in cc

module _ (semaphore : Semaphore) (binary : IsBinary semaphore) (radio : Radio) (ok : IsSound radio)
    (core : Core) (has : length core.uwb_config.address ≡ 8) where
  Reach-IsAwake :
      {s : System semaphore}
      → Reach semaphore radio (uwb_start radio core) s
      → IsAwake semaphore binary radio ok core.uwb_config s
  unfolding uwb_start
  Reach-IsAwake start = record {
    awake = λ _ q. cc;
    ready = init-IsReady radio ok core.uwb_config core.algorithm has;
    going = λ q. cc;
  }
  Reach-IsAwake (later r st) =
      Step-IsAwake semaphore binary radio ok core.uwb_config st (Reach-IsAwake r)

  -- No interrupt is lost: in every state that is reached, if the line of the device is up while the
  -- thread waits, then the system can go on, and each way to do so wakes the thread to serve it; the
  -- wait cannot time out.
  pub uwb_isr-served :
      {s : System semaphore}
      → Reach semaphore radio (uwb_start radio core) s
      → s.phase ≡ waiting
      → s.line ≡ true
      → ((t : System semaphore) × Step semaphore radio s t)
        × ((t : System semaphore) → Step semaphore radio s t → t.phase ≡ serving)
  uwb_isr-served {s} r w up =
      let a = Reach-IsAwake r in
      (
        step_from semaphore binary radio ok core.uwb_config s a,
        λ t st. only_take semaphore binary radio ok core.uwb_config a w up st,
      )
