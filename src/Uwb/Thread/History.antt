-- ===== src/Uwb/Thread/History.antt =====
-- The interleaved system against the thread alone: what the steps so far tell of the wakes of
-- `uwb_loop`.
use tdoa.Base.{◌≡◌, some, List, [], ◌∷◌, ◌++◌}
use tdoa.Uwb.Radio.{Radio}
use tdoa.Uwb.Loop.{Callback, Wake, timed_out, interrupt, Loop, isr_again, uwb_loop}
use tdoa.Uwb.Thread.{
  Semaphore, waiting, System, edge, take, serve, serve_faults, again, done, time_out,
  time_out_faults, Reach, start, later,
}

-- The wakes that are over, the last one at the end, and the calls of `dwt_isr` since the last time
-- that the semaphore was taken, each with its callbacks.
pub record History : Type 0 where
  pub wakes : List Wake
  pub served : List (List Callback)

unfoldable pub wake_of : List (List Callback) → List Wake
wake_of [] = []
wake_of (first ∷ more) = interrupt first more ∷ []

module _ (radio : Radio) where
  module _ (semaphore : Semaphore) (first : Loop) where
    unfoldable pub history : {s : System semaphore} → Reach semaphore radio first s → History
    unfolding wake_of
    history start = record { wakes = []; served = [] }
    history (later r (edge low e)) = history r
    history (later r (take sem w taken e)) = history r
    history (later r (serve cs line next at keep run e)) =
        let h = history r in record h { served = h.served ++ (cs ∷ []) }
    history (later r (serve_faults cs at stuck e)) = history r
    history (later r (again at up e)) = history r
    history (later r (done at low e)) =
        let h = history r in record { wakes = h.wakes ++ wake_of h.served; served = [] }
    history (later r (time_out wait next w empty run e)) =
        let h = history r in record h { wakes = h.wakes ++ (timed_out ∷ []) }
    history (later r (time_out_faults w empty stuck e)) = history r

    -- The wakes lead to where the thread last waited, and the calls since then on from there.
    record Tells (s : System semaphore) (h : History) : Type 0 where
      waited : Loop
      over : uwb_loop radio first h.wakes ≡ some waited
      since : isr_again radio waited.running h.served ≡ some s.loop.running
      same_timeout : waited.timeout_ms ≡ s.loop.timeout_ms
      none_served : s.phase ≡ waiting → h.served ≡ []
