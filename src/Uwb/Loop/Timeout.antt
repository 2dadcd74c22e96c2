-- ===== src/Uwb/Loop/Timeout.antt =====
-- What sets the time that the thread waits.
use tdoa.Base.{Bool, true, false, ◌≡◌, refl, some, List, [], ◌∷◌}
use tdoa.Uwb.Types.{UwbConfig}
use tdoa.Uwb.Radio.{Radio, IsSound}
use tdoa.Uwb.Loop.{Wake, timed_out, interrupt, Loop, uwb_loop}
use tdoa.Uwb.Loop.Safe.{IsReady, interrupt-IsReady}

-- Interrupts alone.
abbrev pub no_timeout : List Wake → Bool
no_timeout [] = true
no_timeout (timed_out ∷ ws) = false
no_timeout (interrupt first more ∷ ws) = no_timeout ws

module _ (radio : Radio) (ok : IsSound radio) (config : UwbConfig) where
  -- However many interrupts arrive, the thread goes on to wait for the time that the last timeout
  -- set: what `on_event` returns for a packet that was received or sent does not count.
  pub uwb_loop_keeps_timeout :
      (loop : Loop) (ws : List Wake)
      → no_timeout ws ≡ true
      → IsReady config loop.running
      → (last : Loop) × (uwb_loop radio loop ws ≡ some last)
        × (last.timeout_ms ≡ loop.timeout_ms)
        × IsReady config last.running
  unfolding uwb_loop
  uwb_loop_keeps_timeout loop [] quiet h = (loop, refl, refl, h)
  uwb_loop_keeps_timeout loop (timed_out ∷ ws) quiet h = cc
  uwb_loop_keeps_timeout loop (interrupt first more ∷ ws) quiet h =
      let (next, e, k) = interrupt-IsReady radio ok config loop first more h in
      let (last, f, same, l) = uwb_loop_keeps_timeout (record loop { running = next }) ws quiet k in
      (last, rw e f, same, l)
