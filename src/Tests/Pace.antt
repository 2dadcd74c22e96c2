-- ===== src/Tests/Pace.antt =====
-- An anchor on a clock that moves on by 300 ticks with every call.
use tdoa.Base.{◌*◌, ◌≡◌, refl, some, min, arith, length, List, [], ◌∷◌}
use tdoa.Uwb.Radio.{Call, Radio, IsSound}
use tdoa.Uwb.Anchor.{
  Anchor, anchor_init, time_left, start_next_event, anchor_continue, anchor_on_event,
}
use tdoa.Uwb.Anchor.Rate.{sent_at, IsTimely, IsSpaced, IsOverdue}
use tdoa.Uwb.Device.{start_rx_immediate}
use tdoa.Uwb.Core.{Core, core_boot, anchor_algorithm}
use tdoa.Uwb.Loop.{
  Wake, timed_out, Loop, as_anchor, anchor_boot, init, on_event, uwb_start, uwb_iteration, uwb_loop,
}
use tdoa.Uwb.Loop.Pace.{uwb_loop-IsSpaced, uwb_loop-IsOverdue}
use tdoa.Tests.Anchor.{fixed, fixed-IsSound, settings}
use tdoa.Tests.Boot.{wakes}

abbrev ticking : Radio
ticking = record fixed { uptime_ticks = λ c. min (300 * length c) 4000000000 }

ticking-IsSound : IsSound ticking
ticking-IsSound = record {
  sys_time_value = fixed-IsSound.sys_time_value;
  rx_time_value = fixed-IsSound.rx_time_value;
  tx_time_value = fixed-IsSound.tx_time_value;
  sys_time_bytes = fixed-IsSound.sys_time_bytes;
  rx_time_bytes = fixed-IsSound.rx_time_bytes;
  tx_time_bytes = fixed-IsSound.tx_time_bytes;
  sys_time-lt = fixed-IsSound.sys_time-lt;
  rx_time-lt = fixed-IsSound.rx_time-lt;
  tx_time-lt = fixed-IsSound.tx_time-lt;
  length-rx_data = fixed-IsSound.length-rx_data;
  length-stack = fixed-IsSound.length-stack;
}

ticking-IsTimely : IsTimely ticking
ticking-IsTimely = record { ticks_monotone = λ m n le. omega arith; uptime-lt = λ c. omega arith }

abbrev anchor_core : Core
anchor_core = record core_boot { algorithm = anchor_algorithm; uwb_config = settings }

uwb_loop-IsSpaced_example :
    let ws : List Wake = timed_out ∷ timed_out ∷ wakes in
    (last : Loop) × (a : Anchor) × (uwb_loop ticking (uwb_start ticking anchor_core) ws ≡ some last)
    × (last.running ≡ as_anchor a)
    × IsSpaced (ticking.ms_to_ticks_floor64 195) (sent_at ticking a.calls)
uwb_loop-IsSpaced_example =
    uwb_loop-IsSpaced ticking ticking-IsSound ticking-IsTimely anchor_core
      (timed_out ∷ timed_out ∷ wakes) refl refl

-- After the first timeout, at the uptime 0, the anchor listens.
abbrev listening : Anchor
listening = record anchor_boot {
  config = settings;
  calls = Call.rx_enable start_rx_immediate ∷ Call.force_trx_off ∷ Call.uptime ∷ [];
}

uwb_loop-IsOverdue_example :
    let last : Loop = record { timeout_ms = 0; running = as_anchor listening } in
    (next : Loop) × (b : Anchor) × (uwb_iteration ticking last timed_out ≡ some next)
    × (next.running ≡ as_anchor b)
    × (sent_at ticking b.calls ≡ 900 ∷ sent_at ticking listening.calls)
unfolding uwb_loop uwb_iteration uwb_start init anchor_init on_event anchor_on_event anchor_continue
    start_next_event time_left IsOverdue sent_at
uwb_loop-IsOverdue_example =
    uwb_loop-IsOverdue ticking ticking-IsSound ticking-IsTimely anchor_core (timed_out ∷ [])
      (record { timeout_ms = 0; running = as_anchor listening }) listening refl refl refl refl
      (omega arith)
