-- ===== src/Uwb/Loop.antt =====
-- The thread of src/uwb.c. What wakes it is an argument: the semaphore timed out, or it was given
-- by `uwb_isr`, and then each call of the driver's `dwt_isr` calls some of the four callbacks,
-- until `dwt_checkirq` returns 0.
pub mod Induction
pub mod Safe
pub mod Timeout
pub mod Pace
pub mod Append
use tdoa.Base.{ℕ, Option, some, List, [], ◌∷◌, ◌>>=◌, replicate}
use tdoa.Uwb.Types.{UwbConfig, UwbEvent}
use tdoa.Uwb.Mac.{packet_size}
use tdoa.Uwb.Radio.{Radio}
use tdoa.Uwb.Anchor.{Anchor, uwb_anchor_algorithm}
use tdoa.Uwb.Tag.{Tag, uwb_tag_algorithm}
use tdoa.Uwb.Dummy.{uwb_dummy_algorithm}
use tdoa.Uwb.Core.{Algorithm, Core, core_boot}

-- The chosen algorithm with its static data.
pub data Running : Type 0 where
  as_tag : Tag → Running
  as_anchor : Anchor → Running
  as_dummy : Running

pub data Callback : Type 0 where
  tx_done_callback rx_ok_callback rx_timeout_callback rx_error_callback : Callback

-- `interrupt first more`: the callbacks of the first `dwt_isr`, and of each later one.
pub data Wake : Type 0 where
  timed_out : Wake
  interrupt : List Callback → List (List Callback) → Wake

pub record Loop : Type 0 where
  pub timeout_ms : ℕ
  pub running : Running

-- The static data of the algorithms as the program starts.
abbrev pub tag_boot : Tag
tag_boot = record { config = core_boot.uwb_config; rx_packet = replicate packet_size 0; calls = [] }

abbrev pub anchor_boot : Anchor
anchor_boot = record {
  config = core_boot.uwb_config;
  next_tx_tick = 0;
  prev_sys_time = 0;
  calls = [];
}

unfoldable pub callback_event : Callback → UwbEvent
callback_event tx_done_callback = UwbEvent.packet_sent
callback_event rx_ok_callback = UwbEvent.packet_received
callback_event rx_timeout_callback = UwbEvent.receive_timeout
callback_event rx_error_callback = UwbEvent.receive_failed

module _ (radio : Radio) where
  -- `algorithm->init(&uwb_config)`
  unfoldable pub init : Algorithm → UwbConfig → Running
  init Algorithm.tag_algorithm config = as_tag ((uwb_tag_algorithm radio).init tag_boot config)
  init Algorithm.anchor_algorithm config =
      as_anchor ((uwb_anchor_algorithm radio).init anchor_boot config)
  init Algorithm.dummy_algorithm config = as_dummy

  unfoldable pub uwb_start : Core → Loop
  uwb_start core = record { timeout_ms = 0; running = init core.algorithm core.uwb_config }

  -- `algorithm->on_event(event)`
  unfoldable pub on_event : Running → UwbEvent → Option (ℕ × Running)
  on_event (as_tag t) event = do
    (wait, t') ← (uwb_tag_algorithm radio).on_event t event
    some (wait, as_tag t')
  on_event (as_anchor a) event = do
    (wait, a') ← (uwb_anchor_algorithm radio).on_event a event
    some (wait, as_anchor a')
  on_event as_dummy event = do
    (wait, _) ← uwb_dummy_algorithm.on_event tt event
    some (wait, as_dummy)

  -- One `dwt_isr`. The callbacks do not look at what `on_event` returns.
  unfoldable pub isr : Running → List Callback → Option Running
  isr running [] = some running
  isr running (c ∷ cs) = do (_, next) ← on_event running (callback_event c); isr next cs

  unfoldable pub isr_again : Running → List (List Callback) → Option Running
  isr_again running [] = some running
  isr_again running (cs ∷ more) = do next ← isr running cs; isr_again next more

  -- The body of the endless loop
  unfoldable pub uwb_iteration : Loop → Wake → Option Loop
  uwb_iteration loop (interrupt first more) = do
    r1 ← isr loop.running first
    r2 ← isr_again r1 more
    some (record loop { running = r2 })
  uwb_iteration loop timed_out = do
    (wait, next) ← on_event loop.running UwbEvent.timeout
    some (record { timeout_ms = wait; running = next })

  unfoldable pub uwb_loop : Loop → List Wake → Option Loop
  uwb_loop loop [] = some loop
  uwb_loop loop (w ∷ ws) = do next ← uwb_iteration loop w; uwb_loop next ws
