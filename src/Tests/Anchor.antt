-- ===== src/Tests/Anchor.antt =====
-- The anchor and the tag over a driver with fixed answers.
use tdoa.Base.{
  ◌+◌, ◌*◌, from_le, ℕ, ◌+◌, ◌*◌, ◌/◌, ◌^◌, ◌<◌, ◌≡◌, refl, some, List, [], ◌∷◌, arith, take, drop,
  replicate, length-replicate, pos, le_bytes, from_le,
}
use tdoa.Uwb.Types.{UwbConfig, UwbEvent, timeout_maximum}
use tdoa.Uwb.Radio.{Call, Radio, IsSound}
use tdoa.Uwb.Anchor.Report.{stamped, handle_rx_packet_stale}
use tdoa.Uwb.Anchor.{RxReport, handle_rx_packet, Anchor, start_next_event}
use tdoa.Uwb.Anchor.Schedule.{drawn}
use tdoa.Uwb.Anchor.Send.{Sent, start_next_event_wrapped}
use tdoa.Uwb.Anchor.Packet.{parts, sent, fill_packet_lem}
use tdoa.Uwb.Tag.Heard.{tag_on_event-fill_packet}
use tdoa.Uwb.Tag.{Tag, decode, tag_on_event}

-- A clock that stands at 1000, 151 bytes to receive, and 3 in every byte of a local packet.
abbrev pub fixed : Radio
fixed = record {
  rx_timestamp = λ _. le_bytes 5 1000;
  tx_timestamp = λ _. le_bytes 5 1000;
  sys_time = λ _. le_bytes 5 1000;
  frame_info = λ _. 151;
  rx_data = λ _ n. replicate n 9;
  write_result = λ _. pos 0;
  start_result = λ _. pos 0;
  sys_rand32_get = λ _. 7;
  uptime_ticks = λ _. 100000;
  ms_to_ticks_floor64 = λ ms. ms * 32768 / 1000;
  ticks_to_ms_floor32 = λ ticks. ticks * 1000 / 32768;
  stack = λ _. replicate 151 3;
}

pub fixed-IsSound : IsSound fixed
fixed-IsSound = record {
  sys_time_value = λ _. 1000;
  rx_time_value = λ _. 1000;
  tx_time_value = λ _. 1000;
  sys_time_bytes = λ _. refl;
  rx_time_bytes = λ _. refl;
  tx_time_bytes = λ _. refl;
  sys_time-lt = λ _. omega arith;
  rx_time-lt = λ _. omega arith;
  tx_time-lt = λ _. omega arith;
  length-rx_data = λ _ n. length-replicate n 9;
  length-stack = λ _. refl;
}

abbrev pub settings : UwbConfig
settings = record {
  mode = 1;
  address = 1 ∷ 2 ∷ 3 ∷ 4 ∷ 5 ∷ 6 ∷ 7 ∷ 8 ∷ [];
  anchor_x_pos_mm = 1500;
  anchor_y_pos_mm = 70000;
}

abbrev anchor : Anchor
anchor = record { config = settings; next_tx_tick = 500; prev_sys_time = 0; calls = [] }

abbrev tag : Tag
tag = record { config = settings; rx_packet = replicate 151 0; calls = [] }

start_next_event_wrapped_example :
    (wait : ℕ) × (b : Anchor) × (start_next_event fixed anchor 5000000000 ≡ some (wait, b))
    × (b.next_tx_tick < 2 ^ 32)
    × Sent fixed fixed-IsSound (drawn fixed anchor) settings b.calls
start_next_event_wrapped_example =
    start_next_event_wrapped fixed fixed-IsSound anchor 5000000000 refl (omega arith) (omega arith)

abbrev filled : List ℕ
filled = sent (replicate 151 3) settings (parts (replicate 151 3) refl) refl

abbrev near : Radio
near = record fixed { rx_data = λ _ n. take n filled }

tag_on_event-fill_packet_example :
    (t : Tag) × (tag_on_event near tag UwbEvent.packet_received ≡ some (timeout_maximum, t))
    × (decode t.rx_packet
        ≡ some (record { src = settings.address; x = from_le (3 ∷ 3 ∷ []); y = 0 }))
tag_on_event-fill_packet_example =
    tag_on_event-fill_packet near tag (replicate 151 3) settings refl refl filled (3 ∷ 3 ∷ [])
      (fill_packet_lem (replicate 151 3) settings (parts (replicate 151 3) refl) refl) refl refl
      refl refl

handle_rx_packet_stale_example :
    let received = fixed.rx_data (Call.read_frame_info ∷ stamped fixed anchor) 23 in
    (r : RxReport) × (b : Anchor) × (handle_rx_packet fixed anchor ≡ some (r, b))
    × (r.rx ≡ 1000)
    × (r.tx ≡ 1000)
    × (r.sys_time
        ≡ from_le (drop 21 received) + 2 ^ 16 * from_le (take 6 (drop 23 (fixed.stack []))))
    × (b.prev_sys_time ≡ r.sys_time)
    × (b.calls ≡ Call.read_rx_data 23 0 ∷ Call.read_frame_info ∷ stamped fixed anchor)
unfolding fixed-IsSound
handle_rx_packet_stale_example = handle_rx_packet_stale fixed fixed-IsSound anchor refl
