-- ===== src/Uwb/Anchor.antt =====
-- src/uwb_anchor.c. The log lines are left out; of `handle_rx_packet` the numbers that it logs are
-- kept as its result, but for the float.
pub mod Schedule
pub mod Packet
pub mod Send
pub mod Report
pub mod Rate
pub mod Total
use tdoa.Base.{
  ℕ, ◌+◌, ◌-◌, ◌*◌, ◌/◌, ◌%◌, ◌^◌, true, false, Option, some, List, ◌∷◌, take, ltb, if◌then◌else◌,
  ◌>>=◌, ℤ, pos, neg, is_zero, read_at, write_at, le_bytes, from_le,
}
use tdoa.Uwb.Types.{UwbConfig, UwbEvent, UwbAlgorithm}
use tdoa.Uwb.Utils.{uwb_utils_timestamp_to_u64}
use tdoa.Uwb.Mac.{packet_size, offset_src_address, offset_payload, data_frame, packet_init}
use tdoa.Uwb.Device.{start_rx_immediate, start_tx_delayed}
use tdoa.Uwb.Radio.{
  Call, Calls, Radio, dwt_writetxdata, dwt_writetxfctrl, dwt_starttx, dwt_setdelayedtrxtime,
  dwt_readtxtimestamp, dwt_readrxtimestamp, dwt_readsystime, dwt_forcetrxoff, dwt_rxenable,
  dwt_readrxdata, dwt_read32bitreg,
}

-- The places in the packed `anchor_sync_payload_t`.
abbrev pub offset_sys_time : ℕ
offset_sys_time = 0

abbrev pub offset_anchor_x : ℕ
offset_anchor_x = 8

abbrev pub offset_anchor_y : ℕ
offset_anchor_y = 12

-- The static data: `uwb_config`, `ctx.next_tx_tick` and `prev_sys_time`; and the calls made.
pub record Anchor : Type 0 where
  pub config : UwbConfig
  pub next_tx_tick : ℕ
  pub prev_sys_time : ℕ
  pub calls : Calls

-- What `handle_rx_packet` logs, the two differences as 64-bit patterns.
pub record RxReport : Type 0 where
  pub rx : ℕ
  pub tx : ℕ
  pub delta : ℕ
  pub sys_time : ℕ
  pub sys_time_delta : ℕ

-- The packet that `send_tx_packet` fills in, from what its memory held. The address has 8 bytes.
unfoldable pub fill_packet : List ℕ → UwbConfig → Option (List ℕ)
fill_packet stack config = do
  p1 ← packet_init stack data_frame
  address ← read_at (config.address) 0 8
  p2 ← write_at p1 offset_src_address address
  p3 ← write_at p2 (offset_payload + offset_anchor_x) (le_bytes 4 (config.anchor_x_pos_mm))
  write_at p3 (offset_payload + offset_anchor_y) (le_bytes 4 (config.anchor_y_pos_mm))

-- The 40-bit start time `start` plus 2 * 10^9 ticks, without its low 8 bits, as a uint32_t.
unfoldable pub delayed_time : ℕ → ℕ
delayed_time start = (start + 200000000 * 10) % 2 ^ 64 / 2 ^ 8 % 2 ^ 32

module _ (radio : Radio) where
  unfoldable pub read_clock : Calls → Option (ℕ × Calls)
  read_clock calls = do
    let (ts_b, c1) = dwt_readsystime radio calls
    time ← uwb_utils_timestamp_to_u64 ts_b
    some (time, c1)

  -- After `dwt_writetxdata` succeeded: its frame control, the start, and the second clock read.
  unfoldable pub start_sending : Calls → Option (ℤ × Calls)
  start_sending calls = do
    let (started, c1) =
        dwt_starttx radio (dwt_writetxfctrl radio calls packet_size 0 1) start_tx_delayed
    if is_zero started then (do (_, c2) ← read_clock c1; some (pos 0, c2)) else some (neg 2, c1)

  unfoldable pub send_tx_packet : UwbConfig → Calls → Option (ℤ × Calls)
  send_tx_packet config calls = do
    (start, c1) ← read_clock calls
    let c2 = dwt_setdelayedtrxtime radio c1 (delayed_time start)
    packet ← fill_packet (radio.stack c2) config
    let (written, c3) = dwt_writetxdata radio c2 packet_size packet 0
    if is_zero written then start_sending c3 else some (neg 1, c3)

  unfoldable pub randomize_delay_to_next_tx : Calls → ℕ × Calls
  randomize_delay_to_next_tx calls =
      (200 + radio.sys_rand32_get calls % 10 - 10 / 2, Call.random ∷ calls)

  -- The milliseconds until `ctx.next_tx_tick`, from a difference kept in 32 bits
  unfoldable pub time_left : ℕ → ℕ → ℕ
  time_left next current = radio.ticks_to_ms_floor32 ((next + 2 ^ 64 - current) % 2 ^ 32)

  -- The branch of `start_next_event` that sends. The result of the sending is not looked at.
  unfoldable pub send_and_schedule : Anchor → ℕ → Option Anchor
  send_and_schedule a current = do
    let (delay, c1) = randomize_delay_to_next_tx (a.calls)
    let next = (current + radio.ms_to_ticks_floor64 delay) % 2 ^ 32
    (_, c2) ← send_tx_packet (a.config) c1
    some (record a { next_tx_tick = next; calls = c2 })

  unfoldable pub start_next_event : Anchor → ℕ → Option (ℕ × Anchor)
  start_next_event a current = do
    let off = record a { calls = dwt_forcetrxoff radio a.calls }
    let listening = record off { calls = dwt_rxenable radio off.calls start_rx_immediate }
    b ← (if ltb (a.next_tx_tick) current then send_and_schedule off current else some listening)
    some (time_left (b.next_tx_tick) current, b)

  -- The bytes that were received are laid over what the local packet held.
  unfoldable pub receive : Calls → List ℕ → Option (List ℕ × Calls)
  receive calls packet = do
    let (frame_info, c1) = dwt_read32bitreg radio calls
    let length_field = frame_info % 2 ^ 7
    let read_size = if ltb packet_size length_field then packet_size else length_field
    let (bytes, c2) = dwt_readrxdata radio c1 read_size 0
    packet' ← write_at packet 0 (take read_size bytes)
    some (packet', c2)

  unfoldable pub handle_rx_packet : Anchor → Option (RxReport × Anchor)
  handle_rx_packet a = do
    let (rx_b, c1) = dwt_readrxtimestamp radio a.calls
    rx ← uwb_utils_timestamp_to_u64 rx_b
    let (tx_b, c2) = dwt_readtxtimestamp radio c1
    tx ← uwb_utils_timestamp_to_u64 tx_b
    (packet, c3) ← receive c2 (radio.stack (a.calls))
    bytes ← read_at packet (offset_payload + offset_sys_time) 8
    let sys_time = from_le bytes
    some (
      record {
        rx = rx;
        tx = tx;
        delta = (rx + 2 ^ 64 - tx) % 2 ^ 64;
        sys_time = sys_time;
        sys_time_delta = (sys_time + 2 ^ 64 - a.prev_sys_time) % 2 ^ 64;
      },
      record a { prev_sys_time = sys_time; calls = c3 },
    )

  unfoldable pub anchor_init : Anchor → UwbConfig → Anchor
  anchor_init a config = record a { config = config; next_tx_tick = 0 }

  -- `k_uptime_ticks` and the next event
  unfoldable pub anchor_continue : Anchor → Option (ℕ × Anchor)
  anchor_continue a =
      start_next_event (record a { calls = Call.uptime ∷ a.calls }) (radio.uptime_ticks (a.calls))

  unfoldable pub anchor_on_event : Anchor → UwbEvent → Option (ℕ × Anchor)
  anchor_on_event a UwbEvent.packet_received = do (_, b) ← handle_rx_packet a; anchor_continue b
  anchor_on_event a event = anchor_continue a

  abbrev pub uwb_anchor_algorithm : UwbAlgorithm Anchor
  uwb_anchor_algorithm = record { init = anchor_init; on_event = anchor_on_event }
