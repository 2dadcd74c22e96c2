-- ===== src/Uwb/Anchor/Send.antt =====
-- `send_tx_packet`, and the branch of `start_next_event` that calls it.
use tdoa.Base.{
  ℕ, ◌+◌, ◌*◌, ◌%◌, ◌^◌, ◌≤◌, ◌<◌, ◌≡◌, refl, ap, ◌∙◌, some, inl, inr, ◌⊎◌, List, [], ◌∷◌, ◌++◌,
  arith, length, Bool-cases, if◌then◌else◌, ℤ, pos, neg, is_zero,
}
use tdoa.Uwb.Types.{UwbConfig}
use tdoa.Uwb.Utils.{uwb_utils_timestamp_to_u64, timestamp-le_bytes}
use tdoa.Uwb.Mac.{packet_size}
use tdoa.Uwb.Device.{start_tx_delayed}
use tdoa.Uwb.Radio.{Call, Calls, Radio, IsSound}
use tdoa.Uwb.Anchor.{
  Anchor, delayed_time, fill_packet, read_clock, start_sending, send_tx_packet, start_next_event,
  time_left,
}
use tdoa.Uwb.Anchor.Packet.{parts, sent, fill_packet_lem}
use tdoa.Uwb.Anchor.Schedule.{drawn, delay_of, start_next_event_sends}

-- The time given to the driver is the wanted time on the 40-bit clock of the device, which wraps,
-- without its low eight bits.
pub delayed_time_lem :
    (start : ℕ)
    → start < 2 ^ 40
    → (delayed_time start * 256 ≤ (start + 2000000000) % 2 ^ 40)
      × ((start + 2000000000) % 2 ^ 40 < delayed_time start * 256 + 256)
unfolding delayed_time
delayed_time_lem start h = (omega arith, omega arith)

module _ (radio : Radio) (ok : IsSound radio) where
  read_clock_lem :
      (c : Calls) → read_clock radio c ≡ some (ok.sys_time_value c, Call.read_sys_time ∷ c)
  unfolding read_clock
  read_clock_lem c =
      let t : uwb_utils_timestamp_to_u64 (radio.sys_time c) ≡ some (ok.sys_time_value c) =
        ap uwb_utils_timestamp_to_u64 (ok.sys_time_bytes c)
        ∙ timestamp-le_bytes (ok.sys_time_value c) (ok.sys_time-lt c) in
      ground arith

  start_sending_lem :
      (c : Calls)
      → let framed = Call.write_tx_fctrl packet_size 0 1 ∷ c in
        start_sending radio c
        ≡ some (
            if is_zero (radio.start_result framed)
            then (pos 0, Call.read_sys_time ∷ Call.start_tx start_tx_delayed ∷ framed)
            else (neg 2, Call.start_tx start_tx_delayed ∷ framed))
  unfolding start_sending
  start_sending_lem c = ground (
    arith,
    read_clock_lem (Call.start_tx start_tx_delayed ∷ Call.write_tx_fctrl packet_size 0 1 ∷ c),
  )

  module _ (config : UwbConfig) (has : length config.address ≡ 8) (c : Calls) where
    -- The calls before the packet is built.
    abbrev pub timed : Calls
    timed = Call.set_delayed_trx_time (delayed_time (ok.sys_time_value c)) ∷ Call.read_sys_time ∷ c

    abbrev pub packet : List ℕ
    packet = sent (radio.stack timed) config (parts (radio.stack timed) (ok.length-stack timed)) has

    abbrev pub loaded : Calls
    loaded = Call.write_tx_data packet_size packet 0 ∷ timed

    abbrev pub framed : Calls
    framed = Call.write_tx_fctrl packet_size 0 1 ∷ loaded

    filled : fill_packet (radio.stack timed) config ≡ some packet
    filled =
        fill_packet_lem (radio.stack timed) config
          (parts (radio.stack timed) (ok.length-stack timed)) has

    -- `send_tx_packet` on all its branches: the start time, the packet, and, if the driver takes
    -- the packet, the start; the result names the call that failed.
    pub send_tx_packet_lem :
        send_tx_packet radio config c
        ≡ some (
            if is_zero (radio.write_result timed)
            then if is_zero (radio.start_result framed)
              then (pos 0, Call.read_sys_time ∷ Call.start_tx start_tx_delayed ∷ framed)
              else (neg 2, Call.start_tx start_tx_delayed ∷ framed)
            else (neg 1, loaded))
    unfolding send_tx_packet
    send_tx_packet_lem = ground (arith, read_clock_lem c, filled, start_sending_lem loaded)

  -- The last calls of a sending: none if the driver does not take the packet, else its frame and
  -- the start, and the clock again if the driver starts.
  abbrev pub AreLast : List Call → Type 0
  AreLast more =
      (more ≡ [])
      ⊎ ((more ≡ Call.start_tx start_tx_delayed ∷ Call.write_tx_fctrl packet_size 0 1 ∷ [])
          ⊎ (more
              ≡ Call.read_sys_time
                ∷ Call.start_tx start_tx_delayed
                ∷ Call.write_tx_fctrl packet_size 0 1
                ∷ []))

  -- The calls of a sending that the driver may cut short.
  pub record Sent (c : Calls) (config : UwbConfig) (calls : Calls) : Type 0 where
    pub start : ℕ
    pub bytes : List ℕ
    pub more : List Call
    pub last : AreLast more
    pub filled_in : (stack : List ℕ) × (fill_packet stack config ≡ some bytes)
    pub order :
        calls
        ≡ more
          ++ (Call.write_tx_data packet_size bytes 0
              ∷ Call.set_delayed_trx_time (delayed_time start)
              ∷ Call.read_sys_time
              ∷ c)

  Sent-with :
      (config : UwbConfig) (has : length config.address ≡ 8) (c : Calls) (more : List Call)
      → AreLast more
      → Sent c config (more ++ loaded config has c)
  Sent-with config has c more last = record {
    start = ok.sys_time_value c;
    bytes = packet config has c;
    more = more;
    last = last;
    filled_in = (radio.stack (timed config has c), filled config has c);
    order = refl;
  }

  pub send_tx_packet-Sent :
      (config : UwbConfig) (c : Calls)
      → length config.address ≡ 8
      → (r : ℤ) × (calls : Calls) × (send_tx_packet radio config c ≡ some (r, calls))
        × Sent c config calls
  send_tx_packet-Sent config c has =
      let lem = send_tx_packet_lem config has c in
      let control = Call.write_tx_fctrl packet_size 0 1 in
      let start = Call.start_tx start_tx_delayed in
      elim (Bool-cases (is_zero (radio.write_result (timed config has c)))) [
        | inr e ↦
            (neg 1, loaded config has c, lem ∙ ground arith, Sent-with config has c [] (inl refl))
        | inl e ↦ elim (Bool-cases (is_zero (radio.start_result (framed config has c)))) [
          | inr f ↦ (
            neg 2,
            start ∷ framed config has c,
            lem ∙ ground arith,
            Sent-with config has c (start ∷ control ∷ []) (inr (inl refl)),
          )
          | inl f ↦ (
            pos 0,
            Call.read_sys_time ∷ start ∷ framed config has c,
            lem ∙ ground arith,
            Sent-with config has c (Call.read_sys_time ∷ start ∷ control ∷ []) (inr (inr refl)),
          )
        ]
      ]

  -- Once its time has passed the anchor draws a delay, hands a packet to the driver, whatever
  -- that says of it, and sets the next time by the delay, in 32 bits.
  pub start_next_event-Sent :
      (a : Anchor) (current : ℕ)
      → length (a.config.address) ≡ 8
      → a.next_tx_tick < current
      → (wait : ℕ) × (b : Anchor) × (start_next_event radio a current ≡ some (wait, b))
        × (b.next_tx_tick ≡ (current + radio.ms_to_ticks_floor64 (delay_of radio a)) % 2 ^ 32)
        × (wait ≡ time_left radio b.next_tx_tick current)
        × Sent (drawn radio a) a.config b.calls
  start_next_event-Sent a current has late =
      let (r, calls, e, s) = send_tx_packet-Sent a.config (drawn radio a) has in
      (_, _, start_next_event_sends radio a current late e, refl, refl, s)

  -- From tick 2 ^ 32 of the uptime on, which at 32768 Hz is after a day and a half, a stored time
  -- of 32 bits always lies in the past: with an address of eight bytes, an event sends at once,
  -- makes the calls of a sending and no others, so that the receiver stays off, and leaves such a
  -- time again.
  pub start_next_event_wrapped :
      (a : Anchor) (current : ℕ)
      → length (a.config.address) ≡ 8
      → a.next_tx_tick < 2 ^ 32
      → 2 ^ 32 ≤ current
      → (wait : ℕ) × (b : Anchor) × (start_next_event radio a current ≡ some (wait, b))
        × (b.next_tx_tick < 2 ^ 32)
        × Sent (drawn radio a) a.config b.calls
  start_next_event_wrapped a current has tick late =
      let (wait, b, e, next, _, s) = start_next_event-Sent a current has (omega arith) in
      (wait, b, e, omega (arith, next), s)
