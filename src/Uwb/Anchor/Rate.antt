-- ===== src/Uwb/Anchor/Rate.antt =====
-- How often the anchor sends: the times of its packets, as its log tells them.
use tdoa.Base.{
  ℕ, ◌+◌, ◌%◌, ◌^◌, ◌≤◌, ◌<◌, ◌≡◌, some, inl, inr, List, [], ◌∷◌, arith, length, Bool-cases, ltb,
  ltb→lt, ltb→le, ℤ, from_le,
}
use tdoa.Uwb.Types.{UwbConfig, UwbEvent}
use tdoa.Uwb.Radio.{Call, Calls, Radio, IsSound}
use tdoa.Uwb.Anchor.{
  Anchor, send_tx_packet, randomize_delay_to_next_tx, anchor_continue, anchor_on_event,
}
use tdoa.Uwb.Anchor.Schedule.{
  randomize_delay_bounds, start_next_event_waits, start_next_event_sends, drawn, delay_of,
}
use tdoa.Uwb.Anchor.Send.{send_tx_packet_lem}
use tdoa.Uwb.Anchor.Report.{sys_time_bytes, reported, handle_rx_packet_lem}

module _ (radio : Radio) where
  -- What the last reading of the uptime gave.
  unfoldable pub last_uptime : Calls → ℕ
  last_uptime [] = 0
  last_uptime (Call.uptime ∷ c) = radio.uptime_ticks c
  last_uptime (call ∷ c) = last_uptime c

  -- For each packet that was handed to the driver the uptime of its event, the last one first.
  unfoldable pub sent_at : Calls → List ℕ
  sent_at [] = []
  sent_at (Call.write_tx_data n bytes offset ∷ c) = last_uptime c ∷ sent_at c
  sent_at (call ∷ c) = sent_at c

-- The clock of Zephyr: more milliseconds are not fewer ticks, and the uptime and the longest delay
-- stay within 32 bits.
pub record IsTimely (radio : Radio) : Type 0 where
  pub ticks_monotone : (m n : ℕ) → m ≤ n → radio.ms_to_ticks_floor64 m ≤ radio.ms_to_ticks_floor64 n
  pub uptime-lt : (c : Calls) → radio.uptime_ticks c + radio.ms_to_ticks_floor64 204 < 2 ^ 32

-- Each of the times comes more than `gap` after the one before it.
unfoldable pub IsSpaced : ℕ → List ℕ → Type 0
IsSpaced gap [] = Unit
IsSpaced gap (t ∷ []) = Unit
IsSpaced gap (t ∷ u ∷ ts) = (u + gap < t) × IsSpaced gap (u ∷ ts)

-- After the last of them `gap` ticks pass before the time `next`.
unfoldable pub IsDue : ℕ → List ℕ → ℕ → Type 0
IsDue gap [] next = Unit
IsDue gap (t ∷ ts) next = t + gap ≤ next

-- And no more than `gap` pass; before the first packet the time is 0.
unfoldable pub IsSoon : ℕ → List ℕ → ℕ → Type 0
IsSoon gap [] next = next ≡ 0
IsSoon gap (t ∷ ts) next = next ≤ t + gap

-- Since the last of them, if there was one, more than `gap` ticks have passed.
unfoldable pub IsOverdue : ℕ → List ℕ → ℕ → Type 0
IsOverdue gap [] now = 0 < now
IsOverdue gap (t ∷ ts) now = t + gap < now

pub IsOverdue-IsSoon :
    (gap : ℕ) (ts : List ℕ) (next now : ℕ) → IsSoon gap ts next → IsOverdue gap ts now → next < now
unfolding IsSoon IsOverdue
IsOverdue-IsSoon gap [] next now s o = omega arith
IsOverdue-IsSoon gap (t ∷ ts) next now s o = omega arith

IsSpaced-IsDue :
    (gap : ℕ) (ts : List ℕ) (next now : ℕ)
    → IsSpaced gap ts
    → IsDue gap ts next
    → next < now
    → IsSpaced gap (now ∷ ts)
unfolding IsSpaced IsDue
IsSpaced-IsDue gap [] next now s d h = tt
IsSpaced-IsDue gap (t ∷ ts) next now s d h = (omega arith, s)

module _ (radio : Radio) (ok : IsSound radio) where
  -- A sending hands one packet to the driver, whatever that says of it.
  send_tx_packet-sent_at :
      (config : UwbConfig) (c : Calls)
      → length config.address ≡ 8
      → (r : ℤ) × (calls : Calls) × (send_tx_packet radio config c ≡ some (r, calls))
        × (sent_at radio calls ≡ last_uptime radio c ∷ sent_at radio c)
  unfolding sent_at last_uptime
  send_tx_packet-sent_at config c has =
      (_, _, send_tx_packet_lem radio ok config has c, ground arith)

  module _ (timely : IsTimely radio) where
    abbrev shortest : ℕ
    shortest = radio.ms_to_ticks_floor64 195

    abbrev longest : ℕ
    longest = radio.ms_to_ticks_floor64 204

    -- The packets so far are spaced, and the next is due between the shortest and the longest delay
    -- after the last.
    pub record Paces (a : Anchor) : Type 0 where
      pub has_address : length a.config.address ≡ 8
      pub spaced : IsSpaced shortest (sent_at radio a.calls)
      pub due : IsDue shortest (sent_at radio a.calls) a.next_tx_tick
      pub soon : IsSoon longest (sent_at radio a.calls) a.next_tx_tick

    -- Once the time has passed, a packet is sent at this uptime.
    pub anchor_continue-sends :
        (a : Anchor)
        → Paces a
        → a.next_tx_tick < radio.uptime_ticks a.calls
        → (wait : ℕ) × (b : Anchor) × (anchor_continue radio a ≡ some (wait, b))
          × (sent_at radio b.calls ≡ radio.uptime_ticks a.calls ∷ sent_at radio a.calls)
          × Paces b
    unfolding anchor_continue randomize_delay_to_next_tx sent_at last_uptime IsDue IsSoon
    anchor_continue-sends a h passed =
        let now = radio.uptime_ticks a.calls in
        let timed = record a { calls = Call.uptime ∷ a.calls } in
        let (least, most) = randomize_delay_bounds radio (Call.force_trx_off ∷ timed.calls) in
        let low = timely.ticks_monotone 195 (delay_of radio timed) least in
        let high = timely.ticks_monotone (delay_of radio timed) 204 most in
        let (r, calls, e, sent) =
          send_tx_packet-sent_at a.config (drawn radio timed) h.has_address in
        let sent : sent_at radio calls ≡ now ∷ sent_at radio a.calls = sent in
        let next = (now + radio.ms_to_ticks_floor64 (delay_of radio timed)) % 2 ^ 32 in
        let due : now + shortest ≤ next = omega (arith, low, high, timely.uptime-lt a.calls) in
        let soon : next ≤ now + longest = omega (arith, high, timely.uptime-lt a.calls) in
        (
          _,
          _,
          start_next_event_sends radio timed now passed e,
          sent,
          record {
            has_address = h.has_address;
            spaced = rw sent (
                IsSpaced-IsDue shortest (sent_at radio a.calls) a.next_tx_tick now h.spaced h.due
                  passed);
            due = rw sent due;
            soon = rw sent soon;
          },
        )

    anchor_continue-Paces :
        (a : Anchor)
        → Paces a
        → (wait : ℕ) × (b : Anchor) × (anchor_continue radio a ≡ some (wait, b)) × Paces b
    unfolding anchor_continue sent_at
    anchor_continue-Paces a h =
        let now = radio.uptime_ticks a.calls in
        elim (Bool-cases (ltb a.next_tx_tick now)) [
          | inl late ↦
              let (wait, b, e, _, k) = anchor_continue-sends a h (ltb→lt a.next_tx_tick now late) in
              (wait, b, e, k)
          | inr early ↦ (
            _,
            _,
            start_next_event_waits radio (record a { calls = Call.uptime ∷ a.calls }) now
                (ltb→le a.next_tx_tick now early),
            record { has_address = h.has_address; spaced = h.spaced; due = h.due; soon = h.soon },
          )
        ]

    pub anchor_on_event-Paces :
        (a : Anchor) (event : UwbEvent)
        → Paces a
        → (wait : ℕ) × (b : Anchor) × (anchor_on_event radio a event ≡ some (wait, b)) × Paces b
    unfolding anchor_on_event sent_at
    anchor_on_event-Paces a UwbEvent.packet_received h =
        let e = handle_rx_packet_lem radio ok a in
        let b = record a {
          prev_sys_time = from_le (sys_time_bytes radio a);
          calls = reported radio a;
        } in
        let k : Paces b = record {
          has_address = h.has_address;
          spaced = h.spaced;
          due = h.due;
          soon = h.soon;
        } in
        let (wait, c, f, k') = anchor_continue-Paces b k in (wait, c, rw e f, k')
    anchor_on_event-Paces a UwbEvent.timeout h = anchor_continue-Paces a h
    anchor_on_event-Paces a UwbEvent.packet_sent h = anchor_continue-Paces a h
    anchor_on_event-Paces a UwbEvent.receive_timeout h = anchor_continue-Paces a h
    anchor_on_event-Paces a UwbEvent.receive_failed h = anchor_continue-Paces a h
