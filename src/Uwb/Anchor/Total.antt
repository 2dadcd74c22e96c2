-- ===== src/Uwb/Anchor/Total.antt =====
-- That the anchor answers every event, within its objects.
use tdoa.Base.{ℕ, ◌≡◌, refl, some, inl, inr, ◌∷◌, length, ltb, Bool-cases, ltb→lt, ltb→le, from_le}
use tdoa.Uwb.Types.{UwbEvent}
use tdoa.Uwb.Radio.{Call, Radio, IsSound}
use tdoa.Uwb.Anchor.{Anchor, start_next_event, anchor_continue, anchor_on_event}
use tdoa.Uwb.Anchor.Schedule.{start_next_event_waits, start_next_event_sends, drawn}
use tdoa.Uwb.Anchor.Send.{send_tx_packet-Sent}
use tdoa.Uwb.Anchor.Report.{sys_time_bytes, reported, handle_rx_packet_lem}

module _ (radio : Radio) (ok : IsSound radio) where
  start_next_event_total :
      (a : Anchor) (current : ℕ)
      → length a.config.address ≡ 8
      → (wait : ℕ) × (b : Anchor) × (start_next_event radio a current ≡ some (wait, b))
        × (b.config ≡ a.config)
  start_next_event_total a current has = elim (Bool-cases (ltb a.next_tx_tick current)) [
    | inl late ↦
        let (r, calls, e, _) = send_tx_packet-Sent radio ok a.config (drawn radio a) has in
        (_, _, start_next_event_sends radio a current (ltb→lt a.next_tx_tick current late) e, refl)
    | inr early ↦
        (_, _, start_next_event_waits radio a current (ltb→le a.next_tx_tick current early), refl)
  ]

  anchor_continue_total :
      (a : Anchor)
      → length a.config.address ≡ 8
      → (wait : ℕ) × (b : Anchor) × (anchor_continue radio a ≡ some (wait, b))
        × (b.config ≡ a.config)
  unfolding anchor_continue
  anchor_continue_total a has =
      start_next_event_total (record a { calls = Call.uptime ∷ a.calls })
        (radio.uptime_ticks a.calls) has

  -- Every event is answered, and none changes the configuration.
  pub anchor_on_event_total :
      (a : Anchor) (event : UwbEvent)
      → length a.config.address ≡ 8
      → (wait : ℕ) × (b : Anchor) × (anchor_on_event radio a event ≡ some (wait, b))
        × (b.config ≡ a.config)
  unfolding anchor_on_event
  anchor_on_event_total a UwbEvent.packet_received has =
      let e = handle_rx_packet_lem radio ok a in
      let b = record a {
        prev_sys_time = from_le (sys_time_bytes radio a);
        calls = reported radio a;
      } in
      let (wait, c, f, kept) = anchor_continue_total b has in (wait, c, rw e f, kept)
  anchor_on_event_total a UwbEvent.timeout has = anchor_continue_total a has
  anchor_on_event_total a UwbEvent.packet_sent has = anchor_continue_total a has
  anchor_on_event_total a UwbEvent.receive_timeout has = anchor_continue_total a has
  anchor_on_event_total a UwbEvent.receive_failed has = anchor_continue_total a has
