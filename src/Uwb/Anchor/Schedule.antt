-- ===== src/Uwb/Anchor/Schedule.antt =====
-- When the anchor sends, and how long it then waits.
use tdoa.Base.{ℕ, ◌+◌, ◌%◌, ◌^◌, ◌≤◌, ◌<◌, ◌≡◌, some, ◌∷◌, arith, ℤ}
use tdoa.Uwb.Device.{start_rx_immediate}
use tdoa.Uwb.Radio.{Call, Calls, Radio}
use tdoa.Uwb.Anchor.{
  Anchor, send_tx_packet, randomize_delay_to_next_tx, time_left, send_and_schedule,
  start_next_event,
}

module _ (radio : Radio) where
  -- The delay drawn is from 195 to 204 milliseconds, whatever the random number.
  pub randomize_delay_bounds :
      (calls : Calls)
      → (195 ≤ (randomize_delay_to_next_tx radio calls).0)
        × ((randomize_delay_to_next_tx radio calls).0 ≤ 204)
  unfolding randomize_delay_to_next_tx
  randomize_delay_bounds calls = (omega arith, omega arith)

  -- Until its time to send has passed the anchor listens, waits for what is left and keeps the
  -- time.
  pub start_next_event_waits :
      (a : Anchor) (current : ℕ)
      → current ≤ a.next_tx_tick
      → start_next_event radio a current
        ≡ some (
          time_left radio a.next_tx_tick current,
          record a { calls = Call.rx_enable start_rx_immediate ∷ Call.force_trx_off ∷ a.calls },
        )
  unfolding start_next_event
  start_next_event_waits a current h = ground arith

  -- The state after the drawing of the delay.
  abbrev pub drawn : Anchor → Calls
  drawn a = (randomize_delay_to_next_tx radio (Call.force_trx_off ∷ a.calls)).1

  abbrev pub delay_of : Anchor → ℕ
  delay_of a = (randomize_delay_to_next_tx radio (Call.force_trx_off ∷ a.calls)).0

  pub start_next_event_sends :
      (a : Anchor) (current : ℕ) {r : ℤ} {calls : Calls}
      → a.next_tx_tick < current
      → send_tx_packet radio a.config (drawn a) ≡ some (r, calls)
      → start_next_event radio a current
        ≡ some (
          time_left radio ((current + radio.ms_to_ticks_floor64 (delay_of a)) % 2 ^ 32) current,
          record a {
            next_tx_tick = (current + radio.ms_to_ticks_floor64 (delay_of a)) % 2 ^ 32;
            calls = calls;
          },
        )
  unfolding start_next_event send_and_schedule
  start_next_event_sends a current h e = ground arith
