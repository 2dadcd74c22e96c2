-- ===== src/Uwb/Tag/Total.antt =====
-- That the tag answers every event, within its objects.
use tdoa.Base.{
  ℕ, ◌%◌, ◌^◌, ◌≡◌, refl, some, List, ◌∷◌, arith, length, take, drop, from_le, length-take,
}
use tdoa.Uwb.Types.{UwbEvent, timeout_maximum}
use tdoa.Uwb.Mac.{packet_size}
use tdoa.Uwb.Radio.{Call, Radio, IsSound}
use tdoa.Uwb.Tag.{Tag, Sighting, decode, receive, tag_on_event}
use tdoa.Uwb.Tag.Receive.{receive_run, laid_over}

decode_total : (m : List ℕ) → length m ≡ packet_size → (seen : Sighting) × (decode m ≡ some seen)
unfolding decode
decode_total m l = (
  record {
    src = take 8 (drop 13 m);
    x = from_le (take 4 (drop 21 m));
    y = from_le (take 4 (drop 25 m));
  },
  ground arith,
)

module _ (radio : Radio) (ok : IsSound radio) where
  receive_total :
      (t : Tag)
      → length t.rx_packet ≡ packet_size
      → (t' : Tag) × (receive radio t ≡ some t')
        × (length t'.rx_packet ≡ packet_size)
        × (t'.config ≡ t.config)
  receive_total t l =
      let n = radio.frame_info t.calls % 2 ^ 7 in
      let got = take n (radio.rx_data (Call.read_frame_info ∷ t.calls) n) in
      let (w, l') =
        laid_over t.rx_packet got l
          (omega (arith, length-take n (radio.rx_data (Call.read_frame_info ∷ t.calls) n))) in
      (_, receive_run radio t n refl (omega arith) w, l', refl)

  -- Every event is answered by the longest wait.
  pub tag_on_event_total :
      (t : Tag) (event : UwbEvent)
      → length t.rx_packet ≡ packet_size
      → (t' : Tag) × (tag_on_event radio t event ≡ some (timeout_maximum, t'))
        × (length t'.rx_packet ≡ packet_size)
        × (t'.config ≡ t.config)
  unfolding tag_on_event
  tag_on_event_total t UwbEvent.packet_received l =
      let (t', e, l', same) = receive_total t l in
      let (seen, d) = decode_total t'.rx_packet l' in (t', rw e (rw d refl), l', same)
  tag_on_event_total t UwbEvent.timeout l = (_, refl, l, refl)
  tag_on_event_total t UwbEvent.packet_sent l = (_, refl, l, refl)
  tag_on_event_total t UwbEvent.receive_timeout l = (_, refl, l, refl)
  tag_on_event_total t UwbEvent.receive_failed l = (_, refl, l, refl)
