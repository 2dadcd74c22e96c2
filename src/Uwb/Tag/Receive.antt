-- ===== src/Uwb/Tag/Receive.antt =====
-- How much of a packet the tag reads.
use tdoa.Base.{
  write_front, ℕ, ◌%◌, ◌^◌, ◌≤◌, ◌≡◌, refl, sym, ap, ◌∙◌, some, List, ◌∷◌, ◌++◌, arith, length,
  take, drop, length-append, length-take, length-drop, drop-append, write_at,
}
use tdoa.Uwb.Mac.{packet_size}
use tdoa.Uwb.Device.{start_rx_immediate}
use tdoa.Uwb.Radio.{Call, Radio, IsSound}
use tdoa.Uwb.Tag.{Tag, receive}

-- The bytes that are read, laid over an object of a packet's size.
pub laid_over :
    (m got : List ℕ)
    → length m ≡ packet_size
    → length got ≤ packet_size
    → (write_at m 0 got ≡ some (got ++ drop (length got) m))
      × (length (got ++ drop (length got) m) ≡ packet_size)
laid_over m got l h = (
  write_front m got (omega arith),
  omega (arith, length-append got (drop (length got) m), length-drop (length got) m),
)

module _ (radio : Radio) (t : Tag) where
  pub receive_run :
      (n : ℕ) {packet : List ℕ}
      → radio.frame_info t.calls % 2 ^ 7 ≡ n
      → n ≤ packet_size
      → write_at t.rx_packet 0 (take n (radio.rx_data (Call.read_frame_info ∷ t.calls) n))
        ≡ some packet
      → receive radio t
        ≡ some (record t {
          rx_packet = packet;
          calls =
              Call.rx_enable start_rx_immediate
              ∷ Call.read_rx_data n 0
              ∷ Call.read_frame_info
              ∷ t.calls;
        })
  unfolding receive
  receive_run n e h w = ground arith

  -- Of a frame of 151 bytes, the size of every packet of the anchor, the tag reads 23, since the
  -- length is cut to seven bits: the bytes behind stay as they were, and the receiver is turned
  -- on again.
  pub receive_truncates :
      IsSound radio
      → radio.frame_info t.calls % 2 ^ 10 ≡ packet_size
      → length t.rx_packet ≡ packet_size
      → (t' : Tag) × (receive radio t ≡ some t')
        × (drop 23 t'.rx_packet ≡ drop 23 t.rx_packet)
        × (length t'.rx_packet ≡ packet_size)
        × (t'.calls
            ≡ Call.rx_enable start_rx_immediate
              ∷ Call.read_rx_data 23 0
              ∷ Call.read_frame_info
              ∷ t.calls)
  receive_truncates ok e l =
      let got = take 23 (radio.rx_data (Call.read_frame_info ∷ t.calls) 23) in
      let size : length got ≡ 23 = omega (
        arith,
        length-take 23 (radio.rx_data (Call.read_frame_info ∷ t.calls) 23),
        ok.length-rx_data (Call.read_frame_info ∷ t.calls) 23,
      ) in
      let packet = got ++ drop 23 t.rx_packet in
      (
        record t {
          rx_packet = packet;
          calls =
              Call.rx_enable start_rx_immediate
              ∷ Call.read_rx_data 23 0
              ∷ Call.read_frame_info
              ∷ t.calls;
        },
        receive_run 23 (omega arith) (omega arith) (
            write_front t.rx_packet got (omega arith)
            ∙ ap (λ k. some (got ++ drop k t.rx_packet)) size),
        drop-append 23 got (drop 23 t.rx_packet) (sym size),
        omega (arith, length-append got (drop 23 t.rx_packet), length-drop 23 t.rx_packet),
        refl,
      )
