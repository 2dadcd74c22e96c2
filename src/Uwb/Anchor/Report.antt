-- ===== src/Uwb/Anchor/Report.antt =====
-- `handle_rx_packet`: what it reports of a frame.
use tdoa.Base.{
  ℕ, ◌+◌, ◌-◌, ◌*◌, ◌%◌, ◌^◌, ◌≤◌, ◌≡◌, refl, sym, ap, ◌∙◌, some, List, [], ◌∷◌, ◌++◌, arith,
  length, take, drop, length-take, length-drop, take_all, drop-append, take-append-drop,
  append_assoc, read_at, from_le, write_at,
}
use tdoa.Uwb.Utils.{uwb_utils_timestamp_to_u64, timestamp-le_bytes}
use tdoa.Uwb.Mac.{packet_size}
use tdoa.Uwb.Radio.{Call, Calls, Radio, IsSound}
use tdoa.Uwb.Anchor.{Anchor, RxReport, receive, handle_rx_packet}
use tdoa.Uwb.Tag.Receive.{laid_over}

-- A number whose two low bytes come from elsewhere.
from_le-two : (t ys : List ℕ) → length t ≡ 2 → from_le (t ++ ys) ≡ from_le t + 2 ^ 16 * from_le ys
from_le-two [] ys l = cc
from_le-two (a ∷ []) ys l = cc
from_le-two (a ∷ b ∷ []) ys l = omega arith
from_le-two (a ∷ b ∷ c ∷ r) ys l = cc

take_eight : (t ys : List ℕ) → length t ≡ 2 → take 8 (t ++ ys) ≡ t ++ take 6 ys
take_eight [] ys l = cc
take_eight (a ∷ []) ys l = cc
take_eight (a ∷ b ∷ []) ys l = refl
take_eight (a ∷ b ∷ c ∷ r) ys l = cc

-- The last two of 23 bytes and six behind them.
straddle :
    (got behind : List ℕ)
    → length got ≡ 23
    → from_le (take 8 (drop 21 (got ++ behind)))
      ≡ from_le (drop 21 got) + 2 ^ 16 * from_le (take 6 behind)
straddle got behind l =
    let front : got ++ behind ≡ take 21 got ++ (drop 21 got ++ behind) =
      ap (λ g. g ++ behind) (sym (take-append-drop 21 got)) ∙ simp append_assoc in
    let two : length (drop 21 got) ≡ 2 = omega (arith, length-drop 21 got) in
    let cut : drop 21 (got ++ behind) ≡ drop 21 got ++ behind =
      ap (λ g. drop 21 g) front
      ∙ drop-append 21 (take 21 got) (drop 21 got ++ behind) (omega (arith, length-take 21 got)) in
    ap (λ g. from_le (take 8 g)) cut
    ∙ ap from_le (take_eight (drop 21 got) behind two)
    ∙ from_le-two (drop 21 got) (take 6 behind) two

-- What is logged of a packet with the bytes `bytes` for `sys_time`.
abbrev pub report : Anchor → ℕ → ℕ → List ℕ → RxReport
report a rx tx bytes = record {
  rx = rx;
  tx = tx;
  delta = (rx + 2 ^ 64 - tx) % 2 ^ 64;
  sys_time = from_le bytes;
  sys_time_delta = (from_le bytes + 2 ^ 64 - a.prev_sys_time) % 2 ^ 64;
}

module _ (radio : Radio) where
  pub receive_run :
      (calls : Calls) (packet : List ℕ) (n : ℕ) {packet' : List ℕ}
      → radio.frame_info calls % 2 ^ 7 ≡ n
      → n ≤ packet_size
      → write_at packet 0 (take n (radio.rx_data (Call.read_frame_info ∷ calls) n)) ≡ some packet'
      → receive radio calls packet
        ≡ some (packet', Call.read_rx_data n 0 ∷ Call.read_frame_info ∷ calls)
  unfolding receive
  receive_run calls packet n e h w = ground arith

  pub handle_rx_packet_run :
      (a : Anchor) {rx tx : ℕ} {packet bytes : List ℕ} {calls : Calls}
      → uwb_utils_timestamp_to_u64 (radio.rx_timestamp a.calls) ≡ some rx
      → uwb_utils_timestamp_to_u64 (radio.tx_timestamp (Call.read_rx_timestamp ∷ a.calls)) ≡ some tx
      → receive radio
          (Call.read_tx_timestamp ∷ Call.read_rx_timestamp ∷ a.calls)
          (radio.stack a.calls)
        ≡ some (packet, calls)
      → read_at packet 21 8 ≡ some bytes
      → handle_rx_packet radio a
        ≡ some (report a rx tx bytes, record a { prev_sys_time = from_le bytes; calls = calls })
  unfolding handle_rx_packet
  handle_rx_packet_run a e1 e2 e3 e4 = rw (e1, e2, e3, e4) refl

module _ (radio : Radio) (a : Anchor) where
  -- The calls before the frame is read.
  abbrev pub stamped : Calls
  stamped = Call.read_tx_timestamp ∷ Call.read_rx_timestamp ∷ a.calls

  -- The length that is read: the field is cut to seven bits.
  abbrev pub read_size : ℕ
  read_size = radio.frame_info stamped % 2 ^ 7

  -- The local packet after the frame is read into it.
  abbrev pub read_packet : List ℕ
  read_packet =
      let got = take read_size (radio.rx_data (Call.read_frame_info ∷ stamped) read_size) in
      got ++ drop (length got) (radio.stack a.calls)

  abbrev pub sys_time_bytes : List ℕ
  sys_time_bytes = take 8 (drop 21 read_packet)

  abbrev pub reported : Calls
  reported = Call.read_rx_data read_size 0 ∷ Call.read_frame_info ∷ stamped

module _ (radio : Radio) (ok : IsSound radio) (a : Anchor) where
  rx_read :
      uwb_utils_timestamp_to_u64 (radio.rx_timestamp a.calls) ≡ some (ok.rx_time_value a.calls)
  rx_read =
      ap uwb_utils_timestamp_to_u64 (ok.rx_time_bytes a.calls)
      ∙ timestamp-le_bytes (ok.rx_time_value a.calls) (ok.rx_time-lt a.calls)

  tx_read :
      let c = Call.read_rx_timestamp ∷ a.calls in
      uwb_utils_timestamp_to_u64 (radio.tx_timestamp c) ≡ some (ok.tx_time_value c)
  tx_read =
      let c = Call.read_rx_timestamp ∷ a.calls in
      ap uwb_utils_timestamp_to_u64 (ok.tx_time_bytes c)
      ∙ timestamp-le_bytes (ok.tx_time_value c) (ok.tx_time-lt c)

  read_packet_lem :
      let n = read_size radio a in
      (write_at
          (radio.stack a.calls)
          0
          (take n (radio.rx_data (Call.read_frame_info ∷ stamped radio a) n))
        ≡ some (read_packet radio a))
      × (length (read_packet radio a) ≡ packet_size)
  read_packet_lem =
      let n = read_size radio a in
      let stream = radio.rx_data (Call.read_frame_info ∷ stamped radio a) n in
      laid_over (radio.stack a.calls) (take n stream) (ok.length-stack a.calls)
        (omega (arith, length-take n stream))

  pub handle_rx_packet_lem :
      handle_rx_packet radio a
      ≡ some (
        report a
            (ok.rx_time_value a.calls)
            (ok.tx_time_value (Call.read_rx_timestamp ∷ a.calls))
            (sys_time_bytes radio a),
        record a { prev_sys_time = from_le (sys_time_bytes radio a); calls = reported radio a },
      )
  handle_rx_packet_lem =
      let (w, l) = read_packet_lem in
      let bytes : read_at (read_packet radio a) 21 8 ≡ some (sys_time_bytes radio a) =
        ground arith in
      handle_rx_packet_run radio a rx_read tx_read
        (receive_run radio (stamped radio a) (radio.stack a.calls) (read_size radio a) refl
          (omega arith) w)
        bytes

  -- Over a sound driver, of a frame of 151 bytes, the size of every packet of the anchors, 23 are
  -- read over a local packet that nothing has set: the two clocks are reported as they are, but
  -- the number that is reported and kept as the other anchor's time has two bytes that were
  -- received below six that the stack happened to hold.
  pub handle_rx_packet_stale :
      radio.frame_info (stamped radio a) % 2 ^ 10 ≡ packet_size
      → let received = radio.rx_data (Call.read_frame_info ∷ stamped radio a) 23 in
        (r : RxReport) × (b : Anchor) × (handle_rx_packet radio a ≡ some (r, b))
        × (r.rx ≡ ok.rx_time_value a.calls)
        × (r.tx ≡ ok.tx_time_value (Call.read_rx_timestamp ∷ a.calls))
        × (r.sys_time
            ≡ from_le (drop 21 received)
              + 2 ^ 16 * from_le (take 6 (drop 23 (radio.stack a.calls))))
        × (b.prev_sys_time ≡ r.sys_time)
        × (b.calls ≡ Call.read_rx_data 23 0 ∷ Call.read_frame_info ∷ stamped radio a)
  handle_rx_packet_stale e =
      let received = radio.rx_data (Call.read_frame_info ∷ stamped radio a) 23 in
      let l = ok.length-rx_data (Call.read_frame_info ∷ stamped radio a) 23 in
      let short : read_size radio a ≡ 23 = omega (arith, e) in
      let whole : take 23 received ≡ received = take_all 23 received (omega (arith, l)) in
      let filled : read_packet radio a ≡ received ++ drop 23 (radio.stack a.calls) =
        ap
          (λ n.
            let got = take n (radio.rx_data (Call.read_frame_info ∷ stamped radio a) n) in
            got ++ drop (length got) (radio.stack a.calls))
          short
        ∙ ap (λ g. g ++ drop (length g) (radio.stack a.calls)) whole
        ∙ ap (λ n. received ++ drop n (radio.stack a.calls)) l in
      (
        _,
        _,
        handle_rx_packet_lem,
        refl,
        refl,
        ap (λ p. from_le (take 8 (drop 21 p))) filled
            ∙ straddle received (drop 23 (radio.stack a.calls)) l,
        refl,
        ap (λ n. Call.read_rx_data n 0 ∷ Call.read_frame_info ∷ stamped radio a) short,
      )
