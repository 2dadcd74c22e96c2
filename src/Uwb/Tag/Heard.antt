-- ===== src/Uwb/Tag/Heard.antt =====
-- A packet of the anchor as the tag receives and reads it.
use tdoa.Base.{
  write_front, some_inj, ℕ, ◌%◌, ◌^◌, ◌≡◌, refl, sym, ap, ap₂, ◌∙◌, some, List, [], ◌∷◌, ◌++◌,
  arith, length, take, drop, length-append, length-take, take_all, take-append, take-append-drop,
  append_assoc, read_at, read_at_split, replicate, from_le, write_at,
}
use tdoa.Uwb.Types.{UwbConfig, UwbEvent, timeout_maximum}
use tdoa.Uwb.Mac.{packet_size}
use tdoa.Uwb.Device.{start_rx_immediate}
use tdoa.Uwb.Radio.{Call, Radio}
use tdoa.Uwb.Anchor.{fill_packet}
use tdoa.Uwb.Anchor.Packet.{Parts, parts, sent, fill_packet_lem, sent-Parts}
use tdoa.Uwb.Tag.{Tag, decode, tag_on_event}
use tdoa.Uwb.Tag.Decode.{before, length-before, behind, decode_lem}
use tdoa.Uwb.Tag.Receive.{receive_run}

-- The first two bytes of a payload, over zeros, as the numbers of a position.
from_le-two :
    (t : List ℕ)
    → length t ≡ 2
    → (from_le (take 4 (t ++ replicate 6 0)) ≡ from_le t)
      × (from_le (drop 4 (t ++ replicate 6 0)) ≡ 0)
from_le-two [] l = cc
from_le-two (a ∷ []) l = cc
from_le-two (a ∷ b ∷ []) l = (omega arith, omega arith)
from_le-two (a ∷ b ∷ c ∷ r) l = cc

module _ (m : List ℕ) (s : Parts m) where
  abbrev two : List ℕ
  two = take 2 s.sys_time

  length-two : length two ≡ 2
  length-two = omega (arith, length-take 2 s.sys_time, s.length-sys_time)

  opened : m ≡ before m s ++ (two ++ (drop 2 s.sys_time ++ behind m s))
  opened =
      s.whole
      ∙ ap (λ t. s.control ++ (s.header ++ (s.src ++ (t ++ behind m s))))
          (sym (take-append-drop 2 s.sys_time))
      ∙ simp append_assoc

  two_read : read_at m 21 2 ≡ some two
  two_read =
      read_at_split m (before m s) two (drop 2 s.sys_time ++ behind m s) 21 2 opened
        (sym (length-before m s)) (sym length-two)

  -- What of the packet arrives.
  take_heard : take 23 m ≡ before m s ++ two
  take_heard =
      ap (λ b. take 23 b) (opened ∙ simp append_assoc)
      ∙ take-append 23 (before m s ++ two) (drop 2 s.sys_time ++ behind m s)
          (omega (arith, length-append (before m s) two, length-before m s, length-two))

  length-take_heard : length (take 23 m) ≡ 23
  length-take_heard =
      omega
        (arith, ap length take_heard, length-append (before m s) two, length-before m s, length-two)

  abbrev heard : List ℕ
  heard = take 23 m ++ replicate 128 0

  abbrev heard-Parts : Parts heard
  heard-Parts = record {
    control = s.control;
    header = s.header;
    src = s.src;
    sys_time = two ++ replicate 6 0;
    x = replicate 4 0;
    y = replicate 4 0;
    rest = replicate 114 0;
    whole = ap (λ b. b ++ replicate 128 0) take_heard ∙ simp append_assoc;
    length-control = s.length-control;
    length-header = s.length-header;
    length-src = s.length-src;
    length-sys_time = omega (arith, length-append two (replicate 6 0), length-two);
    length-x = refl;
    length-y = refl;
    length-rest = refl;
  }

  heard_written :
      (memory got : List ℕ)
      → memory ≡ replicate packet_size 0
      → got ≡ take 23 m
      → write_at memory 0 got ≡ some heard
  heard_written memory got empty same =
      ap₂ (λ a b. write_at a 0 b) empty same
      ∙ write_front (replicate packet_size 0) (take 23 m) (omega (arith, length-take_heard))
      ∙ ap (λ k. some (take 23 m ++ drop k (replicate packet_size 0))) length-take_heard

  decode-heard : decode heard ≡ some (record { src = s.src; x = from_le two; y = 0 })
  decode-heard =
      let (low, high) = from_le-two two length-two in
      decode_lem heard heard-Parts
      ∙ ap₂ (λ x y. some (record { src = s.src; x = x; y = y })) low high

module _ (radio : Radio) (t : Tag) (stack : List ℕ) (config : UwbConfig)
    (l : length stack ≡ packet_size) (has : length config.address ≡ 8) (packet low : List ℕ)
    (filled : fill_packet stack config ≡ some packet) (first_two : read_at stack 21 2 ≡ some low)
    (empty : t.rx_packet ≡ replicate packet_size 0)
    (size : radio.frame_info t.calls % 2 ^ 10 ≡ packet_size)
    (delivered : radio.rx_data (Call.read_frame_info ∷ t.calls) 23 ≡ take 23 packet) where
  -- A packet that an anchor filled in, and that arrives unchanged as the first one of a tag: the tag
  -- answers with the longest wait and reports the anchor's address, but 0 for y, and for x the two
  -- bytes that the anchor's memory held at the start of the payload, whatever the anchor's position.
  pub tag_on_event-fill_packet :
      (t' : Tag) × (tag_on_event radio t UwbEvent.packet_received ≡ some (timeout_maximum, t'))
      × (decode t'.rx_packet ≡ some (record { src = config.address; x = from_le low; y = 0 }))
  unfolding tag_on_event
  tag_on_event-fill_packet =
      let s = parts stack l in
      let m = sent stack config s has in
      let q = sent-Parts stack config s has in
      let same : packet ≡ m = some_inj (sym filled ∙ fill_packet_lem stack config s has) in
      let low_same : two m q ≡ low = some_inj (sym (two_read stack s) ∙ first_two) in
      let got : take 23 (radio.rx_data (Call.read_frame_info ∷ t.calls) 23) ≡ take 23 m =
        ap (λ b. take 23 b) (delivered ∙ ap (λ b. take 23 b) same)
        ∙ take_all 23 (take 23 m) (omega (arith, length-take_heard m q)) in
      let seen : decode (heard m q)
          ≡ some (record { src = config.address; x = from_le low; y = 0 }) =
        decode-heard m q
        ∙ ap (λ (b : List ℕ). some (record { src = config.address; x = from_le b; y = 0 }))
            low_same in
      let run =
        receive_run radio t 23 {packet = heard m q} (omega (arith, size)) (omega arith)
          (heard_written m q t.rx_packet _ empty got) in
      let after : Tag = record t {
        rx_packet = heard m q;
        calls =
            Call.rx_enable start_rx_immediate
            ∷ Call.read_rx_data 23 0
            ∷ Call.read_frame_info
            ∷ t.calls;
      } in
      (after, rw run (rw seen refl), seen)
