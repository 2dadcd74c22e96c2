-- ===== src/Uwb/Tag/Decode.antt =====
-- What the tag makes of a packet of the anchor.
use tdoa.Base.{
  some_inj, ℕ, ◌≡◌, sym, ap, ap₂, ◌∙◌, some, List, ◌++◌, arith, length, take, drop, length-append,
  length-take, length-drop, take-append-drop, append_assoc, read_at, read_at_split, from_le,
}
use tdoa.Uwb.Types.{UwbConfig}
use tdoa.Uwb.Mac.{packet_size}
use tdoa.Uwb.Anchor.{fill_packet}
use tdoa.Uwb.Anchor.Packet.{Parts, parts, sent, fill_packet_lem, sent-Parts}
use tdoa.Uwb.Tag.{decode}

module _ (m : List ℕ) (s : Parts m) where
  src_read : read_at m 13 8 ≡ some s.src
  src_read =
      read_at_split m (s.control ++ s.header) s.src (s.sys_time ++ (s.x ++ (s.y ++ s.rest))) 13 8
        (s.whole ∙ simp append_assoc)
        (omega (arith, length-append s.control s.header, s.length-control, s.length-header))
        (sym s.length-src)

  abbrev pub before : List ℕ
  before = s.control ++ (s.header ++ s.src)

  pub length-before : length before ≡ 21
  length-before = omega (
    arith,
    length-append s.control (s.header ++ s.src),
    length-append s.header s.src,
    s.length-control,
    s.length-header,
    s.length-src,
  )

  abbrev pub behind : List ℕ
  behind = s.x ++ (s.y ++ s.rest)

  opened : m ≡ before ++ (take 4 s.sys_time ++ (drop 4 s.sys_time ++ behind))
  opened =
      s.whole
      ∙ ap (λ t. s.control ++ (s.header ++ (s.src ++ (t ++ behind))))
          (sym (take-append-drop 4 s.sys_time))
      ∙ simp append_assoc

  low_read : read_at m 21 4 ≡ some (take 4 s.sys_time)
  low_read =
      read_at_split m before (take 4 s.sys_time) (drop 4 s.sys_time ++ behind) 21 4 opened
        (sym length-before) (omega (arith, length-take 4 s.sys_time, s.length-sys_time))

  high_read : read_at m 25 4 ≡ some (drop 4 s.sys_time)
  high_read =
      read_at_split m (before ++ take 4 s.sys_time) (drop 4 s.sys_time) behind 25 4
        (opened ∙ simp append_assoc)
        (omega (
          arith,
          length-append before (take 4 s.sys_time),
          length-before,
          length-take 4 s.sys_time,
          s.length-sys_time,
        ))
        (omega (arith, length-drop 4 s.sys_time, s.length-sys_time))

  pub decode_lem :
      decode m
      ≡ some
          (record { src = s.src; x = from_le (take 4 s.sys_time); y = from_le (drop 4 s.sys_time) })
  unfolding decode
  decode_lem = ground (arith, src_read, low_read, high_read)

-- The tag gets the anchor's address right, but the position that it reports is what the eight
-- bytes of `sys_time`, which the anchor does not set, held in the anchor's local packet before.
pub decode-fill_packet :
    (stack : List ℕ) (config : UwbConfig) (low high : List ℕ)
    → length stack ≡ packet_size
    → length config.address ≡ 8
    → read_at stack 21 4 ≡ some low
    → read_at stack 25 4 ≡ some high
    → (packet : List ℕ) × (fill_packet stack config ≡ some packet)
      × (decode packet ≡ some (record { src = config.address; x = from_le low; y = from_le high }))
decode-fill_packet stack config low high l has a b =
    let s = parts stack l in
    (
      sent stack config s has,
      fill_packet_lem stack config s has,
      decode_lem (sent stack config s has) (sent-Parts stack config s has)
          ∙ ap₂ (λ u v. some (record { src = config.address; x = from_le u; y = from_le v }))
              (some_inj (sym (low_read stack s) ∙ a)) (some_inj (sym (high_read stack s) ∙ b)),
    )
