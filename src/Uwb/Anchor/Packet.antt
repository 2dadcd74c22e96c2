-- ===== src/Uwb/Anchor/Packet.antt =====
-- The packet that the anchor sends.
use tdoa.Base.{
  ℕ, ◌+◌, ◌≡◌, refl, sym, ap, ◌∙◌, some, List, [], ◌++◌, arith, length, take, drop, length-append,
  length-take, length-drop, take-append-drop, append_assoc, append-nil, read_at, write_at,
  read_at_split, write_at_split, le_bytes, from_le,
}
use tdoa.Uwb.Types.{UwbConfig}
use tdoa.Uwb.Mac.{packet_size, data_frame, init_control, packet_init}
use tdoa.Uwb.Anchor.{fill_packet}

-- The parts of a packet, as `fill_packet` writes them.
pub record Parts (m : List ℕ) : Type 0 where
  pub control : List ℕ
  pub header : List ℕ
  pub src : List ℕ
  pub sys_time : List ℕ
  pub x : List ℕ
  pub y : List ℕ
  pub rest : List ℕ
  pub whole : m ≡ control ++ (header ++ (src ++ (sys_time ++ (x ++ (y ++ rest)))))
  pub length-control : length control ≡ 2
  pub length-header : length header ≡ 11
  pub length-src : length src ≡ 8
  pub length-sys_time : length sys_time ≡ 8
  pub length-x : length x ≡ 4
  pub length-y : length y ≡ 4
  pub length-rest : length rest ≡ 114

-- The first `n` of a list, and the rest.
record Cut (m : List ℕ) (n k : ℕ) : Type 0 where
  first : List ℕ
  last : List ℕ
  whole : m ≡ first ++ last
  length-first : length first ≡ n
  length-last : length last ≡ k

cut : (m : List ℕ) (n k : ℕ) → length m ≡ n + k → Cut m n k
cut m n k e = record {
  first = take n m;
  last = drop n m;
  whole = sym (take-append-drop n m);
  length-first = omega (arith, length-take n m);
  length-last = omega (arith, length-drop n m);
}

pub parts : (m : List ℕ) → length m ≡ packet_size → Parts m
parts m e =
    let c1 = cut m 2 149 e in
    let c2 = cut c1.last 11 138 c1.length-last in
    let c3 = cut c2.last 8 130 c2.length-last in
    let c4 = cut c3.last 8 122 c3.length-last in
    let c5 = cut c4.last 4 118 c4.length-last in
    let c6 = cut c5.last 4 114 c5.length-last in
    record {
      control = c1.first;
      header = c2.first;
      src = c3.first;
      sys_time = c4.first;
      x = c5.first;
      y = c6.first;
      rest = c6.last;
      whole =
          c1.whole
          ∙ ap (λ r. c1.first ++ r)
              (c2.whole
                ∙ ap (λ r. c2.first ++ r)
                    (c3.whole
                      ∙ ap (λ r. c3.first ++ r)
                          (c4.whole
                            ∙ ap (λ r. c4.first ++ r)
                                (c5.whole ∙ ap (λ r. c5.first ++ r) c6.whole))));
      length-control = c1.length-first;
      length-header = c2.length-first;
      length-src = c3.length-first;
      length-sys_time = c4.length-first;
      length-x = c5.length-first;
      length-y = c6.length-first;
      length-rest = c6.length-last;
    }

module _ (stack : List ℕ) (config : UwbConfig) (s : Parts stack)
    (has : length config.address ≡ 8) where
  abbrev pub control_bytes : List ℕ
  control_bytes = le_bytes 2 (init_control data_frame (from_le s.control))

  -- The packet: the sequence number, the network, the destination and `sys_time` are not set.
  abbrev pub sent : List ℕ
  sent =
      control_bytes
      ++ (s.header
          ++ (config.address
              ++ (s.sys_time
                  ++ (le_bytes 4 config.anchor_x_pos_mm
                      ++ (le_bytes 4 config.anchor_y_pos_mm ++ s.rest)))))

  abbrev p1 : List ℕ
  p1 = control_bytes ++ (s.header ++ (s.src ++ (s.sys_time ++ (s.x ++ (s.y ++ s.rest)))))

  init_lem : packet_init stack data_frame ≡ some p1
  unfolding packet_init
  init_lem = ground (
    arith,
    read_at_split stack [] s.control
        (s.header ++ (s.src ++ (s.sys_time ++ (s.x ++ (s.y ++ s.rest))))) 0 2 s.whole refl
        (sym s.length-control),
    write_at_split stack [] s.control
        (s.header ++ (s.src ++ (s.sys_time ++ (s.x ++ (s.y ++ s.rest))))) control_bytes p1 0 s.whole
        refl (sym s.length-control) refl,
  )

  abbrev p2 : List ℕ
  p2 = control_bytes ++ (s.header ++ (config.address ++ (s.sys_time ++ (s.x ++ (s.y ++ s.rest)))))

  address_read : read_at config.address 0 8 ≡ some config.address
  address_read =
      read_at_split config.address [] config.address [] 0 8 (sym (append-nil config.address)) refl
        (sym has)

  src_written : write_at p1 13 config.address ≡ some p2
  src_written =
      write_at_split p1 (control_bytes ++ s.header) s.src (s.sys_time ++ (s.x ++ (s.y ++ s.rest)))
        config.address p2 13 (simp append_assoc) (omega (arith, s.length-header))
        (has ∙ sym s.length-src) (simp append_assoc)

  abbrev before_x : List ℕ
  before_x = control_bytes ++ (s.header ++ (config.address ++ s.sys_time))

  length-before_x : length before_x ≡ 29
  length-before_x = omega (
    arith,
    length-append s.header (config.address ++ s.sys_time),
    length-append config.address s.sys_time,
    s.length-header,
    s.length-sys_time,
  )

  abbrev x_bytes : List ℕ
  x_bytes = le_bytes 4 config.anchor_x_pos_mm

  abbrev p3 : List ℕ
  p3 = before_x ++ (x_bytes ++ (s.y ++ s.rest))

  x_written : write_at p2 29 x_bytes ≡ some p3
  x_written =
      write_at_split p2 before_x s.x (s.y ++ s.rest) x_bytes p3 29 (simp append_assoc)
        (sym length-before_x) (sym s.length-x) refl

  y_written : write_at p3 33 (le_bytes 4 config.anchor_y_pos_mm) ≡ some sent
  y_written =
      write_at_split p3 (before_x ++ x_bytes) s.y s.rest (le_bytes 4 config.anchor_y_pos_mm) sent 33
        (sym (append_assoc before_x x_bytes (s.y ++ s.rest)))
        (omega (arith, length-append before_x x_bytes, length-before_x)) (sym s.length-y)
        (simp append_assoc)

  pub fill_packet_lem : fill_packet stack config ≡ some sent
  unfolding fill_packet
  fill_packet_lem = ground (arith, init_lem, address_read, src_written, x_written, y_written)

  -- Its parts: the payload begins with what the local packet held, and the position follows.
  abbrev pub sent-Parts : Parts sent
  sent-Parts = record {
    control = control_bytes;
    header = s.header;
    src = config.address;
    sys_time = s.sys_time;
    x = x_bytes;
    y = le_bytes 4 config.anchor_y_pos_mm;
    rest = s.rest;
    whole = refl;
    length-control = refl;
    length-header = s.length-header;
    length-src = has;
    length-sys_time = s.length-sys_time;
    length-x = refl;
    length-y = refl;
    length-rest = s.length-rest;
  }
