-- ===== src/Config/Save/Crc.antt =====
-- The checksum behind the entries: `write_crc` writes the one that `check_crc` expects.
use tdoa.Base.{
  ℕ, ◌+◌, ◌≤◌, ◌<◌, ◌≡◌, ◌^◌, ◌%◌, refl, sym, ap, ◌∙◌, some, List, ◌++◌, arith, length, take, drop,
  length-append, length-take, length-drop, take-append-drop, append_assoc, le_bytes, from_le,
  from_le-le_bytes, read_at, write_at, read_at-append, write_at-append, pos, same_bytes, [],
}
use tdoa.Config.Platform.{Platform}
use tdoa.Config.State.{size_header, size_tlv_max, State, tlv_length}
use tdoa.Config.Tlv.Store.{Entry, encode, length-encode, size_of}
use tdoa.Config.Tlv.Encoded.{image, Holds, Holds-transfer, tlv_length-Holds}
use tdoa.Config.Save.{checksum, write_crc, check_crc, check_magic, check_data}

-- The header and the entries.
abbrev pub body : List ℕ → List Entry → List ℕ
body front es = front ++ (le_bytes 2 (size_of es) ++ encode es)

length-body :
    (front : List ℕ) (es : List Entry)
    → length front ≡ 4
    → length (body front es) ≡ size_header + size_of es
length-body front es h = omega (
  arith,
  length-append front (le_bytes 2 (size_of es) ++ encode es),
  length-append (le_bytes 2 (size_of es)) (encode es),
  length-encode es,
)

module _ (p : Platform) where
  open p use {Flash, crc32_ieee}

  -- The buffer holds the entries, and behind them their checksum.
  pub record Sealed (s : State Flash) (es : List Entry) : Type 0 where
    pub holds : Holds s es
    pub sum : ℕ
    pub small : sum < 2 ^ 32
    pub summed : checksum p s (size_of es) ≡ some sum
    pub stored : read_at s.buffer (size_header + size_of es) 4 ≡ some (le_bytes 4 sum)

  checksum_body :
      (s : State Flash) (b rest : List ℕ) (n : ℕ)
      → s.buffer ≡ b ++ rest
      → length b ≡ size_header + n
      → checksum p s n ≡ some (crc32_ieee b % 2 ^ 32)
  unfolding checksum
  checksum_body s b rest n e h = rw (e, read_at-append [] b rest 0 (6 + n) refl (sym h)) refl

  write_crc_run :
      (s : State Flash) {len sum : ℕ} {buffer : List ℕ}
      → tlv_length s ≡ some len
      → checksum p s len ≡ some sum
      → write_at s.buffer (size_header + len) (le_bytes 4 sum) ≡ some buffer
      → write_crc p s ≡ some (record s { buffer = buffer })
  unfolding write_crc
  write_crc_run s a b c = ground arith

  module _ (s : State Flash) (es : List Entry) (h : Holds s es) where
    abbrev pub b : List ℕ
    b = body h.front es

    abbrev pub sum : ℕ
    sum = crc32_ieee b % 2 ^ 32

    abbrev pub rest : List ℕ
    rest = drop 4 h.tail

    abbrev pub with_crc : State Flash
    with_crc = record s { buffer = b ++ (le_bytes 4 sum ++ rest) }

    opened : s.buffer ≡ b ++ (take 4 h.tail ++ rest)
    opened =
        h.layout
        ∙ ap (λ r. image h.front es r) (sym (take-append-drop 4 h.tail))
        ∙ simp append_assoc

    summed : checksum p s (size_of es) ≡ some sum
    summed =
        checksum_body s b (take 4 h.tail ++ rest) (size_of es) opened
          (length-body h.front es h.length-front)

    written : write_at s.buffer (size_header + size_of es) (le_bytes 4 sum) ≡ some with_crc.buffer
    written = rw opened (
        write_at-append b (take 4 h.tail) rest (le_bytes 4 sum) (size_header + size_of es)
          (omega (arith, length-body h.front es h.length-front))
          (omega (arith, length-take 4 h.tail, h.room, h.fits)))

    pub write_crc_lem : write_crc p s ≡ some with_crc
    write_crc_lem = write_crc_run s (tlv_length-Holds s es h) summed written

    with_crc-Holds : Holds with_crc es
    with_crc-Holds = record {
      front = h.front;
      tail = le_bytes 4 sum ++ rest;
      major = h.major;
      minor = h.minor;
      length-front = h.length-front;
      stamped = h.stamped;
      layout = simp append_assoc;
      room = omega (arith, length-drop 4 h.tail, h.room, h.fits);
      fits = h.fits;
      data_set = h.data_set;
    }

    pub with_crc-Sealed : Sealed with_crc es
    with_crc-Sealed = record {
      holds = with_crc-Holds;
      sum = sum;
      small = omega arith;
      summed =
          checksum_body with_crc b (le_bytes 4 sum ++ rest) (size_of es) refl
            (length-body h.front es h.length-front);
      stored =
          read_at-append b (le_bytes 4 sum) rest (size_header + size_of es) 4
            (omega (arith, length-body h.front es h.length-front)) refl;
    }

  check_crc_run :
      (s : State Flash) {len sum : ℕ} {stored : List ℕ}
      → tlv_length s ≡ some len
      → read_at s.buffer (size_header + len) 4 ≡ some stored
      → checksum p s len ≡ some sum
      → from_le stored ≡ sum
      → check_crc p s ≡ some (pos 0)
  unfolding check_crc
  check_crc_run s a b c d = ground arith

  -- What is sealed passes the check of its checksum.
  pub check_crc-Sealed :
      (s : State Flash) (es : List Entry) → Sealed s es → check_crc p s ≡ some (pos 0)
  check_crc-Sealed s es c =
      check_crc_run s (tlv_length-Holds s es c.holds) c.stored c.summed
        (from_le-le_bytes 4 c.sum c.small)

  check_magic-Holds :
      (s : State Flash) (es : List Entry) → Holds s es → check_magic p s ≡ some (pos 0)
  unfolding check_magic same_bytes
  check_magic-Holds s es h = rw (h.layout, h.stamped) (ground arith)

  check_data_run :
      (s : State Flash) {len : ℕ}
      → check_magic p s ≡ some (pos 0)
      → tlv_length s ≡ some len
      → len ≤ size_tlv_max
      → check_data p s ≡ check_crc p s
  unfolding check_data
  check_data_run s a b c = ground arith

  -- The buffer passes `check_data`.
  pub check_data-Sealed :
      (s : State Flash) (es : List Entry) → Sealed s es → check_data p s ≡ some (pos 0)
  check_data-Sealed s es c =
      check_data_run s (check_magic-Holds s es c.holds) (tlv_length-Holds s es c.holds) c.holds.fits
      ∙ check_crc-Sealed s es c

  checksum-transfer :
      (s t : State Flash) (n : ℕ) → t.buffer ≡ s.buffer → checksum p t n ≡ checksum p s n
  unfolding checksum
  checksum-transfer s t n e = rw e refl

  pub Sealed-transfer :
      (s t : State Flash) (es : List Entry)
      → t.buffer ≡ s.buffer
      → t.tlv ≡ s.tlv
      → Sealed s es
      → Sealed t es
  Sealed-transfer s t es e q c = record {
    holds = Holds-transfer s t es e q c.holds;
    sum = c.sum;
    small = c.small;
    summed = checksum-transfer s t (size_of es) e ∙ c.summed;
    stored = rw e c.stored;
  }
