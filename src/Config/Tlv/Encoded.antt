-- ===== src/Config/Tlv/Encoded.antt =====
-- The buffer that holds a list of entries, and what the accesses of src/config.c find in it.
use tdoa.Base.{
  ℕ, ◌+◌, ◌-◌, ◌≤◌, ◌<◌, ◌≡◌, ap, ◌∙◌, refl, some, Option, ℤ, pos, List, [], ◌∷◌, ◌++◌, arith,
  length, read_at-append, write_at-append, le_bytes, from_le-le_bytes, get_elem?-append,
}
use tdoa.Config.State.{
  magic, size_header, size_tlv_max, size_read, State, tlv_length, set_tlv_length, tlv_byte,
  tlv_read, tlv_write,
}
use tdoa.Config.Tlv.Store.{Entry, encode, size_of}

-- Magic and versions, the length of the area, the entries, and what is behind them.
abbrev pub image : List ℕ → List Entry → List ℕ → List ℕ
image front es tail = front ++ (le_bytes 2 (size_of es) ++ (encode es ++ tail))

-- MAGIC in little-endian order, and the two version bytes.
abbrev pub stamp : ℕ → ℕ → List ℕ
stamp major minor = le_bytes 2 magic ++ (major ∷ minor ∷ [])

module _ {Flash : Type 0} where
  pub record Holds (s : State Flash) (es : List Entry) : Type 0 where
    pub front : List ℕ
    pub tail : List ℕ
    pub major : ℕ
    pub minor : ℕ
    pub length-front : length front ≡ 4
    pub stamped : front ≡ stamp major minor
    pub layout : s.buffer ≡ image front es tail
    pub room : size_of es + length tail ≡ size_read - size_header
    pub fits : size_of es ≤ size_tlv_max
    pub data_set : s.tlv ≡ some size_header

  -- A successful insertion of `size` bytes, after which the buffer holds `es`, and nothing else
  -- of the state has changed.
  pub record Put (s : State Flash) (es : List Entry) (size : ℕ) (r : Option (ℤ × State Flash))
      : Type 0 where
    pub after : State Flash
    pub returns : r ≡ some (pos size, after)
    pub holds : Holds after es
    pub rest_same : after ≡ record s { buffer = after.buffer }

  module _ (s : State Flash) where
    pub tlv_byte_at :
        (a c : List ℕ) (b i : ℕ)
        → s.tlv ≡ some size_header
        → s.buffer ≡ a ++ (b ∷ c)
        → length a ≡ size_header + i
        → tlv_byte s i ≡ some b
    unfolding tlv_byte
    tlv_byte_at a c b i t e h = rw (t, e) (get_elem?-append a b c (6 + i) (omega arith))

    pub tlv_read_at :
        (a b c : List ℕ) (i n : ℕ)
        → s.tlv ≡ some size_header
        → s.buffer ≡ a ++ (b ++ c)
        → length a ≡ size_header + i
        → length b ≡ n
        → tlv_read s i n ≡ some b
    unfolding tlv_read
    tlv_read_at a b c i n t e h k =
        rw (t, e) (read_at-append a b c (6 + i) n (omega arith) (omega arith))

    pub tlv_write_at :
        (a b c bs : List ℕ) (i : ℕ)
        → s.tlv ≡ some size_header
        → s.buffer ≡ a ++ (b ++ c)
        → length a ≡ size_header + i
        → length bs ≡ length b
        → tlv_write s i bs ≡ some (record s { buffer = a ++ (bs ++ c) })
    unfolding tlv_write
    tlv_write_at a b c bs i t e h k =
        rw (t, e, write_at-append a b c bs (6 + i) (omega arith) k) refl

    pub tlv_length_at :
        (a c : List ℕ) (n : ℕ)
        → s.buffer ≡ a ++ (le_bytes 2 n ++ c)
        → length a ≡ 4
        → n < 65536
        → tlv_length s ≡ some n
    unfolding tlv_length
    tlv_length_at a c n e h k =
        rw (e, read_at-append a (le_bytes 2 n) c 4 2 (omega arith) refl)
          (ap some (from_le-le_bytes 2 n k))

    pub set_tlv_length_at :
        (a b c : List ℕ) (n : ℕ)
        → s.buffer ≡ a ++ (b ++ c)
        → length a ≡ 4
        → length b ≡ 2
        → set_tlv_length s n ≡ some (record s { buffer = a ++ (le_bytes 2 n ++ c) })
    unfolding set_tlv_length
    set_tlv_length_at a b c n e h k =
        rw (e, write_at-append a b c (le_bytes 2 n) 4 (omega arith) (omega arith)) refl

    pub tlv_length-Holds : (es : List Entry) → Holds s es → tlv_length s ≡ some (size_of es)
    tlv_length-Holds es h =
        tlv_length_at h.front (encode es ++ h.tail) (size_of es) h.layout h.length-front
          (omega arith)

  -- Only the buffer and `tlv.data` count.
  pub Holds-transfer :
      (s t : State Flash) (es : List Entry)
      → t.buffer ≡ s.buffer
      → t.tlv ≡ s.tlv
      → Holds s es
      → Holds t es
  Holds-transfer s t es e q h = record {
    front = h.front;
    tail = h.tail;
    major = h.major;
    minor = h.minor;
    length-front = h.length-front;
    stamped = h.stamped;
    layout = e ∙ h.layout;
    room = h.room;
    fits = h.fits;
    data_set = q ∙ h.data_set;
  }
