-- ===== src/Config/Tlv/Entry.antt =====
-- The three writes that put an entry into the buffer, and the length that follows.
use tdoa.Base.{
  ℕ, ◌+◌, ◌≤◌, ◌≡◌, refl, sym, ap, ◌∙◌, some, List, [], ◌∷◌, ◌++◌, arith, length, take, drop,
  length-append, length-take, take-append-drop, append_assoc,
}
use tdoa.Config.State.{size_header, State, tlv_write}
use tdoa.Config.Tlv.Encoded.{tlv_write_at}

-- Two bytes and `n` more at the front of a list.
pub record Cells (xs : List ℕ) (n : ℕ) : Type 0 where
  pub b0 : ℕ
  pub b1 : ℕ
  pub old : List ℕ
  pub rest : List ℕ
  pub whole : xs ≡ b0 ∷ b1 ∷ (old ++ rest)
  pub length-old : length old ≡ n

pub cut : (xs : List ℕ) (n : ℕ) → 2 + n ≤ length xs → Cells xs n
cut [] n h = absurd (omega arith)
cut (a ∷ []) n h = absurd (omega arith)
cut (a ∷ b ∷ xs) n h = record {
  b0 = a;
  b1 = b;
  old = take n xs;
  rest = drop n xs;
  whole = ap (λ r. a ∷ b ∷ r) (sym (take-append-drop n xs));
  length-old = omega (arith, length-take n xs);
}

module _ {Flash : Type 0} (s : State Flash) (a c old w : List ℕ) (i t n b0 b1 : ℕ)
    (data_set : s.tlv ≡ some size_header) (place : length a ≡ size_header + i)
    (fits : length w ≡ length old) where
  abbrev pub tagged : State Flash
  tagged = record s { buffer = a ++ (t ∷ b1 ∷ (old ++ c)) }

  abbrev pub sized : State Flash
  sized = record s { buffer = (a ++ t ∷ []) ++ (n ∷ (old ++ c)) }

  abbrev pub filled : State Flash
  filled = record s { buffer = (a ++ t ∷ n ∷ []) ++ (w ++ c) }

  pub tag_written : s.buffer ≡ a ++ (b0 ∷ b1 ∷ (old ++ c)) → tlv_write s i (t ∷ []) ≡ some tagged
  tag_written e = tlv_write_at s a (b0 ∷ []) (b1 ∷ (old ++ c)) (t ∷ []) i data_set e place refl

  pub size_written : tlv_write tagged (i + 1) (n ∷ []) ≡ some sized
  size_written =
      tlv_write_at tagged (a ++ t ∷ []) (b1 ∷ []) (old ++ c) (n ∷ []) (i + 1) data_set
        (sym (append_assoc a (t ∷ []) (b1 ∷ (old ++ c)))) (omega (arith, length-append a (t ∷ [])))
        refl

  pub value_written : tlv_write sized (i + 2) w ≡ some filled
  value_written =
      tlv_write_at sized (a ++ t ∷ n ∷ []) old c w (i + 2) data_set
        (append_assoc a (t ∷ []) (n ∷ (old ++ c)) ∙ sym (append_assoc a (t ∷ n ∷ []) (old ++ c)))
        (omega (arith, length-append a (t ∷ n ∷ []))) fits
