-- ===== src/Config/Init/Header.antt =====
-- What the first writes of `write_defaults` do to the header.
use tdoa.Base.{ℕ, ◌≡◌, refl, ap, sym, ◌∙◌, none, some, List, [], ◌∷◌, ◌++◌, arith, length, from_le}
use tdoa.Config.Platform.{Platform}
use tdoa.Config.State.{size_read, version_major, version_minor, State, tlv_length}
use tdoa.Config.Tlv.Encoded.{stamp}
use tdoa.Config.Save.{write_crc}
use tdoa.Config.Init.{write_header, write_defaults}

pub record Header (m : List ℕ) : Type 0 where
  pub m0 : ℕ
  pub m1 : ℕ
  pub major : ℕ
  pub minor : ℕ
  pub l0 : ℕ
  pub l1 : ℕ
  pub rest : List ℕ
  pub whole : m ≡ m0 ∷ m1 ∷ major ∷ minor ∷ l0 ∷ l1 ∷ rest

pub split-Header : (m : List ℕ) → length m ≡ size_read → Header m
split-Header [] e = absurd (omega arith)
split-Header (a ∷ []) e = absurd (omega arith)
split-Header (a ∷ b ∷ []) e = absurd (omega arith)
split-Header (a ∷ b ∷ c ∷ []) e = absurd (omega arith)
split-Header (a ∷ b ∷ c ∷ d ∷ []) e = absurd (omega arith)
split-Header (a ∷ b ∷ c ∷ d ∷ f ∷ []) e = absurd (omega arith)
split-Header (a ∷ b ∷ c ∷ d ∷ f ∷ g ∷ r) e = record {
  m0 = a;
  m1 = b;
  major = c;
  minor = d;
  l0 = f;
  l1 = g;
  rest = r;
  whole = refl;
}

module _ {Flash : Type 0} (s : State Flash) (hd : Header s.buffer) where
  -- The state after the magic and the two versions are written.
  abbrev pub stamped_state : State Flash
  stamped_state = record s {
    buffer = stamp version_major version_minor ++ (hd.l0 ∷ hd.l1 ∷ hd.rest);
  }

  pub tlv_length_lem : tlv_length s ≡ some (from_le (hd.l0 ∷ hd.l1 ∷ []))
  unfolding tlv_length
  tlv_length_lem = rw (hd.whole) (ground arith)

  pub tlv_length_kept : tlv_length stamped_state ≡ tlv_length s
  unfolding tlv_length
  tlv_length_kept =
      let now : tlv_length stamped_state ≡ some (from_le (hd.l0 ∷ hd.l1 ∷ [])) = ground arith in
      now ∙ sym tlv_length_lem

  pub length-stamped : length stamped_state.buffer ≡ length s.buffer
  length-stamped = sym (ap length hd.whole)

module _ (p : Platform) (s : State p.Flash) (hd : Header s.buffer) where
  open p use {Flash}

  pub write_header_lem : write_header p s ≡ some (stamped_state s hd)
  unfolding write_header
  write_header_lem = rw (hd.whole) (ground arith)

  pub write_defaults_stuck : write_crc p (stamped_state s hd) ≡ none → write_defaults p s ≡ none
  unfolding write_defaults
  write_defaults_stuck e = ground (arith, write_header_lem)
