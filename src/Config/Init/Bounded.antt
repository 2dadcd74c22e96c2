-- ===== src/Config/Init/Bounded.antt =====
-- The checksum over any contents whose length leaves room for it.
use tdoa.Base.{
  take-append-drop, write_at_split, from_le, ◌==◌, ◌%◌, ◌^◌, same_bytes, ℕ, ◌+◌, ◌≤◌, ◌≡◌, refl,
  sym, ap, ◌∙◌, some, inl, inr, List, [], ◌∷◌, ◌++◌, arith, length, take, drop, Bool-cases,
  length-append, length-take, length-drop, read_at, write_at, le_bytes, length-le_bytes, ℤ, pos,
  neg, is_zero, if◌then◌else◌, leb-eq_true,
}
use tdoa.Config.Platform.{Platform}
use tdoa.Config.State.{magic, size_read, size_tlv_max, State, tlv_length}
use tdoa.Config.Save.{checksum, write_crc, check_crc, check_magic, check_data}
use tdoa.Config.Init.Header.{Header, split-Header, tlv_length_lem}

-- The buffer has its size, and the checksum behind the values fits it.
pub record IsBounded {Flash : Type 0} (s : State Flash) : Type 0 where
  pub length-buffer : length s.buffer ≡ size_read
  pub len : ℕ
  pub has_length : tlv_length s ≡ some len
  pub bounded : len ≤ size_tlv_max

module _ (p : Platform) where
  open p use {Flash}

  checksum_total : (s : State Flash) (h : IsBounded s) → (sum : ℕ) × (checksum p s h.len ≡ some sum)
  unfolding checksum
  checksum_total s h = (
    p.crc32_ieee (take (6 + h.len) s.buffer) % 2 ^ 32,
    rw (leb-eq_true (0 + (6 + h.len)) (length s.buffer) (omega (arith, h.length-buffer, h.bounded)))
        refl,
  )

  check_crc_total : (s : State Flash) → IsBounded s → (r : ℤ) × (check_crc p s ≡ some r)
  unfolding check_crc
  check_crc_total s h =
      let (sum, e) = checksum_total s h in
      let stored : read_at s.buffer (6 + h.len) 4 ≡ some (take 4 (drop (6 + h.len) s.buffer)) =
        rw
          (leb-eq_true (6 + h.len + 4) (length s.buffer)
            (omega (arith, h.length-buffer, h.bounded)))
          refl in
      (
        if from_le (take 4 (drop (6 + h.len) s.buffer)) == sum then pos 0 else neg 1,
        rw (h.has_length, stored, e) refl,
      )

  check_magic_total : (s : State Flash) → IsBounded s → (r : ℤ) × (check_magic p s ≡ some r)
  unfolding check_magic
  check_magic_total s h = (
    if same_bytes (take 2 s.buffer) (le_bytes 2 magic) then pos 0 else neg 1,
    rw (leb-eq_true 2 (length s.buffer) (omega (arith, h.length-buffer))) refl,
  )

  pub check_data_total : (s : State Flash) → IsBounded s → (r : ℤ) × (check_data p s ≡ some r)
  unfolding check_data
  check_data_total s h =
      let (m, em) = check_magic_total s h in
      let (c, ec) = check_crc_total s h in
      let l = h.has_length in
      elim (Bool-cases (is_zero m)) [
        | inr bad ↦ (neg 1, ground arith)
        | inl good ↦ (c, ground (arith, h.bounded))
      ]

  module _ (s : State Flash) (hd : Header s.buffer) (n : ℕ) (bs : List ℕ)
      (fits : 6 + n + 4 ≤ length s.buffer) (four : length bs ≡ 4) where
    -- The buffer after four bytes are written behind the header.
    abbrev put_behind : State Flash
    put_behind = record s {
      buffer =
          hd.m0
          ∷ hd.m1
          ∷ hd.major
          ∷ hd.minor
          ∷ hd.l0
          ∷ hd.l1
          ∷ (take n hd.rest ++ (bs ++ drop 4 (drop n hd.rest)));
    }

    length-rest : 6 + length hd.rest ≡ length s.buffer
    length-rest = omega (arith, ap length hd.whole)

    put_behind_written : write_at s.buffer (6 + n) bs ≡ some put_behind.buffer
    put_behind_written =
        write_at_split s.buffer
          (hd.m0 ∷ hd.m1 ∷ hd.major ∷ hd.minor ∷ hd.l0 ∷ hd.l1 ∷ take n hd.rest)
          (take 4 (drop n hd.rest)) (drop 4 (drop n hd.rest)) bs put_behind.buffer (6 + n)
          (hd.whole
            ∙ ap (λ r. hd.m0 ∷ hd.m1 ∷ hd.major ∷ hd.minor ∷ hd.l0 ∷ hd.l1 ∷ r)
                (sym (take-append-drop n hd.rest)
                  ∙ ap (λ r. take n hd.rest ++ r) (sym (take-append-drop 4 (drop n hd.rest)))))
          (omega (arith, length-rest, length-take n hd.rest))
          (omega (arith, four, length-rest, length-take 4 (drop n hd.rest), length-drop n hd.rest))
          refl

    length-put_behind : length put_behind.buffer ≡ length s.buffer
    length-put_behind = omega (
      arith,
      length-rest,
      four,
      length-append (take n hd.rest) (bs ++ drop 4 (drop n hd.rest)),
      length-append bs (drop 4 (drop n hd.rest)),
      length-take n hd.rest,
      length-drop 4 (drop n hd.rest),
      length-drop n hd.rest,
    )

    tlv_length-put_behind : tlv_length put_behind ≡ tlv_length s
    unfolding tlv_length
    tlv_length-put_behind =
        let now : tlv_length put_behind ≡ some (from_le (hd.l0 ∷ hd.l1 ∷ [])) = ground arith in
        now ∙ sym (tlv_length_lem s hd)

  pub write_crc_total :
      (s : State Flash) (h : IsBounded s)
      → (s1 : State Flash) × (write_crc p s ≡ some s1) × (s1.tlv ≡ s.tlv) × IsBounded s1
  unfolding write_crc
  write_crc_total s h =
      let hd = split-Header s.buffer h.length-buffer in
      let (sum, e) = checksum_total s h in
      let fits : 6 + h.len + 4 ≤ length s.buffer = omega (arith, h.length-buffer, h.bounded) in
      let four = length-le_bytes 4 sum in
      let w = put_behind_written s hd h.len (le_bytes 4 sum) fits four in
      (
        put_behind s hd h.len (le_bytes 4 sum) fits four,
        rw (h.has_length, e, w) refl,
        refl,
        record {
          length-buffer = length-put_behind s hd h.len (le_bytes 4 sum) fits four ∙ h.length-buffer;
          len = h.len;
          has_length = tlv_length-put_behind s hd h.len (le_bytes 4 sum) fits four ∙ h.has_length;
          bounded = h.bounded;
        },
      )
