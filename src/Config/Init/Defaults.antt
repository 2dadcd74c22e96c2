-- ===== src/Config/Init/Defaults.antt =====
-- `write_defaults` over data whose length field is 0, as on the first start.
use tdoa.Base.{
  ◌≡◌, refl, ap, ap₂, true, false, some, inl, inr, [], ◌∷◌, ◌++◌, arith, length, Option, ℤ, pos,
  neg, from_le, Bool-cases, if◌then◌else◌,
}
use tdoa.Config.Platform.{Platform, Durable}
use tdoa.Config.State.{size_read, size_header, version_major, version_minor, State, tlv_length}
use tdoa.Config.Tlv.Encoded.{stamp, Holds}
use tdoa.Config.Save.{write_crc, write_buffer, read_buffer, check_data}
use tdoa.Config.Save.Crc.{Sealed, with_crc, write_crc_lem, with_crc-Sealed, check_data-Sealed}
use tdoa.Config.Save.Write.{
  OnFlash, flashed, write_fails, flashed-OnFlash, Sealed-flashed, read_buffer-OnFlash,
  length-buffer,
}
use tdoa.Config.Init.{write_header, write_defaults}
use tdoa.Config.Init.Header.{Header, split-Header, stamped_state, tlv_length_lem, write_header_lem}

module _ (p : Platform) (s : State p.Flash) where
  open p use {Flash}

  stamped-Holds :
      (hd : Header s.buffer)
      → length s.buffer ≡ size_read
      → s.tlv ≡ some size_header
      → tlv_length s ≡ some 0
      → Holds (stamped_state s hd) []
  stamped-Holds hd l t z =
      let zero : from_le (hd.l0 ∷ hd.l1 ∷ []) ≡ 0 = ground (arith, tlv_length_lem s hd) in
      record {
        front = stamp version_major version_minor;
        tail = hd.rest;
        major = version_major;
        minor = version_minor;
        length-front = refl;
        stamped = refl;
        layout =
            ap₂ (λ a b. stamp version_major version_minor ++ (a ∷ b ∷ hd.rest)) (omega arith)
              (omega arith);
        room = omega (arith, ap length hd.whole);
        fits = omega arith;
        data_set = t;
      }

  pub write_defaults_fails :
      {s0 s1 : State Flash}
      → write_header p s ≡ some s0
      → write_crc p s0 ≡ some s1
      → write_fails p s1 ≡ true
      → write_defaults p s ≡ some (neg 1, flashed p s1)
  unfolding write_defaults write_buffer
  write_defaults_fails a b c = ground arith

  pub write_defaults_succeeds :
      {s0 s1 s3 : State Flash}
      → write_header p s ≡ some s0
      → write_crc p s0 ≡ some s1
      → write_fails p s1 ≡ false
      → read_buffer p (flashed p s1) ≡ some (pos 0, s3)
      → check_data p s3 ≡ some (pos 0)
      → write_defaults p s ≡ some (pos 0, s3)
  unfolding write_defaults write_buffer
  write_defaults_succeeds a b c d e = ground arith

  -- The outcome of `write_defaults`: the empty list of entries under its checksum, on flash if
  -- the result is 0, which it is unless NVS refuses the write.
  pub record Reset (r : Option (ℤ × State Flash)) : Type 0 where
    pub code : ℤ
    pub after : State Flash
    pub returns : r ≡ some (code, after)
    pub is_sealed : Sealed p after []
    pub kept : code ≡ pos 0 → OnFlash p after
    pub tried : State Flash
    pub headed : State Flash
    pub header_written : write_header p s ≡ some headed
    pub crc_written : write_crc p headed ≡ some tried
    pub same_buffer : after ≡ flashed p tried
    pub code_by_flash : code ≡ (if write_fails p tried then neg 1 else pos 0)

  -- Over rejected data with length 0 `write_defaults` leaves an empty, sealed configuration, and
  -- fails only if NVS refuses the write.
  pub write_defaults-Reset :
      Durable p
      → length s.buffer ≡ size_read
      → s.tlv ≡ some size_header
      → tlv_length s ≡ some 0
      → Reset (write_defaults p s)
  write_defaults-Reset d l t z =
      let hd = split-Header s.buffer l in
      let h = stamped-Holds hd l t z in
      let s0 = stamped_state s hd in
      let s1 = with_crc p s0 [] h in
      let c1 = with_crc-Sealed p s0 [] h in
      elim (Bool-cases (write_fails p s1)) [
        | inl bad ↦ record {
          code = neg 1;
          after = flashed p s1;
          returns = write_defaults_fails (write_header_lem p s hd) (write_crc_lem p s0 [] h) bad;
          is_sealed = Sealed-flashed p s1 [] c1;
          kept = λ e. cc;
          tried = s1;
          headed = s0;
          header_written = write_header_lem p s hd;
          crc_written = write_crc_lem p s0 [] h;
          same_buffer = refl;
          code_by_flash = rw bad refl;
        }
        | inr good ↦
            let kept : OnFlash p (flashed p s1) =
              flashed-OnFlash p d s1 (length-buffer c1.holds) good in
            record {
              code = pos 0;
              after = flashed p s1;
              returns =
                  write_defaults_succeeds (write_header_lem p s hd) (write_crc_lem p s0 [] h) good
                    (read_buffer-OnFlash p (flashed p s1) kept)
                    (check_data-Sealed p (flashed p s1) [] (Sealed-flashed p s1 [] c1));
              is_sealed = Sealed-flashed p s1 [] c1;
              kept = λ _. kept;
              tried = s1;
              headed = s0;
              header_written = write_header_lem p s hd;
              crc_written = write_crc_lem p s0 [] h;
              same_buffer = refl;
              code_by_flash = rw good refl;
            }
      ]
