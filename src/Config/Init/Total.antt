-- ===== src/Config/Init/Total.antt =====
-- `config_init` over any contents of flash.
use tdoa.Base.{
  write_front, ℕ, ◌≤◌, ◌≡◌, refl, ap, ◌∙◌, false, some, inl, inr, List, ◌++◌, arith, length, drop,
  Bool-cases, length-append, length-drop, ℤ, pos, neg, is_zero, is_neg, if◌then◌else◌,
}
use tdoa.Config.Platform.{Platform, Durable}
use tdoa.Config.State.{config_nvs_id, size_read, size_header, size_tlv_max, State, boot, tlv_length}
use tdoa.Config.Tlv.Total.{IsReadable}
use tdoa.Config.Save.{write_crc, check_data, read_buffer, write_buffer}
use tdoa.Config.Save.Write.{flashed, write_fails, flashed-OnFlash, read_buffer-OnFlash}
use tdoa.Config.Init.Bounded.{IsBounded, check_data_total, write_crc_total}
use tdoa.Config.Init.{write_header, write_defaults, load_config, flash_init, config_init}
use tdoa.Config.Init.Reboot.{buffer-flash_init}
use tdoa.Config.Init.Header.{
  Header, split-Header, stamped_state, tlv_length_kept, length-stamped, write_header_lem,
}
use tdoa.Config.Init.Defaults.{write_defaults_fails}

module _ (p : Platform) where
  open p use {Flash}

  pub IsBounded-IsReadable :
      (s : State Flash) → IsBounded s → s.tlv ≡ some size_header → IsReadable s
  IsBounded-IsReadable s h t = record {
    length-buffer = h.length-buffer;
    data_set = t;
    len = h.len;
    has_length = h.has_length;
    small = omega (arith, h.bounded);
  }

  stamped-IsBounded :
      (s : State Flash) (hd : Header s.buffer) → IsBounded s → IsBounded (stamped_state s hd)
  stamped-IsBounded s hd h = record {
    length-buffer = length-stamped s hd ∙ h.length-buffer;
    len = h.len;
    has_length = tlv_length_kept s hd ∙ h.has_length;
    bounded = h.bounded;
  }

  flashed-IsBounded : (s : State Flash) → IsBounded s → IsBounded (flashed p s)
  unfolding tlv_length
  flashed-IsBounded s h = record {
    length-buffer = h.length-buffer;
    len = h.len;
    has_length = h.has_length;
    bounded = h.bounded;
  }

  with_tlv-IsBounded :
      (s : State Flash) → IsBounded s → IsBounded (record s { tlv = some size_header })
  unfolding tlv_length
  with_tlv-IsBounded s h = record {
    length-buffer = h.length-buffer;
    len = h.len;
    has_length = h.has_length;
    bounded = h.bounded;
  }

  write_defaults_checks :
      (s : State Flash) {s0 s1 s3 : State Flash} (k : ℤ)
      → write_header p s ≡ some s0
      → write_crc p s0 ≡ some s1
      → write_fails p s1 ≡ false
      → read_buffer p (flashed p s1) ≡ some (pos 0, s3)
      → check_data p s3 ≡ some k
      → write_defaults p s ≡ some (if is_zero k then pos 0 else neg 3, s3)
  unfolding write_defaults write_buffer
  write_defaults_checks s k a b c d e = ground arith

  write_defaults_total :
      Durable p
      → (s : State Flash) (h : IsBounded s) → s.tlv ≡ some size_header
      → (r : ℤ) × (after : State Flash) × (write_defaults p s ≡ some (r, after)) × IsReadable after
  write_defaults_total d s h t =
      let hd = split-Header s.buffer h.length-buffer in
      let s0 = stamped_state s hd in
      let (s1, e, same, h1) = write_crc_total p s0 (stamped-IsBounded s hd h) in
      let after = flashed p s1 in
      let h2 = flashed-IsBounded s1 h1 in
      let readable = IsBounded-IsReadable after h2 (same ∙ t) in
      let (k, ek) = check_data_total p after h2 in
      elim (Bool-cases (write_fails p s1)) [
        | inl bad ↦
            (neg 1, after, write_defaults_fails p s (write_header_lem p s hd) e bad, readable)
        | inr good ↦ (
          if is_zero k then pos 0 else neg 3,
          after,
          write_defaults_checks s k (write_header_lem p s hd) e good
              (read_buffer-OnFlash p after (flashed-OnFlash p d s1 h1.length-buffer good)) ek,
          readable,
        )
      ]

  -- Over whatever was read from flash, if the checksum behind the values fits the buffer, the rest
  -- of `config_init` comes to a result, and leaves contents that can be read.
  pub load_config_total :
      Durable p
      → (s s1 : State Flash) (r : ℤ) → read_buffer p s ≡ some (r, s1)
      → IsBounded s1
      → (q : ℤ) × (after : State Flash) × (load_config p s ≡ some (q, after))
        × (q ≡ pos 0 → IsReadable after)
  unfolding load_config
  load_config_total d s s1 r e h =
      let s2 : State Flash = record s1 { tlv = some size_header } in
      let h2 : IsBounded s2 = with_tlv-IsBounded s1 h in
      let (k, ek) = check_data_total p s2 h2 in
      let (w, after, ew, readable) = write_defaults_total d s2 h2 refl in
      elim (Bool-cases (is_zero r)) [
        | inr bad ↦ (neg 2, s1, ground arith, λ z. cc)
        | inl good ↦ elim (Bool-cases (is_zero k)) [
          | inl fine ↦ (pos 0, s2, ground arith, λ _. IsBounded-IsReadable s2 h2 refl)
          | inr rejected ↦ (if is_zero w then pos 0 else neg 3, after, ground arith, λ _. readable)
        ]
      ]

  -- The state after `read_buffer`, whatever that returns.
  abbrev pub first_read : State Flash → State Flash
  first_read s =
      let bytes = (p.nvs_read s.fs s.flash config_nvs_id size_read).1 in
      record s { buffer = bytes ++ drop (length bytes) s.buffer }

  read_buffer_total :
      Durable p
      → (s : State Flash) → length s.buffer ≡ size_read
      → (r : ℤ) × (read_buffer p s ≡ some (r, first_read s))
        × (length (first_read s).buffer ≡ size_read)
  unfolding read_buffer
  read_buffer_total d s l =
      let (r, bytes) = p.nvs_read s.fs s.flash config_nvs_id size_read in
      let short = d.length-nvs_read s.fs s.flash config_nvs_id size_read in
      (
        if is_neg r then r else pos 0,
        rw (write_front s.buffer bytes (omega (arith, short, l))) refl,
        omega (
          arith,
          short,
          l,
          length-append bytes (drop (length bytes) s.buffer),
          length-drop (length bytes) s.buffer,
        ),
      )

  -- `config_init` of a board that starts, over any contents of flash with such a length.
  pub config_init_total :
      Durable p
      → (dummy : List ℕ) (flash : Flash) (len : ℕ)
      → tlv_length (first_read (flash_init p dummy (boot flash)).1) ≡ some len
      → len ≤ size_tlv_max
      → (q : ℤ) × (after : State Flash) × (config_init p dummy (boot flash) ≡ some (q, after))
        × (q ≡ pos 0 → IsReadable after)
  unfolding config_init boot
  config_init_total d dummy flash len e bounded =
      let s = (flash_init p dummy (boot flash)).1 in
      let (r, read, l) =
        read_buffer_total d s (ap length (buffer-flash_init p dummy (boot flash))) in
      let (q, after, run, readable) =
        load_config_total d s (first_read s) r read
          (record { length-buffer = l; len = len; has_length = e; bounded = bounded }) in
      elim (Bool-cases (is_zero (flash_init p dummy (boot flash)).0)) [
        | inr bad ↦ (neg 1, s, ground arith, λ z. cc)
        | inl good ↦ (q, after, ground arith, readable)
      ]
