-- ===== src/Config/Save/Write.antt =====
-- `write_value` as a whole: the buffer, its checksum, the flash and the result.
use tdoa.Base.{
  ℕ, ◌≡◌, refl, ap, subst, ◌∙◌, true, false, some, inl, inr, List, ◌++◌, arith, length,
  if◌then◌else◌, length-append, drop_all, append-nil, Bool, le_bytes, Option, Bool-cases, ℤ, pos,
  neg, is_neg, write_at,
}
use tdoa.Config.Platform.{Platform, Durable}
use tdoa.Config.State.{size_read, config_nvs_id, State}
use tdoa.Config.Tlv.Store.{Entry, encode, length-encode, size_of}
use tdoa.Config.Tlv.Encoded.{Holds, tlv_length-Holds}
use tdoa.Config.Tlv.Total.{IsReadable}
use tdoa.Config.Save.{write_crc, read_buffer, write_buffer, save_value}
use tdoa.Config.Save.Crc.{Sealed, with_crc, write_crc_lem, with_crc-Sealed, Sealed-transfer}

pub length-buffer :
    {Flash : Type 0} {s : State Flash} {es : List Entry} → Holds s es → length s.buffer ≡ size_read
length-buffer {es = es} h =
    ap length h.layout
    ∙ omega (
      arith,
      length-append h.front (le_bytes 2 (size_of es) ++ (encode es ++ h.tail)),
      length-append (encode es) h.tail,
      length-encode es,
      h.length-front,
      h.room,
    )

pub write_at_whole : (m : List ℕ) → write_at m 0 m ≡ some m
write_at_whole m = ground (arith, drop_all (length m) m, append-nil m)

-- A buffer of entries can be read.
pub Holds-IsReadable :
    {Flash : Type 0} {s : State Flash} {es : List Entry} → Holds s es → IsReadable s
Holds-IsReadable {s = s} {es = es} h = record {
  length-buffer = length-buffer h;
  data_set = h.data_set;
  len = size_of es;
  has_length = tlv_length-Holds s es h;
  small = omega (arith, h.fits);
}

write_at_all : (m bs : List ℕ) → length m ≡ length bs → write_at m 0 bs ≡ some bs
write_at_all m bs e = ground (arith, drop_all (length bs) m, append-nil bs)

module _ (p : Platform) where
  open p use {Flash, nvs_read, nvs_write}

  -- A read of the entry from flash returns the buffer.
  abbrev pub OnFlash : State Flash → Type 0
  OnFlash s = nvs_read s.fs s.flash config_nvs_id size_read ≡ (pos size_read, s.buffer)

  -- The bookkeeping of flash is replaced by what the write of the buffer leaves.
  abbrev pub flashed : State Flash → State Flash
  flashed s = record s { flash = (nvs_write s.fs s.flash config_nvs_id s.buffer).1 }

  abbrev pub write_fails : State Flash → Bool
  write_fails s = is_neg (nvs_write s.fs s.flash config_nvs_id s.buffer).0

  pub Sealed-flashed : (s : State Flash) (es : List Entry) → Sealed p s es → Sealed p (flashed s) es
  Sealed-flashed s es c = Sealed-transfer p s (flashed s) es refl refl c

  save_value_fails :
      (s : State Flash) {s1 : State Flash}
      → write_crc p s ≡ some s1
      → write_fails s1 ≡ true
      → save_value p s ≡ some (neg 3, flashed s1)
  unfolding save_value write_buffer
  save_value_fails s a b = ground arith

  save_value_succeeds :
      (s : State Flash) {s1 s3 : State Flash}
      → write_crc p s ≡ some s1
      → write_fails s1 ≡ false
      → read_buffer p (flashed s1) ≡ some (pos 0, s3)
      → save_value p s ≡ some (pos 0, s3)
  unfolding save_value write_buffer
  save_value_succeeds s a b c = ground arith

  pub read_buffer_lem :
      (s : State Flash) {bytes : List ℕ}
      → nvs_read s.fs s.flash config_nvs_id size_read ≡ (pos size_read, bytes)
      → length s.buffer ≡ length bytes
      → read_buffer p s ≡ some (pos 0, record s { buffer = bytes })
  unfolding read_buffer
  read_buffer_lem s {bytes} e h = rw e (rw (write_at_all s.buffer bytes h) refl)

  -- Reading an entry that is on flash leaves the state as it is.
  pub read_buffer-OnFlash : (s : State Flash) → OnFlash s → read_buffer p s ≡ some (pos 0, s)
  unfolding read_buffer
  read_buffer-OnFlash s e = rw e (rw (write_at_whole s.buffer) refl)

  pub flashed-OnFlash :
      (d : Durable p) (s : State Flash)
      → length s.buffer ≡ size_read
      → write_fails s ≡ false
      → OnFlash (flashed s)
  flashed-OnFlash d s l e =
      subst (λ k. nvs_read s.fs (flashed s).flash config_nvs_id k ≡ (pos k, s.buffer)) l
        (d.nvs_read-nvs_write s.fs s.flash config_nvs_id s.buffer e)

  -- What an attempt to store `es` leads to. The buffer holds the entries under a checksum whether
  -- or not flash takes them; with the result 0 they are on flash.
  pub record Stored (s : State Flash) (es : List Entry) (r : Option (ℤ × State Flash))
      : Type 0 where
    pub code : ℤ
    pub after : State Flash
    pub returns : r ≡ some (code, after)
    pub is_sealed : Sealed p after es
    pub kept : code ≡ pos 0 → OnFlash after
    pub tried : State Flash
    pub same_buffer : after ≡ flashed tried
    pub code_by_flash : code ≡ (if write_fails tried then neg 3 else pos 0)
    pub same_device : (tried.flash ≡ s.flash) × (tried.fs ≡ s.fs)

  pub save_value-Stored :
      (d : Durable p) (s : State Flash) (es : List Entry)
      → Holds s es
      → Stored s es (save_value p s)
  save_value-Stored d s es h =
      let s1 = with_crc p s es h in
      let c1 = with_crc-Sealed p s es h in
      elim (Bool-cases (write_fails s1)) [
        | inl bad ↦ record {
          code = neg 3;
          after = flashed s1;
          returns = save_value_fails s (write_crc_lem p s es h) bad;
          is_sealed = Sealed-flashed s1 es c1;
          kept = λ e. cc;
          tried = s1;
          same_buffer = refl;
          code_by_flash = rw bad refl;
          same_device = (refl, refl);
        }
        | inr good ↦
            let kept : OnFlash (flashed s1) = flashed-OnFlash d s1 (length-buffer c1.holds) good in
            record {
              code = pos 0;
              after = flashed s1;
              returns =
                  save_value_succeeds s (write_crc_lem p s es h) good
                    (read_buffer-OnFlash (flashed s1) kept);
              is_sealed = Sealed-flashed s1 es c1;
              kept = λ _. kept;
              tried = s1;
              same_buffer = refl;
              code_by_flash = rw good refl;
              same_device = (refl, refl);
            }
      ]
