-- ===== src/Cli/Saving.antt =====
-- Writes of the store while NVS takes every write, as the commands rely on it.
use tdoa.Base.{
  ℕ, ◌+◌, ◌^◌, ◌≤◌, ◌<◌, ◌≡◌, ap, ◌∙◌, false, some, Option, List, ℤ, pos, neg, is_neg, le_bytes,
  if◌then◌else◌,
}
use tdoa.Config.Platform.{NvsFs, Platform, Durable}
use tdoa.Config.State.{size_tlv_max, config_nvs_id, ConfigField, field_code, State}
use tdoa.Config.Tlv.Store.{Entry, size_of, upsert}
use tdoa.Config.Tlv.Encoded.{Holds}
use tdoa.Config.Save.Crc.{Sealed}
use tdoa.Config.Save.Write.{Stored, OnFlash}
use tdoa.Config.Api.{write_number}
use tdoa.Config.Api.Laws.{write_number-Stored}

-- No write fails.
abbrev pub Accepts : Platform → Type 0
Accepts p =
    (fs : NvsFs) (flash : p.Flash) (bytes : List ℕ)
    → is_neg (p.nvs_write fs flash config_nvs_id bytes).0 ≡ false

-- A write of `s` that returned 0, and left the entries `es` under their checksum, in memory and on
-- flash, and the file system as it was mounted.
pub record Saved (p : Platform) (s : State p.Flash) (es : List Entry)
    (r : Option (ℤ × State p.Flash)) : Type 0 where
  pub after : State p.Flash
  pub returns : r ≡ some (pos 0, after)
  pub is_sealed : Sealed p after es
  pub on_flash : OnFlash p after
  pub same_fs : after.fs ≡ s.fs

module _ (p : Platform) (d : Durable p) (accepts : Accepts p) (s : State p.Flash) where
  pub Stored→Saved :
      (es : List Entry) {r : Option (ℤ × State p.Flash)} → Stored p s es r → Saved p s es r
  Stored→Saved es w =
      let zero : w.code ≡ pos 0 =
        w.code_by_flash
        ∙ ap (λ b. if b then neg 3 else pos 0) (accepts w.tried.fs w.tried.flash w.tried.buffer) in
      record {
        after = w.after;
        returns = w.returns ∙ ap (λ c. some (c, w.after)) zero;
        is_sealed = w.is_sealed;
        on_flash = w.kept zero;
        same_fs = ap (λ (u : State p.Flash). u.fs) w.same_buffer ∙ w.same_device.1;
      }

  pub write_number-Saved :
      (field : ConfigField) (k v : ℕ) (es : List Entry)
      → Holds s es
      → v < 256 ^ k
      → 2 + k + size_of es ≤ size_tlv_max
      → Saved p s (upsert (field_code field) (le_bytes k v) es) (write_number p s field k v)
  write_number-Saved field k v es h small fits =
      Stored→Saved (upsert (field_code field) (le_bytes k v) es)
        (write_number-Stored p d s field k v es h small fits)
