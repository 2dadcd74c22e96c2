-- ===== src/Config/Api/Refused.antt =====
-- What a write leaves that NVS refuses.
use tdoa.Base.{
  Option, ℕ, ◌+◌, ◌^◌, ◌<◌, ◌≡◌, refl, sym, ap, ap₂, ◌∙◌, true, some, List, arith, if◌then◌else◌, ℤ,
  pos, neg, is_neg, le_bytes,
}
use tdoa.Config.Platform.{NvsFs, Platform, Durable}
use tdoa.Config.State.{size_read, size_tlv_max, config_nvs_id, ConfigField, field_code, State}
use tdoa.Config.Tlv.Store.{Entry, size_of, lookup-upsert_self}
use tdoa.Config.Save.{read_buffer, config_refresh}
use tdoa.Config.Save.Crc.{Sealed, Sealed-transfer}
use tdoa.Config.Save.Write.{Stored, OnFlash, length-buffer, read_buffer_lem}
use tdoa.Config.Api.{read_number, write_number}
use tdoa.Config.Api.Laws.{read_number_entry, write_number-Stored, size_of-written, written}

-- The documentation of NVS: a write that fails leaves what can be read as it was.
abbrev pub KeepsOnFailure : Platform → Type 0
KeepsOnFailure p =
    (fs : NvsFs) (flash : p.Flash) (id n : ℕ) (bytes : List ℕ)
    → is_neg (p.nvs_write fs flash id bytes).0 ≡ true
    → p.nvs_read fs (p.nvs_write fs flash id bytes).1 id n ≡ p.nvs_read fs flash id n

module _ (p : Platform) where
  open p use {Flash}

  config_refresh_run :
      (s : State Flash) {t : State Flash}
      → read_buffer p s ≡ some (pos 0, t)
      → config_refresh p s ≡ some (pos 0, t)
  unfolding config_refresh
  config_refresh_run s e = rw e refl

  module _ (d : Durable p) (keeps : KeepsOnFailure p) (s : State Flash) (es : List Entry)
      (sealed : Sealed p s es) (on : OnFlash p s)
      (refuses : (bytes : List ℕ)
        → is_neg (p.nvs_write s.fs s.flash config_nvs_id bytes).0 ≡ true) where
    refreshed :
        {es' : List Entry} {r : Option (ℤ × State Flash)} (w : Stored p s es' r)
        → config_refresh p w.after ≡ some (pos 0, record w.after { buffer = s.buffer })
    refreshed w = config_refresh_run w.after (
        read_buffer_lem p w.after
          (ap (λ (u : State Flash). p.nvs_read u.fs u.flash config_nvs_id size_read) w.same_buffer
            ∙ ap₂
                (λ flash fs.
                  p.nvs_read fs (p.nvs_write fs flash config_nvs_id w.tried.buffer).1 config_nvs_id
                    size_read)
                w.same_device.0 w.same_device.1
            ∙ keeps s.fs s.flash config_nvs_id size_read w.tried.buffer (refuses w.tried.buffer)
            ∙ on)
          (length-buffer w.is_sealed.holds ∙ sym (length-buffer sealed.holds)))

    -- Over entries under their checksum, in memory and on flash, with a byte to spare, and an NVS
    -- whose failed writes leave what can be read as it was: a number that NVS refuses to store is
    -- reported with -3, but it stays in memory, and a read gives it all the same; a
    -- `config_refresh` brings back the entries that are on flash.
    pub write_number-refused :
        (field : ConfigField) (k v value : ℕ)
        → v < 256 ^ k
        → 2 + k + size_of es < size_tlv_max
        → (after : State Flash) × (write_number p s field k v ≡ some (neg 3, after))
          × (read_number p after field k value ≡ some (pos 0, v))
          × (t : State Flash) × (config_refresh p after ≡ some (pos 0, t))
          × Sealed p t es
    write_number-refused field k v value small fits =
        let w = write_number-Stored p d s field k v es sealed.holds small (omega arith) in
        let fails : w.code ≡ neg 3 =
          w.code_by_flash
          ∙ ap (λ b. if b then neg 3 else pos 0)
              (ap₂ (λ flash fs. is_neg (p.nvs_write fs flash config_nvs_id w.tried.buffer).0)
                  w.same_device.0 w.same_device.1
                ∙ refuses w.tried.buffer) in
        let es' = written p d s field k v es sealed.holds small in
        let t = record w.after { buffer = s.buffer } in
        (
          w.after,
          w.returns ∙ ap (λ c. some (c, w.after)) fails,
          read_number_entry p w.after field k es' value v w.is_sealed.holds
              (lookup-upsert_self (field_code field) (le_bytes k v) es)
              (size_of-written p d s field k v es sealed.holds small fits) small,
          t,
          refreshed w,
          Sealed-transfer p s t es refl (w.is_sealed.holds.data_set ∙ sym sealed.holds.data_set)
              sealed,
        )
