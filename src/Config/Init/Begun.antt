-- ===== src/Config/Init/Begun.antt =====
-- A write that begins while `write_defaults` sleeps, and ends once `config_init` has returned: both
-- sleep as long, so the one that slept first wakes up first.
use tdoa.Base.{
  ℕ, ◌+◌, ◌≤◌, ◌≡◌, refl, arith, true, false, some, List, [], ◌∷◌, ◌>>=◌, pos, is_neg, length, take,
  same_bytes, le_bytes,
}
use tdoa.Config.Platform.{NvsFs, Platform, Durable}
use tdoa.Config.State.{size_tlv_max, config_nvs_id, magic, ConfigField, field_code, State, boot}
use tdoa.Config.Tlv.Store.{upsert}
use tdoa.Config.Save.Begun.{begin_write, end_write, begin_write-Sealed, end_write-OnFlash}
use tdoa.Config.Save.Crc.{Sealed}
use tdoa.Config.Save.Write.{OnFlash}
use tdoa.Config.Init.First.{ReadsShort}
use tdoa.Config.Init.Restart.{Restarts, mounted_fs}
use tdoa.Config.Init.Meanwhile.{config_init_with-first}
use tdoa.Config.Init.Sleeps.{
  Others, in_main, in_flash_init, in_config_init, in_write_defaults, config_init_with,
}

-- In the sleep of `write_defaults` another thread calls `write_value`, which sleeps in turn.
unfoldable pub begins_write : (p : Platform) → ConfigField → ℕ → List ℕ → Others p
begins_write p field size value in_main s = some s
begins_write p field size value in_flash_init s = some s
begins_write p field size value in_config_init s = some s
begins_write p field size value in_write_defaults s = do
  (_, t) ← begin_write p s field size value
  some t

module _ (p : Platform) (d : Durable p) (restarts : Restarts p) (short : ReadsShort p)
    (accepts : (fs : NvsFs) (flash : p.Flash) (bytes : List ℕ)
      → is_neg (p.nvs_write fs flash config_nvs_id bytes).0 ≡ false)
    (flash : p.Flash)
    (absent : is_neg (p.nvs_read (mounted_fs p restarts) flash config_nvs_id 4).0 ≡ true)
    (a b c e : ℕ) (no_magic : same_bytes (a ∷ b ∷ []) (le_bytes 2 magic) ≡ false) where
  pub config_init_with_begun :
      (field : ConfigField) (size : ℕ) (value : List ℕ)
      → size ≤ length value
      → 2 + size ≤ size_tlv_max
      → (t : State p.Flash) × (config_init_with p
            (begins_write p field size value)
            (a ∷ b ∷ c ∷ e ∷ [])
            (boot flash)
          ≡ some (pos 0, t))
        × (end_write p t ≡ some (pos 0, t))
        × Sealed p t (upsert (field_code field) (take size value) [])
        × OnFlash p t
  unfolding begins_write
  config_init_with_begun field size value has fits =
      let (t, inits, sealed, on) =
        config_init_with-first p d restarts short accepts flash absent a b c e no_magic
          (begins_write p field size value) (upsert (field_code field) (take size value) [])
          (λ u. refl) (λ u. refl)
          (λ u empty.
            let (t, begins, c_t, on) =
              begin_write-Sealed p d accepts u [] empty field size value has (omega arith) in
            (t, rw begins refl, c_t, on)) in
      (t, inits, end_write-OnFlash p t on, sealed, on)
