-- ===== src/Config/Init/Meanwhile.antt =====
-- Writes of the store by another thread while `write_defaults` sleeps.
use tdoa.Base.{
  ℕ, ◌≡◌, refl, ap, subst, neg, ◌∙◌, arith, true, false, some, List, [], ◌∷◌, ℤ, pos, is_neg,
  is_zero, same_bytes, le_bytes,
}
use tdoa.Config.Platform.{NvsFs, Platform, Durable}
use tdoa.Config.State.{config_nvs_id, magic, size_header, State, boot, tlv_length}
use tdoa.Config.Tlv.Store.{Entry}
use tdoa.Config.Save.{write_crc, check_data, read_buffer, write_buffer}
use tdoa.Config.Save.Crc.{Sealed, check_data-Sealed}
use tdoa.Config.Save.Write.{OnFlash, flashed, write_fails, read_buffer-OnFlash}
use tdoa.Config.Init.{write_header, write_defaults}
use tdoa.Config.Init.Defaults.{Reset, write_defaults-Reset}
use tdoa.Config.Init.First.{
  ReadsShort, blank, filled, flash_init-blank, read_buffer-blank, check_data-filled,
}
use tdoa.Config.Init.Restart.{Restarts, mounted_fs}
use tdoa.Config.Init.Sleeps.{
  Others, in_flash_init, in_config_init, in_write_defaults, flash_init_with, write_defaults_with,
  load_config_with, config_init_with,
}
use tdoa.Config.Init.Quiet.{flash_init_with_quiet}

module _ (p : Platform) (others : Others p) where
  open p use {Flash}

  pub write_defaults_with_run :
      (s : State Flash) {s0 s1 t : State Flash} (es : List Entry)
      → write_header p s ≡ some s0
      → write_crc p s0 ≡ some s1
      → write_fails p s1 ≡ false
      → others in_write_defaults (flashed p s1) ≡ some t
      → Sealed p t es
      → OnFlash p t
      → write_defaults_with p others s ≡ some (pos 0, t)
  unfolding write_defaults_with write_buffer
  write_defaults_with_run s {s0} {s1} {t} es a b c during c_t on =
      let r = read_buffer-OnFlash p t on in
      let k = check_data-Sealed p t es c_t in ground (arith, r, k)

  load_config_with_defaults :
      (s : State Flash) {s1 after : State Flash} (r : ℤ)
      → others in_config_init s ≡ some s
      → read_buffer p s ≡ some (pos 0, s1)
      → check_data p (record s1 { tlv = some size_header }) ≡ some r
      → is_zero r ≡ false
      → write_defaults_with p others (record s1 { tlv = some size_header }) ≡ some (pos 0, after)
      → load_config_with p others s ≡ some (pos 0, after)
  unfolding load_config_with
  load_config_with_defaults s r a b c d e = ground arith

  config_init_with_run :
      (dummy : List ℕ) (s s1 : State Flash)
      → flash_init_with p others dummy s ≡ some (pos 0, s1)
      → config_init_with p others dummy s ≡ load_config_with p others s1
  unfolding config_init_with
  config_init_with_run dummy s s1 e = rw e refl

module _ (p : Platform) (d : Durable p) (restarts : Restarts p) (short : ReadsShort p)
    (accepts : (fs : NvsFs) (flash : p.Flash) (bytes : List ℕ)
      → is_neg (p.nvs_write fs flash config_nvs_id bytes).0 ≡ false)
    (flash : p.Flash)
    (absent : is_neg (p.nvs_read (mounted_fs p restarts) flash config_nvs_id 4).0 ≡ true)
    (a b c e : ℕ) (no_magic : same_bytes (a ∷ b ∷ []) (le_bytes 2 magic) ≡ false) where
  -- What a new board's `config_init` leaves if others write the store in the sleep of
  -- `write_defaults` only, from an empty one to one of `es`.
  pub config_init_with-first :
      (others : Others p) (es : List Entry)
      → ((u : State p.Flash) → others in_flash_init u ≡ some u)
      → ((u : State p.Flash) → others in_config_init u ≡ some u)
      → ((u : State p.Flash)
          → Sealed p u []
          → (t : State p.Flash) × (others in_write_defaults u ≡ some t)
            × Sealed p t es
            × OnFlash p t)
      → (t : State p.Flash) × (config_init_with p others (a ∷ b ∷ c ∷ e ∷ []) (boot flash)
          ≡ some (pos 0, t))
        × Sealed p t es
        × OnFlash p t
  unfolding tlv_length boot
  config_init_with-first others es still_flash still_init writes =
      let start = blank p d restarts short accepts flash absent a b c e no_magic in
      let full = filled p d restarts short accepts flash absent a b c e no_magic in
      let reset : Reset p full (write_defaults p full) =
        write_defaults-Reset p full d refl refl refl in
      let empty : Sealed p (flashed p reset.tried) [] =
        subst (λ u. Sealed p u []) reset.same_buffer reset.is_sealed in
      let (t, during, c_t, on) = writes (flashed p reset.tried) empty in
      let defaults =
        write_defaults_with_run p others full es reset.header_written reset.crc_written
          (accepts reset.tried.fs reset.tried.flash reset.tried.buffer) during c_t on in
      let loads =
        load_config_with_defaults p others start (neg 1) (still_init start)
          (read_buffer-blank p d restarts short accepts flash absent a b c e no_magic)
          (check_data-filled p d restarts short accepts flash absent a b c e no_magic) refl
          defaults in
      let inits =
        flash_init_with_quiet p others still_flash (a ∷ b ∷ c ∷ e ∷ []) (boot flash)
        ∙ ap some (flash_init-blank p d restarts short accepts flash absent a b c e no_magic) in
      (
        t,
        config_init_with_run p others (a ∷ b ∷ c ∷ e ∷ []) (boot flash) start inits ∙ loads,
        c_t,
        on,
      )
