-- ===== src/Config/Init/First.antt =====
-- `config_init` of a board whose flash holds no configuration.
use tdoa.Base.{
  ℕ, ◌≤◌, ◌≡◌, refl, ap, ◌∙◌, true, false, some, List, [], ◌∷◌, ◌++◌, arith, length, replicate, ℤ,
  pos, neg, is_neg, if◌then◌else◌, same_bytes, le_bytes,
}
use tdoa.Config.Platform.{NvsFs, Platform, Durable}
use tdoa.Config.State.{size_read, size_header, config_nvs_id, magic, State, boot, tlv_length}
use tdoa.Config.Save.{check_magic, check_data, read_buffer}
use tdoa.Config.Save.Crc.{Sealed}
use tdoa.Config.Save.Write.{OnFlash}
use tdoa.Config.Init.{ensure_entry, flash_init, write_defaults, load_config, config_init}
use tdoa.Config.Init.Defaults.{Reset, write_defaults-Reset}
use tdoa.Config.Init.Reboot.{config_init_run}
use tdoa.Config.Init.Restart.{Restarts, mounted_fs}

-- The documentation of NVS: a read of more bytes than an entry has gives the whole entry.
abbrev pub ReadsShort : Platform → Type 0
ReadsShort p =
    (fs : NvsFs) (flash : p.Flash) (id n : ℕ) (bytes : List ℕ)
    → is_neg (p.nvs_write fs flash id bytes).0 ≡ false
    → length bytes ≤ n
    → p.nvs_read fs (p.nvs_write fs flash id bytes).1 id n ≡ (pos (length bytes), bytes)

module _ (p : Platform) (d : Durable p) (restarts : Restarts p) (short : ReadsShort p)
    (accepts : (fs : NvsFs) (flash : p.Flash) (bytes : List ℕ)
      → is_neg (p.nvs_write fs flash config_nvs_id bytes).0 ≡ false)
    (flash : p.Flash)
    (absent : is_neg (p.nvs_read (mounted_fs p restarts) flash config_nvs_id 4).0 ≡ true)
    (a b c e : ℕ) (no_magic : same_bytes (a ∷ b ∷ []) (le_bytes 2 magic) ≡ false) where
  -- What `dummy_buffer` holds.
  abbrev pub garbage : List ℕ
  garbage = a ∷ b ∷ c ∷ e ∷ []

  -- The state after `flash_init`, and after the read of the entry that it wrote.
  abbrev pub blank : State p.Flash
  blank = record (boot flash) {
    fs = mounted_fs p restarts;
    flash =
        (p.nvs_write (mounted_fs p restarts) (p.nvs_mount (mounted_fs p restarts) flash).1
          config_nvs_id garbage).1;
  }

  abbrev pub filled : State p.Flash
  filled = record blank { buffer = garbage ++ replicate 124 0; tlv = some size_header }

  pub flash_init-blank : flash_init p garbage (boot flash) ≡ (pos 0, blank)
  unfolding flash_init ensure_entry boot
  flash_init-blank =
      let fs = mounted_fs p restarts in
      let missing : is_neg (p.nvs_read fs (p.nvs_mount fs flash).1 config_nvs_id 4).0 ≡ true =
        ap (λ (r : ℤ × List ℕ). is_neg r.0) (restarts.nvs_read-nvs_mount fs flash config_nvs_id 4)
        ∙ absent in
      let taken = accepts fs (p.nvs_mount fs flash).1 garbage in
      rw (restarts.paged flash)
        (rw (restarts.ready flash) (rw (restarts.mounts fs flash) (rw missing (rw taken refl))))

  pub read_buffer-blank : read_buffer p blank ≡ some (pos 0, record filled { tlv = blank.tlv })
  unfolding read_buffer boot
  read_buffer-blank =
      let fs = mounted_fs p restarts in
      let mounted = (p.nvs_mount fs flash).1 in
      rw
        (short fs mounted config_nvs_id size_read garbage (accepts fs mounted garbage)
          (omega arith))
        refl

  pub check_data-filled : check_data p filled ≡ some (neg 1)
  unfolding check_data check_magic
  check_data-filled = rw no_magic refl

  load_config_defaults :
      {after : State p.Flash}
      → write_defaults p filled ≡ some (pos 0, after)
      → load_config p blank ≡ some (pos 0, after)
  unfolding load_config
  load_config_defaults w = rw read_buffer-blank (rw check_data-filled (rw w refl))

  config_init-blank :
      {after : State p.Flash}
      → load_config p blank ≡ some (pos 0, after)
      → config_init p garbage (boot flash) ≡ some (pos 0, after)
  config_init-blank l =
      config_init_run p garbage (boot flash) (ap (λ r. r.0) flash_init-blank)
      ∙ ap (λ (r : ℤ × State p.Flash). load_config p r.1) flash_init-blank
      ∙ l

  pub record FirstStart : Type 0 where
    pub after : State p.Flash
    pub returns : config_init p garbage (boot flash) ≡ some (pos 0, after)
    pub is_sealed : Sealed p after []
    pub on_flash : OnFlash p after

  pub config_init-FirstStart : FirstStart
  unfolding tlv_length boot
  config_init-FirstStart =
      let reset : Reset p filled (write_defaults p filled) =
        write_defaults-Reset p filled d refl refl refl in
      let zero : reset.code ≡ pos 0 =
        reset.code_by_flash
        ∙ ap (λ b. if b then neg 1 else pos 0)
            (accepts reset.tried.fs reset.tried.flash reset.tried.buffer) in
      record {
        after = reset.after;
        returns =
            config_init-blank
              (load_config_defaults (reset.returns ∙ ap (λ k. some (k, reset.after)) zero));
        is_sealed = reset.is_sealed;
        on_flash = reset.kept zero;
      }
