-- ===== src/Config/Init/Restart.antt =====
-- `flash_init` of a board that starts over the flash of a saved store.
use tdoa.Base.{◌%◌, ◌^◌, ℕ, ◌≡◌, refl, ◌∙◌, subst, false, true, List, pos, is_neg}
use tdoa.Config.Platform.{NvsFs, Platform}
use tdoa.Config.State.{size_read, config_nvs_id, State, boot}
use tdoa.Config.Save.Write.{OnFlash}
use tdoa.Config.Init.{ensure_entry, flash_init}

-- A device that works, and what the documentation of NVS promises of a mount: what could be read
-- before can be read again, and an entry that is there is found by a read of any length.
pub record Restarts (p : Platform) : Type 0 where
  pub page_size : ℕ
  pub ready : (flash : p.Flash) → p.device_is_ready flash ≡ true
  pub paged :
      (flash : p.Flash)
      → p.flash_get_page_info_by_offs flash p.partition_offset ≡ (pos 0, page_size)
  pub mounts : (fs : NvsFs) (flash : p.Flash) → (p.nvs_mount fs flash).0 ≡ pos 0
  pub nvs_read-nvs_mount :
      (fs : NvsFs) (flash : p.Flash) (id n : ℕ)
      → p.nvs_read fs (p.nvs_mount fs flash).1 id n ≡ p.nvs_read fs flash id n
  pub found :
      (fs : NvsFs) (flash : p.Flash) (id n m : ℕ) {bytes : List ℕ}
      → p.nvs_read fs flash id n ≡ (pos n, bytes)
      → is_neg (p.nvs_read fs flash id m).0 ≡ false

module _ (p : Platform) (restarts : Restarts p) where
  -- The file system that `flash_init` mounts.
  abbrev pub mounted_fs : NvsFs
  mounted_fs = record {
    offset = p.partition_offset;
    sector_size = restarts.page_size % 2 ^ 16;
    sector_count = 3;
  }

  abbrev pub remounted : p.Flash → State p.Flash
  remounted flash = record (boot flash) {
    fs = mounted_fs;
    flash = (p.nvs_mount mounted_fs flash).1;
  }

  module _ (t : State p.Flash) (on_flash : OnFlash p t) (same : t.fs ≡ mounted_fs) where
    read_again :
        p.nvs_read mounted_fs (p.nvs_mount mounted_fs t.flash).1 config_nvs_id size_read
        ≡ (pos size_read, t.buffer)
    read_again =
        restarts.nvs_read-nvs_mount mounted_fs t.flash config_nvs_id size_read
        ∙ subst (λ fs. p.nvs_read fs t.flash config_nvs_id size_read ≡ (pos size_read, t.buffer))
            same on_flash

    pub flash_init-boot :
        (dummy : List ℕ)
        → (flash_init p dummy (boot t.flash) ≡ (pos 0, remounted t.flash))
          × (p.nvs_read (remounted t.flash).fs (remounted t.flash).flash config_nvs_id size_read
              ≡ (pos size_read, t.buffer))
    unfolding flash_init ensure_entry boot
    flash_init-boot dummy =
        let found =
          restarts.found mounted_fs (p.nvs_mount mounted_fs t.flash).1 config_nvs_id size_read 4
            read_again in
        (
          rw (restarts.paged t.flash) (
              rw (restarts.ready t.flash)
                (rw (restarts.mounts mounted_fs t.flash) (rw found refl))),
          read_again,
        )
