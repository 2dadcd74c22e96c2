-- ===== src/Config/Platform.antt =====
-- What src/config.c calls of Zephyr: the flash device, the file system NVS and `crc32_ieee`.
-- Their code is not in the repository, so they are parameters, and `Nvs.Durable` states what
-- the documentation of NVS promises of them.
use tdoa.Base.{ℕ, ◌≤◌, ◌≡◌, Bool, false, List, ℤ, pos, is_neg, length}

-- The fields of `struct nvs_fs` that the program sets.
pub record NvsFs : Type 0 where
  pub offset : ℕ
  pub sector_size : ℕ
  pub sector_count : ℕ

-- `Flash` is the contents of the device, with the bookkeeping of the mounted file system.
-- A read returns its result and the bytes that it stored in the caller's buffer.
pub record Platform : Type 1 where
  pub Flash : Type 0
  pub partition_offset : ℕ
  pub device_is_ready : Flash → Bool
  pub flash_get_page_info_by_offs : Flash → ℕ → ℤ × ℕ
  pub nvs_mount : NvsFs → Flash → ℤ × Flash
  pub nvs_read : NvsFs → Flash → ℕ → ℕ → ℤ × List ℕ
  pub nvs_write : NvsFs → Flash → ℕ → List ℕ → ℤ × Flash
  pub nvs_delete : NvsFs → Flash → ℕ → ℤ × Flash
  pub crc32_ieee : List ℕ → ℕ

-- An entry that was written is what a read of its length returns, and no read stores more bytes
-- than were asked for.
pub record Durable (p : Platform) : Type 0 where
  pub nvs_read-nvs_write :
      (fs : NvsFs) (flash : p.Flash) (id : ℕ) (bytes : List ℕ)
      → is_neg (p.nvs_write fs flash id bytes).0 ≡ false
      → p.nvs_read fs (p.nvs_write fs flash id bytes).1 id (length bytes)
        ≡ (pos (length bytes), bytes)
  pub length-nvs_read :
      (fs : NvsFs) (flash : p.Flash) (id n : ℕ) → length (p.nvs_read fs flash id n).1 ≤ n
