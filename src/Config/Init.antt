-- ===== src/Config/Init.antt =====
-- `config_init` of src/config.c, and the steps that only it takes.
pub mod Header
pub mod Defaults
pub mod Reboot
pub mod Restart
pub mod First
pub mod Overrun
pub mod Sleeps
pub mod Quiet
pub mod Meanwhile
pub mod Begun
pub mod Bounded
pub mod Total
use tdoa.Base.{
  ◌%◌, ◌^◌, ℕ, true, false, not, Option, some, List, [], ◌∷◌, if◌then◌else◌, ◌>>=◌, ℤ, pos, neg,
  is_neg, is_zero, write_at, le_bytes,
}
use tdoa.Config.Platform.{NvsFs, Platform}
use tdoa.Config.State.{
  config_nvs_id, magic, version_major, version_minor, offset_magic, offset_major_version,
  offset_minor_version, size_header, State,
}
use tdoa.Config.Save.{write_crc, check_data, read_buffer, write_buffer}

module _ (p : Platform) where
  open p use {
    Flash, partition_offset, device_is_ready, flash_get_page_info_by_offs, nvs_mount, nvs_read,
    nvs_write,
  }

  -- The end of `flash_init`: an entry is written where none is. `dummy` is `dummy_buffer`, an
  -- int that the code never sets; a read into it is not used.
  unfoldable pub ensure_entry : List ℕ → State Flash → ℤ × State Flash
  ensure_entry dummy s =
      let (written, flash') = nvs_write s.fs s.flash config_nvs_id dummy in
      if not (is_neg (nvs_read s.fs s.flash config_nvs_id 4).0)
      then (pos 0, s)
      else if is_neg written
      then (neg 4, record s { flash = flash' })
      else (pos 0, record s { flash = flash' })

  unfoldable pub flash_init : List ℕ → State Flash → ℤ × State Flash
  flash_init dummy s =
      let (info, page_size) = flash_get_page_info_by_offs s.flash partition_offset in
      let fs : NvsFs = record {
        offset = partition_offset;
        sector_size = page_size % 2 ^ 16;
        sector_count = 3;
      } in
      let (mounted, flash') = nvs_mount fs s.flash in
      if not (device_is_ready s.flash)
      then (neg 1, s)
      else if not (is_zero info)
      then (neg 2, record s { fs = record (s.fs) { offset = partition_offset } })
      else if not (is_zero mounted)
      then (neg 3, record s { fs = fs; flash = flash' })
      else ensure_entry dummy (record s { fs = fs; flash = flash' })

  -- The magic and the versions, and nothing else of the header, are set.
  unfoldable pub write_header : State Flash → Option (State Flash)
  write_header s = do
    b1 ← write_at s.buffer offset_magic (le_bytes 2 magic)
    b2 ← write_at b1 offset_major_version (version_major ∷ [])
    b3 ← write_at b2 offset_minor_version (version_minor ∷ [])
    some (record s { buffer = b3 })

  unfoldable pub write_defaults : State Flash → Option (ℤ × State Flash)
  write_defaults s = do
    s0 ← write_header s
    s1 ← write_crc p s0
    let (written, s2) = write_buffer p s1
    elim (is_neg written) [
      | true ↦ some (neg 1, s2)
      | false ↦ do
        (r, s3) ← read_buffer p s2
        elim (is_zero r) [
          | false ↦ some (neg 2, s3)
          | true ↦ do checked ← check_data p s3; some (if is_zero checked then pos 0 else neg 3, s3)
        ]
    ]

  -- `config_init` after `flash_init`
  unfoldable pub load_config : State Flash → Option (ℤ × State Flash)
  load_config s = do
    (r, s1) ← read_buffer p s
    elim (is_zero r) [
      | false ↦ some (neg 2, s1)
      | true ↦ do
        let s2 = record s1 { tlv = some size_header }
        checked ← check_data p s2
        elim (is_zero checked) [
          | true ↦ some (pos 0, s2)
          | false ↦ do
            (written, s3) ← write_defaults s2
            some (if is_zero written then pos 0 else neg 3, s3)
        ]
    ]

  unfoldable pub config_init : List ℕ → State Flash → Option (ℤ × State Flash)
  config_init dummy s =
      let (r, s1) = flash_init dummy s in
      elim (is_zero r) [ false ↦ some (neg 1, s1) | true ↦ load_config s1 ]
