-- ===== src/Config/Init/Sleeps.antt =====
-- `config_init` with its three calls of `k_msleep`, while which other threads run. What they do to
-- the store is a parameter, none where it leaves an object.
use tdoa.Base.{
  ◌%◌, ◌^◌, ℕ, true, false, not, Option, some, List, if◌then◌else◌, ◌>>=◌, ℤ, pos, neg, is_neg,
  is_zero,
}
use tdoa.Config.Platform.{NvsFs, Platform}
use tdoa.Config.State.{size_header, State}
use tdoa.Config.Save.{write_crc, check_data, read_buffer, write_buffer}
use tdoa.Config.Init.{ensure_entry, write_header}

-- The function that sleeps; `main` does so before it calls `config_init`.
pub data Sleep : Type 0 where
  in_main in_flash_init in_config_init in_write_defaults : Sleep

abbrev pub Others : Platform → Type 0
Others p = Sleep → State p.Flash → Option (State p.Flash)

module _ (p : Platform) (others : Others p) where
  open p use {Flash, partition_offset, device_is_ready, flash_get_page_info_by_offs, nvs_mount}

  unfoldable pub flash_init_with : List ℕ → State Flash → Option (ℤ × State Flash)
  flash_init_with dummy s =
      let (info, page_size) = flash_get_page_info_by_offs s.flash partition_offset in
      let fs : NvsFs = record {
        offset = partition_offset;
        sector_size = page_size % 2 ^ 16;
        sector_count = 3;
      } in
      let (mounted, flash') = nvs_mount fs s.flash in
      if not (device_is_ready s.flash)
      then some (neg 1, s)
      else if not (is_zero info)
      then some (neg 2, record s { fs = record (s.fs) { offset = partition_offset } })
      else if not (is_zero mounted)
      then some (neg 3, record s { fs = fs; flash = flash' })
      else (do
        s1 ← others in_flash_init (record s { fs = fs; flash = flash' })
        some (ensure_entry p dummy s1))

  unfoldable pub write_defaults_with : State Flash → Option (ℤ × State Flash)
  write_defaults_with s = do
    s0 ← write_header p s
    s1 ← write_crc p s0
    let (written, s2) = write_buffer p s1
    elim (is_neg written) [
      | true ↦ some (neg 1, s2)
      | false ↦ do
        slept ← others in_write_defaults s2
        (r, s3) ← read_buffer p slept
        elim (is_zero r) [
          | false ↦ some (neg 2, s3)
          | true ↦ do checked ← check_data p s3; some (if is_zero checked then pos 0 else neg 3, s3)
        ]
    ]

  -- `config_init` after `flash_init`
  unfoldable pub load_config_with : State Flash → Option (ℤ × State Flash)
  load_config_with s = do
    slept ← others in_config_init s
    (r, s1) ← read_buffer p slept
    elim (is_zero r) [
      | false ↦ some (neg 2, s1)
      | true ↦ do
        let s2 = record s1 { tlv = some size_header }
        checked ← check_data p s2
        elim (is_zero checked) [
          | true ↦ some (pos 0, s2)
          | false ↦ do
            (written, s3) ← write_defaults_with s2
            some (if is_zero written then pos 0 else neg 3, s3)
        ]
    ]

  unfoldable pub config_init_with : List ℕ → State Flash → Option (ℤ × State Flash)
  config_init_with dummy s = do
    (r, s1) ← flash_init_with dummy s
    elim (is_zero r) [ false ↦ some (neg 1, s1) | true ↦ load_config_with s1 ]
