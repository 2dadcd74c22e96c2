-- ===== src/Config/Init/Quiet.antt =====
-- `config_init` while the other threads leave the store alone, and while they write it.
use tdoa.Base.{◌%◌, ◌^◌, bind_same, branch_same, ℕ, ◌≡◌, refl, some, List, arith, is_zero}
use tdoa.Config.Platform.{Platform}
use tdoa.Config.State.{size_header, State}
use tdoa.Config.Save.{check_data, read_buffer}
use tdoa.Config.Init.{flash_init, write_defaults, load_config, config_init}
use tdoa.Config.Init.Sleeps.{
  Others, in_flash_init, flash_init_with, write_defaults_with, load_config_with, config_init_with,
}

module _ (p : Platform) where
  open p use {Flash}

  abbrev pub quiet : Others p
  quiet _ s = some s

  pub flash_init_with_quiet :
      (others : Others p)
      → ((u : State Flash) → others in_flash_init u ≡ some u)
      → (dummy : List ℕ) (s : State Flash)
      → flash_init_with p others dummy s ≡ some (flash_init p dummy s)
  unfolding flash_init_with flash_init
  flash_init_with_quiet others h dummy s =
      let mounted : State Flash = record s {
        fs = record {
          offset = p.partition_offset;
          sector_size = (p.flash_get_page_info_by_offs s.flash p.partition_offset).1 % 2 ^ 16;
          sector_count = 3;
        };
        flash =
            (p.nvs_mount
              (record {
                offset = p.partition_offset;
                sector_size = (p.flash_get_page_info_by_offs s.flash p.partition_offset).1 % 2 ^ 16;
                sector_count = 3;
              })
              s.flash).1;
      } in
      ground (arith, h mounted)

  write_defaults_with-quiet : (s : State Flash) → write_defaults_with p quiet s ≡ write_defaults p s
  unfolding write_defaults_with write_defaults
  write_defaults_with-quiet s = refl

  load_config_with-quiet : (s : State Flash) → load_config_with p quiet s ≡ load_config p s
  unfolding load_config_with load_config
  load_config_with-quiet s = bind_same (read_buffer p s) (λ r. branch_same (is_zero r.0) refl (
      bind_same (check_data p (record r.1 { tlv = some size_header })) (λ checked.
        branch_same (is_zero checked)
          (rw (write_defaults_with-quiet (record r.1 { tlv = some size_header })) refl) refl)))

  -- If the other threads leave the store alone while it sleeps then `config_init` does what it
  -- does without its sleeps.
  pub config_init_with-quiet :
      (dummy : List ℕ) (s : State Flash) → config_init_with p quiet dummy s ≡ config_init p dummy s
  unfolding config_init_with config_init
  config_init_with-quiet dummy s = rw (flash_init_with_quiet quiet (λ _. refl) dummy s) (
      branch_same (is_zero (flash_init p dummy s).0) refl
        (load_config_with-quiet (flash_init p dummy s).1))
