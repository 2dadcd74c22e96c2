-- ===== src/Config/Init/Reboot.antt =====
-- `config_init` over a flash that holds a saved configuration.
use tdoa.Base.{ℕ, ◌≡◌, refl, sym, ap, ◌∙◌, some, List, arith, length, pos}
use tdoa.Config.Platform.{Platform}
use tdoa.Config.State.{size_read, size_header, config_nvs_id, State}
use tdoa.Config.Tlv.Store.{Entry}
use tdoa.Config.Save.{check_data, read_buffer}
use tdoa.Config.Save.Crc.{Sealed, Sealed-transfer, check_data-Sealed}
use tdoa.Config.Save.Write.{length-buffer, read_buffer_lem}
use tdoa.Config.Init.{ensure_entry, flash_init, load_config, config_init}

module _ (p : Platform) where
  open p use {Flash, nvs_read}

  load_config_run :
      (s : State Flash) {s1 : State Flash}
      → read_buffer p s ≡ some (pos 0, s1)
      → check_data p (record s1 { tlv = some size_header }) ≡ some (pos 0)
      → load_config p s ≡ some (pos 0, record s1 { tlv = some size_header })
  unfolding load_config
  load_config_run s a b = ground arith

  -- The state that a restart reaches from a saved buffer.
  abbrev pub restarted : State Flash → List ℕ → State Flash
  restarted s bytes = record s { buffer = bytes; tlv = some size_header }

  restarted-Sealed :
      (s t : State Flash) (es : List Entry) → Sealed p t es → Sealed p (restarted s t.buffer) es
  restarted-Sealed s t es c =
      Sealed-transfer p t (restarted s t.buffer) es refl (sym c.holds.data_set) c

  load_config-Sealed :
      (s t : State Flash) (es : List Entry)
      → Sealed p t es
      → length s.buffer ≡ size_read
      → nvs_read s.fs s.flash config_nvs_id size_read ≡ (pos size_read, t.buffer)
      → load_config p s ≡ some (pos 0, restarted s t.buffer)
  load_config-Sealed s t es c l e =
      load_config_run s (read_buffer_lem p s e (l ∙ sym (length-buffer c.holds)))
        (check_data-Sealed p (restarted s t.buffer) es (restarted-Sealed s t es c))

  pub config_init_run :
      (dummy : List ℕ) (s : State Flash)
      → (flash_init p dummy s).0 ≡ pos 0
      → config_init p dummy s ≡ load_config p (flash_init p dummy s).1
  unfolding config_init
  config_init_run dummy s e = ground arith

  pub buffer-flash_init :
      (dummy : List ℕ) (s : State Flash) → (flash_init p dummy s).1.buffer ≡ s.buffer
  unfolding flash_init ensure_entry
  buffer-flash_init dummy s = ground arith

  pub tlv-flash_init : (dummy : List ℕ) (s : State Flash) → (flash_init p dummy s).1.tlv ≡ s.tlv
  unfolding flash_init ensure_entry
  tlv-flash_init dummy s = ground arith

  -- A restart from a flash that holds the buffer of a sealed state reads back every entry of it:
  -- if `flash_init` succeeds and NVS still returns the saved buffer then `config_init` returns 0,
  -- and the entries are those that were saved, whatever `_buffer` held before.
  pub config_init-Sealed :
      (dummy : List ℕ) (s t : State Flash) (es : List Entry)
      → Sealed p t es
      → length s.buffer ≡ size_read
      → (flash_init p dummy s).0 ≡ pos 0
      → nvs_read (flash_init p dummy s).1.fs (flash_init p dummy s).1.flash config_nvs_id size_read
        ≡ (pos size_read, t.buffer)
      → (config_init p dummy s ≡ some (pos 0, restarted (flash_init p dummy s).1 t.buffer))
        × Sealed p (restarted (flash_init p dummy s).1 t.buffer) es
  config_init-Sealed dummy s t es c l ok e = (
    config_init_run dummy s ok
        ∙ load_config-Sealed (flash_init p dummy s).1 t es c
            (ap length (buffer-flash_init dummy s) ∙ l) e,
    restarted-Sealed (flash_init p dummy s).1 t es c,
  )
