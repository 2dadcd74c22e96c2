-- ===== src/Tests/Store.antt =====
-- The configuration store on the platform of `Ram`.
use tdoa.Base.{
  length, ℕ, ◌≡◌, refl, none, some, Option, List, [], ◌∷◌, arith, replicate, ℤ, pos, neg,
  same_bytes,
}
use tdoa.Config.Platform.{Platform, Durable}
use tdoa.Config.Api.Refused.{write_number-refused}
use tdoa.Config.State.{mode, anchor_x_pos_mm, field_code, State, boot, tlv_length}
use tdoa.Config.Tlv.{read_value}
use tdoa.Config.Tlv.Store.{lookup, upsert, Split}
use tdoa.Config.Tlv.Read.{read_entry, read_value-Holds}
use tdoa.Config.Save.{config_refresh, write_value, check_magic, check_data}
use tdoa.Config.Save.Crc.{Sealed-transfer, Sealed, with_crc, with_crc-Sealed}
use tdoa.Config.Save.Write.{Stored, OnFlash}
use tdoa.Config.Save.Pauses.{reads_before_checksum, write_value_with}
use tdoa.Config.Save.Interleaved.{write_value_with-lost}
use tdoa.Config.Save.Update.{write_value-Stored}
use tdoa.Config.Init.{ensure_entry, flash_init, write_defaults, config_init}
use tdoa.Config.Init.Defaults.{Reset, write_defaults-Reset}
use tdoa.Config.Init.Reboot.{restarted, config_init-Sealed}
use tdoa.Config.Init.Overrun.{check_data_overrun, write_defaults_overrun}
use tdoa.Config.Api.{read_number, write_number}
use tdoa.Config.Api.Laws.{read_number-write_number_edge}
use tdoa.Config.Tlv.Total.{IsReadable, read_value_total}
use tdoa.Config.Save.Malformed.{write_value_wraps}
use tdoa.Config.Tlv.{find_field, find_from}
use tdoa.Config.State.{tlv_byte}
use tdoa.Tests.Ram.{
  rubbish, rubbish-IsReadable, ram, ram-Durable, entries, full_entries, sample, crowded,
  sample-Holds, crowded-Holds,
}

write_value-Stored_example :
    Stored ram sample
      (upsert (field_code mode) (2 ∷ []) entries)
      (write_value ram sample mode 1 (2 ∷ []))
write_value-Stored_example =
    write_value-Stored ram sample mode 1 (2 ∷ []) ram-Durable entries sample-Holds (omega arith)
      (omega arith)

read_number-write_number_edge_example :
    (code : ℤ) × (after : State (Option (List ℕ))) × (write_number ram crowded anchor_x_pos_mm 4 10
      ≡ some (code, after))
    × (read_number ram after anchor_x_pos_mm 4 5 ≡ some (neg 2, 5))
unfolding field_code lookup
read_number-write_number_edge_example =
    read_number-write_number_edge ram ram-Durable crowded anchor_x_pos_mm 4 10 full_entries
      crowded-Holds (omega arith) 5 refl refl (omega arith)

read_value-Holds_example :
    read_value sample mode 1 (9 ∷ []) ≡ some (read_entry entries (field_code mode) 1 (9 ∷ []))
read_value-Holds_example =
    read_value-Holds sample mode 1 (9 ∷ []) entries sample-Holds (omega arith)

abbrev mode_entry : Split (field_code mode) entries
unfolding field_code
mode_entry = record {
  before = [];
  value = 1 ∷ [];
  after = (2, 10 ∷ 0 ∷ 0 ∷ 0 ∷ []) ∷ [];
  whole = refl;
  first = tt;
}

-- The sample as it is saved, and a start with that on flash.
abbrev saved : State (Option (List ℕ))
saved = with_crc ram sample entries sample-Holds

config_init-Sealed_example :
    (config_init ram (0 ∷ 0 ∷ 0 ∷ 0 ∷ []) (boot (some saved.buffer))
      ≡ some (
        pos 0,
        restarted ram
            (flash_init ram (0 ∷ 0 ∷ 0 ∷ 0 ∷ []) (boot (some saved.buffer))).1
            saved.buffer,
      ))
    × Sealed ram
        (restarted ram
          (flash_init ram (0 ∷ 0 ∷ 0 ∷ 0 ∷ []) (boot (some saved.buffer))).1
          saved.buffer)
        entries
unfolding boot flash_init ensure_entry
config_init-Sealed_example =
    config_init-Sealed ram (0 ∷ 0 ∷ 0 ∷ 0 ∷ []) (boot (some saved.buffer)) saved entries
      (with_crc-Sealed ram sample entries sample-Holds) refl refl refl

abbrev blank : State (Option (List ℕ))
blank = record sample { buffer = replicate 128 0 }

write_defaults-Reset_example : Reset ram blank (write_defaults ram blank)
unfolding tlv_length
write_defaults-Reset_example = write_defaults-Reset ram blank ram-Durable refl refl refl

-- The magic, two versions, and a length of 120.
abbrev too_long : State (Option (List ℕ))
too_long = record sample { buffer = 0xEF ∷ 0xBE ∷ 1 ∷ 0 ∷ 120 ∷ 0 ∷ replicate 122 0 }

check_data_overrun_example : check_data ram too_long ≡ none
unfolding tlv_length check_magic same_bytes
check_data_overrun_example =
    check_data_overrun ram too_long 120 refl refl refl (omega arith) (omega arith)

write_defaults_overrun_example : write_defaults ram too_long ≡ none
unfolding tlv_length
write_defaults_overrun_example = write_defaults_overrun ram too_long 120 refl refl (omega arith)

-- A flash that is worn out.
abbrev worn : Platform
worn = record ram { nvs_write = λ _ flash _ _. (neg 28, flash) }

worn-Durable : Durable worn
worn-Durable = record {
  nvs_read-nvs_write = λ fs flash id bytes e. cc;
  length-nvs_read = ram-Durable.length-nvs_read;
}

abbrev kept : State (Option (List ℕ))
kept = record saved { flash = some saved.buffer }

kept-Sealed : Sealed worn kept entries
kept-Sealed =
    Sealed-transfer worn saved kept entries refl refl
      (with_crc-Sealed worn sample entries sample-Holds)

write_number-refused_example :
    (after : State (Option (List ℕ))) × (write_number worn kept anchor_x_pos_mm 4 700
      ≡ some (neg 3, after))
    × (read_number worn after anchor_x_pos_mm 4 5 ≡ some (pos 0, 700))
    × (t : State (Option (List ℕ))) × (config_refresh worn after ≡ some (pos 0, t))
    × Sealed worn t entries
write_number-refused_example =
    write_number-refused worn worn-Durable (λ _ _ _ _ _ _. refl) kept entries kept-Sealed refl
      (λ _. refl) anchor_x_pos_mm 4 700 5 (omega arith) (omega arith)

-- The same over a flash that takes the writes.
abbrev kept-Sealed_ram : Sealed ram kept entries
kept-Sealed_ram =
    Sealed-transfer ram saved kept entries refl refl
      (with_crc-Sealed ram sample entries sample-Holds)

write_value_with-lost_example :
    (after : State (Option (List ℕ))) × (write_value_with ram
        (reads_before_checksum ram)
        kept
        anchor_x_pos_mm
        4
        (5 ∷ 6 ∷ 7 ∷ 8 ∷ [])
      ≡ some (pos 0, after))
    × Sealed ram after entries
    × OnFlash ram after
write_value_with-lost_example =
    write_value_with-lost ram ram-Durable (λ _ _ _. refl) kept entries kept-Sealed_ram
      anchor_x_pos_mm 4 (5 ∷ 6 ∷ 7 ∷ 8 ∷ []) (omega arith) (omega arith) refl

read_value_total_example :
    (r : ℤ) × (out : List ℕ) × (read_value rubbish mode 1 (9 ∷ []) ≡ some (r, out))
    × (length out ≡ 1)
read_value_total_example = read_value_total rubbish rubbish-IsReadable mode 1 (9 ∷ []) (omega arith)

-- A first entry that says that it has 200 bytes, where there are five.
abbrev overlong : State (Option (List ℕ))
overlong = record sample { buffer = 1 ∷ 2 ∷ 3 ∷ 4 ∷ 5 ∷ 0 ∷ 0 ∷ 200 ∷ replicate 120 7 }

overlong-IsReadable : IsReadable overlong
unfolding tlv_length
overlong-IsReadable = record {
  length-buffer = refl;
  data_set = refl;
  len = 5;
  has_length = refl;
  small = omega arith;
}

write_value_wraps_example : write_value ram overlong mode 4 (1 ∷ 2 ∷ 3 ∷ 4 ∷ []) ≡ none
unfolding find_field find_from tlv_length tlv_byte field_code overlong-IsReadable
write_value_wraps_example =
    write_value_wraps ram overlong overlong-IsReadable 0 200 4 mode (1 ∷ 2 ∷ 3 ∷ 4 ∷ []) refl refl
      (omega arith) (omega arith) (omega arith) (omega arith) (omega arith) (omega arith)
