-- ===== src/Tests/Boot.antt =====
-- The start of the firmware and its thread, over the flash and the driver of the
-- other tests.
use tdoa.Base.{ℤ, ℕ, ◌≡◌, refl, some, Option, List, [], ◌∷◌, arith, replicate, pos, neg, le_bytes}
use tdoa.Config.State.{tlv_length, field_code, State, boot}
use tdoa.Config.Init.{ensure_entry, flash_init}
use tdoa.Config.Tlv.Store.{Entry, lookup}
use tdoa.Config.Tlv.Encoded.{stamp, Holds}
use tdoa.Config.Save.Crc.{with_crc, with_crc-Sealed}
use tdoa.Uwb.Types.{mode_dummy}
use tdoa.Uwb.Device.{Driver}
use tdoa.Uwb.Core.{Core, core_boot, anchor_algorithm, dummy_algorithm, uwb_init}
use tdoa.Uwb.Core.Settings.{set_up, uwb_init_unconfigured}
use tdoa.Uwb.Loop.{
  Wake, timed_out, interrupt, rx_ok_callback, tx_done_callback, Loop, as_anchor, as_tag,
  anchor_boot, tag_boot, uwb_start, uwb_loop,
}
use tdoa.Uwb.Loop.Safe.{IsReady, uwb_loop-uwb_start}
use tdoa.Uwb.Loop.Timeout.{uwb_loop_keeps_timeout}
use tdoa.Main.{main}
use tdoa.Main.Boot.{AnchorEntries, main_anchor}
use tdoa.Main.Total.{RunsOn, main_total}
use tdoa.Tests.Ram.{rubbish_bytes, ram-Durable, ram, holding}
use tdoa.Tests.Anchor.{fixed, fixed-IsSound, settings}

abbrev anchor_entries : List Entry
anchor_entries =
    (0, 1 ∷ []) ∷ (1, settings.address) ∷ (2, le_bytes 4 1500) ∷ (3, le_bytes 4 70000) ∷ []

abbrev anchor_store : State (Option (List ℕ))
anchor_store = holding anchor_entries

abbrev anchor_store-Holds : Holds anchor_store anchor_entries
anchor_store-Holds = record {
  front = stamp 1 0;
  tail = replicate 97 0;
  major = 1;
  minor = 0;
  length-front = refl;
  stamped = refl;
  layout = refl;
  room = refl;
  fits = omega arith;
  data_set = refl;
}

abbrev saved : State (Option (List ℕ))
saved = with_crc ram anchor_store anchor_entries anchor_store-Holds

anchor_entries-AnchorEntries : AnchorEntries anchor_entries settings
unfolding lookup field_code
anchor_entries-AnchorEntries = record {
  fits = omega arith;
  has_mode = refl;
  has_address = refl;
  has_x = refl;
  has_y = refl;
  length-address = refl;
  x-lt = omega arith;
  y-lt = omega arith;
}

abbrev pub working : Driver
working = record { openspi = pos 0; initialised = pos 0 }

abbrev pub wakes : List Wake
wakes = timed_out ∷ interrupt (rx_ok_callback ∷ []) ((tx_done_callback ∷ []) ∷ []) ∷ timed_out ∷ []

main_anchor_example :
    (after : State (Option (List ℕ))) × (loop : Loop) × (main ram working fixed
        (0 ∷ 0 ∷ 0 ∷ 0 ∷ [])
        (boot (some saved.buffer))
        core_boot
      ≡ some (pos 0, after, some loop))
    × (loop.running ≡ as_anchor (record anchor_boot { config = settings }))
    × (last : Loop) × (uwb_loop fixed loop wakes ≡ some last)
    × IsReady settings last.running
unfolding boot flash_init ensure_entry
main_anchor_example =
    main_anchor ram working fixed fixed-IsSound (0 ∷ 0 ∷ 0 ∷ 0 ∷ []) (boot (some saved.buffer))
      saved core_boot anchor_entries settings wakes
      (with_crc-Sealed ram anchor_store anchor_entries anchor_store-Holds)
      anchor_entries-AnchorEntries refl refl refl refl refl refl

uwb_loop-uwb_start_example :
    let core : Core = record core_boot { algorithm = anchor_algorithm; uwb_config = settings } in
    (last : Loop) × (uwb_loop fixed (uwb_start fixed core) wakes ≡ some last)
    × IsReady settings last.running
uwb_loop-uwb_start_example =
    uwb_loop-uwb_start fixed fixed-IsSound
      (record core_boot { algorithm = anchor_algorithm; uwb_config = settings }) wakes refl

uwb_loop_keeps_timeout_example :
    let loop : Loop = record {
      timeout_ms = 190;
      running = as_tag (record tag_boot { config = settings });
    } in
    let ws : List Wake = interrupt (rx_ok_callback ∷ []) [] ∷ interrupt [] [] ∷ [] in
    (last : Loop) × (uwb_loop fixed loop ws ≡ some last)
    × (last.timeout_ms ≡ 190)
    × IsReady settings last.running
unfolding IsReady
uwb_loop_keeps_timeout_example =
    uwb_loop_keeps_timeout fixed fixed-IsSound settings
      (record { timeout_ms = 190; running = as_tag (record tag_boot { config = settings }) })
      (interrupt (rx_ok_callback ∷ []) [] ∷ interrupt [] [] ∷ []) refl (refl, refl)

abbrev coordinates : List Entry
coordinates = (2, le_bytes 4 1500) ∷ []

abbrev coordinates-Holds : Holds (holding coordinates) coordinates
coordinates-Holds = record {
  front = stamp 1 0;
  tail = replicate 116 0;
  major = 1;
  minor = 0;
  length-front = refl;
  stamped = refl;
  layout = refl;
  room = refl;
  fits = omega arith;
  data_set = refl;
}

uwb_init_unconfigured_example :
    uwb_init ram (holding coordinates) working core_boot
    ≡ some (
      pos 0,
      record (set_up ram
          (holding coordinates)
          coordinates
          coordinates-Holds
          working
          refl
          refl
          core_boot) {
            algorithm = dummy_algorithm;
            uwb_config = record {
              mode = mode_dummy;
              address = replicate 8 0;
              anchor_x_pos_mm = 0;
              anchor_y_pos_mm = 0;
            };
          },
    )
unfolding lookup field_code
uwb_init_unconfigured_example =
    uwb_init_unconfigured ram (holding coordinates) coordinates coordinates-Holds working refl refl
      refl refl

abbrev deaf : Driver
deaf = record { openspi = pos 0; initialised = neg 1 }

main_total_example :
    (r : ℤ) × (after : State (Option (List ℕ))) × (l : Option Loop) × (main ram working fixed
        (0 ∷ 0 ∷ 0 ∷ 0 ∷ [])
        (boot (some rubbish_bytes))
        core_boot
      ≡ some (r, after, l))
    × RunsOn fixed wakes l
unfolding tlv_length flash_init ensure_entry boot
main_total_example =
    main_total ram working fixed ram-Durable fixed-IsSound (0 ∷ 0 ∷ 0 ∷ 0 ∷ []) (some rubbish_bytes)
      99 wakes refl (omega arith)
