-- ===== src/Tests/Order.antt =====
-- Two writes in both orders, and the store as its callers see it.
use tdoa.Base.{ℕ, ◌≡◌, ◌≤◌, refl, some, Option, List, arith, ℤ, pos, from_le, le_bytes}
use tdoa.Config.State.{ConfigField, field_code, State}
use tdoa.Config.Tlv.Store.{lookup, upsert}
use tdoa.Config.Api.{read_number, write_number}
use tdoa.Config.Api.Order.{write_number_swap}
use tdoa.Config.Interface.{u8, u32, width, config_api}
use tdoa.Config.Interface.View.{Settings, set, View, read_view, HasType, config_api-View}
use tdoa.Tests.Ram.{ram, ram-Durable, entries, sample, sample-Holds}

write_number_swap_example :
    let s = sample in
    (c1 : ℤ) × (s1 : State (Option (List ℕ))) × (write_number ram s ConfigField.anchor_x_pos_mm 4
        1500
      ≡ some (c1, s1))
    × (c2 : ℤ) × (s2 : State (Option (List ℕ))) × (write_number ram s1 ConfigField.mode 1 0
        ≡ some (c2, s2))
    × (d1 : ℤ) × (t1 : State (Option (List ℕ))) × (write_number ram s ConfigField.mode 1 0
        ≡ some (d1, t1))
    × (d2 : ℤ) × (t2 : State (Option (List ℕ))) × (write_number ram t1 ConfigField.anchor_x_pos_mm 4
          1500
        ≡ some (d2, t2))
    × (read_number ram s2 ConfigField.anchor_x_pos_mm 4 9 ≡ some (pos 0, from_le (le_bytes 4 1500)))
    × (read_number ram t2 ConfigField.anchor_x_pos_mm 4 9 ≡ some (pos 0, from_le (le_bytes 4 1500)))
unfolding field_code lookup upsert
write_number_swap_example =
    write_number_swap ram ram-Durable sample entries sample-Holds ConfigField.anchor_x_pos_mm
      ConfigField.mode 4 1 1500 0 (omega arith) (omega arith) (omega arith) (omega arith)
      ConfigField.anchor_x_pos_mm 4 9 refl refl

abbrev sample_view : Settings
unfolding field_code lookup
sample_view field = lookup (field_code field) entries

abbrev sample-View : View sample sample_view 9
unfolding sample_view
sample-View = record { es = entries; holds = sample-Holds; agrees = λ _. refl; size = refl }

config_api-View_example :
    let written = set sample_view ConfigField.anchor_y_pos_mm (le_bytes 4 70000) in
    (c : ℤ) × (after : State (Option (List ℕ))) × ((config_api ram).write u32 sample
        ConfigField.anchor_y_pos_mm 70000
      ≡ some (c, after))
    × (used : ℕ) × View after written used
    × (used ≤ 15)
    × ((config_api ram).read u8 after ConfigField.mode 9
        ≡ some (read_view (written ConfigField.mode) 9))
unfolding width HasType set sample_view lookup field_code
config_api-View_example =
    config_api-View ram ram-Durable sample sample_view 9 sample-View u32 ConfigField.anchor_y_pos_mm
      70000 (omega arith) (omega arith) u8 ConfigField.mode 9 refl (omega arith)
