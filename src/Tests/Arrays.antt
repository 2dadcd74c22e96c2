-- ===== src/Tests/Arrays.antt =====
-- Arrays in the store of the other tests.
use tdoa.Base.{ℕ, ◌≡◌, refl, some, Option, List, [], ◌∷◌, arith, replicate, take, ℤ, pos}
use tdoa.Config.State.{ConfigField, field_code, State}
use tdoa.Config.Tlv.Store.{upsert}
use tdoa.Config.Save.Write.{Stored}
use tdoa.Config.Api.{array_bytes, read_array, write_array}
use tdoa.Config.Api.Arrays.{read_array-write_array, write_array_truncates}
use tdoa.Tests.Ram.{ram, ram-Durable, entries, sample, sample-Holds}

read_array-write_array_example :
    (code : ℤ) × (after : State (Option (List ℕ))) × (write_array ram sample ConfigField.address 2 3
        (300 ∷ 5 ∷ 65535 ∷ [])
      ≡ some (code, after))
    × (read_array ram after ConfigField.address 2 3 (0 ∷ 0 ∷ 0 ∷ [])
        ≡ some (pos 0, 300 ∷ 5 ∷ 65535 ∷ []))
read_array-write_array_example =
    read_array-write_array ram ram-Durable sample ConfigField.address 2 (300 ∷ 5 ∷ 65535 ∷ [])
      entries sample-Holds (0 ∷ 0 ∷ 0 ∷ []) (omega arith, (omega arith, (omega arith, tt))) refl
      (omega arith)

-- Of 32 numbers of 8 bytes nothing is stored.
write_array_truncates_example :
    Stored ram sample
      (upsert (field_code ConfigField.address) (take 0 (array_bytes 8 (replicate 32 7))) entries)
      (write_array ram sample ConfigField.address 8 32 (replicate 32 7))
write_array_truncates_example =
    write_array_truncates ram ram-Durable sample ConfigField.address 8 (replicate 32 7) entries
      sample-Holds (omega arith)
