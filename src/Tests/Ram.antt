-- ===== src/Tests/Ram.antt =====
-- A platform with one entry of flash in memory and a sum for the checksum, and a stored
-- configuration with a mode and an x coordinate.
use tdoa.Base.{
  ℕ, ◌+◌, ◌-◌, ◌≤◌, ◌≡◌, refl, ap, true, none, some, Option, List, [], ◌∷◌, arith, length, take,
  take_all, length-take, replicate, ℤ, pos, neg,
}
use tdoa.Config.Platform.{Platform, Durable}
use tdoa.Config.State.{State, tlv_length}
use tdoa.Config.Tlv.Total.{IsReadable}
use tdoa.Config.Tlv.Store.{Entry, size_of}
use tdoa.Config.Tlv.Encoded.{stamp, image, Holds}

abbrev byte_sum : List ℕ → ℕ
byte_sum [] = 0
byte_sum (b ∷ bs) = b + byte_sum bs

abbrev pub ram_read : Option (List ℕ) → ℕ → ℤ × List ℕ
ram_read none n = (neg 2, [])
ram_read (some bytes) n = (pos (length (take n bytes)), take n bytes)

abbrev pub ram : Platform
ram = record {
  Flash = Option (List ℕ);
  partition_offset = 0;
  device_is_ready = λ _. true;
  flash_get_page_info_by_offs = λ _ _. (pos 0, 4096);
  nvs_mount = λ _ flash. (pos 0, flash);
  nvs_read = λ _ flash _ n. ram_read flash n;
  nvs_write = λ _ _ _ bytes. (pos (length bytes), some bytes);
  nvs_delete = λ _ _ _. (pos 0, none);
  crc32_ieee = byte_sum;
}

ram_read_written :
    (bytes : List ℕ) → ram_read (some bytes) (length bytes) ≡ (pos (length bytes), bytes)
ram_read_written bytes =
    ap (λ (l : List ℕ). (pos (length l), l)) (take_all (length bytes) bytes (omega arith))

ram_read_short : (flash : Option (List ℕ)) (n : ℕ) → length (ram_read flash n).1 ≤ n
ram_read_short none n = omega arith
ram_read_short (some bytes) n = omega (arith, length-take n bytes)

pub ram-Durable : Durable ram
ram-Durable = record {
  nvs_read-nvs_write = λ fs flash id bytes _. ram_read_written bytes;
  length-nvs_read = λ fs flash id n. ram_read_short flash n;
}

abbrev pub entries : List Entry
entries = (0, 1 ∷ []) ∷ (2, 10 ∷ 0 ∷ 0 ∷ 0 ∷ []) ∷ []

-- The same with a value that leaves six bytes of the area.
abbrev pub full_entries : List Entry
full_entries = (0, 1 ∷ []) ∷ (9, replicate 107 7) ∷ []

abbrev pub holding : List Entry → State (Option (List ℕ))
holding es = record {
  buffer = image (stamp 1 0) es (replicate (122 - size_of es) 0);
  tlv = some 6;
  fs = record { offset = 0; sector_size = 4096; sector_count = 3 };
  flash = none;
}

abbrev pub sample : State (Option (List ℕ))
sample = holding entries

abbrev pub crowded : State (Option (List ℕ))
crowded = holding full_entries

abbrev pub sample-Holds : Holds sample entries
sample-Holds = record {
  front = stamp 1 0;
  tail = replicate 113 0;
  major = 1;
  minor = 0;
  length-front = refl;
  stamped = refl;
  layout = refl;
  room = refl;
  fits = omega arith;
  data_set = refl;
}

pub crowded-Holds : Holds crowded full_entries
crowded-Holds = record {
  front = stamp 1 0;
  tail = replicate 10 0;
  major = 1;
  minor = 0;
  length-front = refl;
  stamped = refl;
  layout = refl;
  room = refl;
  fits = omega arith;
  data_set = refl;
}

-- No list of entries, but with a length.
abbrev pub rubbish_bytes : List ℕ
rubbish_bytes = 1 ∷ 2 ∷ 3 ∷ 4 ∷ 99 ∷ 0 ∷ replicate 122 200

abbrev pub rubbish : State (Option (List ℕ))
rubbish = record sample { buffer = rubbish_bytes }

pub rubbish-IsReadable : IsReadable rubbish
unfolding tlv_length
rubbish-IsReadable = record {
  length-buffer = refl;
  data_set = refl;
  len = 99;
  has_length = refl;
  small = omega arith;
}
