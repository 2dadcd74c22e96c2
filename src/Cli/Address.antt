-- ===== src/Cli/Address.antt =====
-- `config address`
pub mod Parse
use tdoa.Base.{
  Bool, if◌then◌else◌, ℕ, zero, suc, ◌+◌, ◌<◌, ◌≡◌, refl, sym, ap, ap₂, subst, ◌∙◌, some, none,
  Option, List, [], ◌∷◌, arith, length, take, take_all, inl, inr, ◌⊎◌, true, false, ltb, ltb→le, ℤ,
  pos, neg, ◌==◌, ==→eq,
}
use tdoa.Config.Platform.{Platform, Durable}
use tdoa.Config.State.{size_tlv_max, ConfigField, field_code, State}
use tdoa.Config.Tlv.Store.{Entry, size_of, lookup, upsert, size_of-upsert-le, lookup-upsert_self}
use tdoa.Config.Tlv.Encoded.{Holds}
use tdoa.Config.Save.{write_value}
use tdoa.Config.Save.Crc.{Sealed}
use tdoa.Config.Save.Write.{Stored, OnFlash}
use tdoa.Config.Save.Update.{write_value-Stored}
use tdoa.Config.Api.{array_bytes, write_array, config_read_u8_array, config_write_u8_array}
use tdoa.Config.Api.Bytes.{config_read_u8_array_entry}
use tdoa.Cli.{
  Reply, keep_byte, read_byte, check_length, set_address, tokens_from, parse_bytes, parse_address,
  write_address, show_address, cmd_config_address,
}
use tdoa.Cli.Address.Parse.{AreBytes, AcceptedEight, parse_address-AcceptedEight}
use tdoa.Cli.Saving.{Accepts, Saved, Stored→Saved}

array_bytes-AreBytes : (bs : List ℕ) → AreBytes bs → array_bytes 1 bs ≡ bs
unfolding array_bytes
array_bytes-AreBytes [] h = refl
array_bytes-AreBytes (b ∷ bs) h = ap₂ (λ x xs. x ∷ xs) (omega arith) (array_bytes-AreBytes bs h.1)

module _ (p : Platform) (s : State p.Flash) where
  config_write_u8_array_run :
      (field : ConfigField) (bs : List ℕ) {r : Option (ℤ × State p.Flash)}
      → AreBytes bs
      → length bs ≡ 8
      → write_value p s field 8 bs ≡ r
      → config_write_u8_array p s field 8 bs ≡ r
  unfolding config_write_u8_array write_array
  config_write_u8_array_run field bs h l e =
      ap (write_value p s field 8) (array_bytes-AreBytes bs h) ∙ e

  write_address_run :
      (stack bs seen : List ℕ) {after : State p.Flash} {r : ℤ}
      → config_write_u8_array p s ConfigField.address 8 bs ≡ some (pos 0, after)
      → config_read_u8_array p after ConfigField.address 8 stack ≡ some (r, seen)
      → write_address p s stack bs ≡ some (record { code = pos 0; shown = seen }, after)
  unfolding write_address
  write_address_run stack bs seen a b = ground arith

  show_address_run :
      (stack seen : List ℕ)
      → config_read_u8_array p s ConfigField.address 8 stack ≡ some (pos 0, seen)
      → show_address p s stack ≡ some (record { code = pos 0; shown = seen }, s)
  unfolding show_address
  show_address_run stack seen a = rw a refl

  read_address :
      (es : List Entry) (address : List ℕ)
      → Holds s es
      → lookup (field_code ConfigField.address) es ≡ some address
      → size_of es < size_tlv_max
      → length address ≡ 8
      → (array : List ℕ) → length array ≡ 8
      → config_read_u8_array p s ConfigField.address 8 array ≡ some (pos 0, address)
  read_address es address h e fits l array la =
      subst (λ n. config_read_u8_array p s ConfigField.address n array ≡ some (pos 0, address)) l
        (config_read_u8_array_entry p s es h ConfigField.address address array e fits (omega arith)
          (la ∙ sym l))

module _ (p : Platform) (d : Durable p) (accepts : Accepts p) (s : State p.Flash) (es : List Entry)
    (h : Holds s es) where
  -- While NVS takes the writes and the area has bytes to spare, an argument that is read as an
  -- address sets it: it has eight bytes, the command prints them as it reads them again and
  -- returns 0, the store holds them, also on flash, which stays mounted, and the command without an
  -- argument prints them again.
  pub cmd_config_address-set :
      (shell_strtoul : List ℕ → ℕ → Option ℕ) (arg stack later address : List ℕ)
      (more : List (List ℕ))
      → parse_address shell_strtoul arg ≡ inr address
      → length stack ≡ 8
      → length later ≡ 8
      → 10 + size_of es < size_tlv_max
      → let reply : Reply = record { code = pos 0; shown = address } in
        (length address ≡ 8)
        × (after : State p.Flash) × (cmd_config_address p s shell_strtoul stack (arg ∷ more)
            ≡ some (reply, after))
        × Sealed p after (upsert (field_code ConfigField.address) address es)
        × OnFlash p after
        × (after.fs ≡ s.fs)
        × (cmd_config_address p after shell_strtoul later [] ≡ some (reply, after))
  unfolding cmd_config_address set_address
  cmd_config_address-set shell_strtoul arg stack later address more parsed ls ll fits =
      let (bytes, l) = subst AcceptedEight parsed (parse_address-AcceptedEight shell_strtoul arg) in
      let saved : Saved p s (upsert (field_code ConfigField.address) address es)
          (write_value p s ConfigField.address 8 address) =
        Stored→Saved p d accepts s (upsert (field_code ConfigField.address) address es) (
          subst
            (λ v.
              Stored p s (upsert (field_code ConfigField.address) v es)
                (write_value p s ConfigField.address 8 address))
            (take_all 8 address (omega arith))
            (write_value-Stored p s ConfigField.address 8 address d es h (omega arith)
              (omega arith))) in
      let es' = upsert (field_code ConfigField.address) address es in
      let read =
        read_address p saved.after es' address saved.is_sealed.holds
          (lookup-upsert_self (field_code ConfigField.address) address es)
          (omega (arith, size_of-upsert-le (field_code ConfigField.address) address es)) l in
      (
        l,
        saved.after,
        ap (set_address p s stack) parsed
            ∙ (write_address_run p s stack address address
                (config_write_u8_array_run p s ConfigField.address address bytes l saved.returns)
                (read stack ls)),
        saved.is_sealed,
        saved.on_flash,
        saved.same_fs,
        show_address_run p saved.after later address (read later ll),
      )
