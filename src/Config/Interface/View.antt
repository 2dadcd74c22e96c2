-- ===== src/Config/Interface/View.antt =====
-- The store as its callers see it: a value, or none, for each field. The order of the entries in
-- the buffer, and what else it holds, are forgotten.
use native.Mathlib.Decide.{ℕ_discrete}
use tdoa.Base.{
  ℕ, ◌+◌, ◌^◌, ◌<◌, ◌≤◌, ◌≡◌, refl, ap, ◌∙◌, none, some, Option, List, arith, length, ℤ, pos, neg,
  le_bytes, from_le, length-le_bytes, from_le-le_bytes, ◌==◌, if◌then◌else◌, ==-eq_false,
  ==-eq_true, subst,
}
use tdoa.Config.Platform.{Platform, Durable}
use tdoa.Config.State.{size_tlv_max, ConfigField, field_code, State}
use tdoa.Config.Tlv.Store.{
  Entry, size_of, lookup, upsert, lookup-upsert_self, lookup-upsert_ne, size_of-upsert-le,
}
use tdoa.Config.Tlv.Encoded.{Holds}
use tdoa.Config.Tlv.Read.{read_entry-none, read_value-Holds}
use tdoa.Config.Api.{
  read_number, write_number, config_read_u8, config_read_u16, config_read_u32, config_read_u64,
  config_read_float, config_read_double, config_write_u8, config_write_u16, config_write_u32,
  config_write_u64, config_write_float, config_write_double,
}
use tdoa.Config.Api.Laws.{read_number_run, write_number-Stored}
use tdoa.Config.Api.Order.{read_number_stored}
use tdoa.Config.Interface.{
  NumberType, u8, u16, u32, u64, float, double, width, config_api, read_of, write_of,
}

abbrev pub Settings : Type 0
Settings = ConfigField → Option (List ℕ)

unfoldable pub set : Settings → ConfigField → List ℕ → Settings
set view field bytes other = if field_code field == field_code other then some bytes else view other

-- A state whose fields are as `view` says, in `used` bytes.
pub record View {Flash : Type 0} (s : State Flash) (view : Settings) (used : ℕ) : Type 0 where
  pub es : List Entry
  pub holds : Holds s es
  pub agrees : (field : ConfigField) → lookup (field_code field) es ≡ view field
  pub size : size_of es ≡ used

lookup-upsert-set :
    (field other : ConfigField) (bytes : List ℕ) (es : List Entry) (view : Settings)
    → lookup (field_code other) es ≡ view other
    → lookup (field_code other) (upsert (field_code field) bytes es) ≡ set view field bytes other
unfolding set
lookup-upsert-set field other bytes es view e =
    elim (ℕ_discrete (field_code field) (field_code other)) [
      | yes same ↦ rw (==-eq_true (field_code field) (field_code other) same) (
          subst (λ k. lookup k (upsert (field_code field) bytes es) ≡ some bytes) same
            (lookup-upsert_self (field_code field) bytes es))
      | no different ↦
          rw (==-eq_false (field_code field) (field_code other) different)
            (lookup-upsert_ne (field_code field) (field_code other) bytes es different ∙ e)
    ]

-- What a read of a field returns, and leaves in the caller's number.
unfoldable pub read_view : Option (List ℕ) → ℕ → ℤ × ℕ
read_view none value = (neg 1, value)
read_view (some bytes) value = (pos 0, from_le bytes)

-- A field is empty, or holds a value of the type.
unfoldable pub HasType : NumberType → Option (List ℕ) → Type 0
HasType type none = Unit
HasType type (some bytes) = length bytes ≡ width type

module _ (p : Platform) where
  read_of_lem :
      (type : NumberType) (s : State p.Flash) (field : ConfigField) (value : ℕ)
      → read_of p type s field value ≡ read_number p s field (width type) value
  unfolding read_of width config_read_u8 config_read_u16 config_read_u32 config_read_u64
      config_read_float config_read_double
  read_of_lem u8 s field value = refl
  read_of_lem u16 s field value = refl
  read_of_lem u32 s field value = refl
  read_of_lem u64 s field value = refl
  read_of_lem float s field value = refl
  read_of_lem double s field value = refl

  write_of_lem :
      (type : NumberType) (s : State p.Flash) (field : ConfigField) (value : ℕ)
      → write_of p type s field value ≡ write_number p s field (width type) value
  unfolding write_of width config_write_u8 config_write_u16 config_write_u32 config_write_u64
      config_write_float config_write_double
  write_of_lem u8 s field value = refl
  write_of_lem u16 s field value = refl
  write_of_lem u32 s field value = refl
  write_of_lem u64 s field value = refl
  write_of_lem float s field value = refl
  write_of_lem double s field value = refl

  module _ (s : State p.Flash) (view : Settings) (used : ℕ) (v : View s view used)
      (fits : used < size_tlv_max) where
    read_number-none :
        (field : ConfigField) (k value : ℕ)
        → view field ≡ none
        → value < 256 ^ k
        → read_number p s field k value ≡ some (neg 1, value)
    read_number-none field k value e small =
        read_number_run p s field k value (
          read_value-Holds s field k (le_bytes k value) v.es v.holds
            (omega (arith, length-le_bytes k value))
          ∙ ap some
              (read_entry-none v.es (field_code field) k (le_bytes k value) (v.agrees field ∙ e)))
        ∙ ap (λ n. some (neg 1, n)) (from_le-le_bytes k value small)

    read_number-View :
        (type : NumberType) (field : ConfigField) (value : ℕ) (content : Option (List ℕ))
        → view field ≡ content
        → HasType type content
        → value < 256 ^ width type
        → read_number p s field (width type) value ≡ some (read_view content value)
    unfolding HasType read_view
    read_number-View type field value none e has small =
        read_number-none field (width type) value e small
    read_number-View type field value (some bytes) e has small =
        read_number_stored p s v.es v.holds field (width type) value (v.agrees field ∙ e) has
          (omega (arith, v.size))

    read_of-View :
        (type : NumberType) (field : ConfigField) (value : ℕ)
        → HasType type (view field)
        → value < 256 ^ width type
        → read_of p type s field value ≡ some (read_view (view field) value)
    read_of-View type field value has small =
        read_of_lem type s field value
        ∙ read_number-View type field value (view field) refl has small

  module _ (d : Durable p) (s : State p.Flash) (view : Settings) (used : ℕ) (v : View s view used)
      (type : NumberType) (field : ConfigField) (x : ℕ) (small : x < 256 ^ width type)
      (fits : 2 + width type + used < size_tlv_max) where
    -- For its callers the store is a value, or none, for each field: after a write of any of the
    -- six types, with bytes to spare, the store is what it was with the new value in its field, and
    -- a read of any field that is empty or holds a value of the type read returns what this says.
    pub config_api-View :
        (type' : NumberType) (other : ConfigField) (value : ℕ)
        → HasType type' (set view field (le_bytes (width type) x) other)
        → value < 256 ^ width type'
        → let written = set view field (le_bytes (width type) x) in
          (c : ℤ) × (after : State p.Flash) × ((config_api p).write type s field x
            ≡ some (c, after))
          × (used' : ℕ) × View after written used'
          × (used' ≤ 2 + width type + used)
          × ((config_api p).read type' after other value ≡ some (read_view (written other) value))
    config_api-View type' other value has small' =
        let stored =
          write_number-Stored p d s field (width type) x v.es v.holds small
            (omega (arith, v.size)) in
        let es' = upsert (field_code field) (le_bytes (width type) x) v.es in
        let grows : size_of es' ≤ 2 + width type + used = omega (
          arith,
          v.size,
          size_of-upsert-le (field_code field) (le_bytes (width type) x) v.es,
          length-le_bytes (width type) x,
        ) in
        let after : View stored.after (set view field (le_bytes (width type) x)) (size_of es') =
          record {
            es = es';
            holds = stored.is_sealed.holds;
            agrees =
                λ g. lookup-upsert-set field g (le_bytes (width type) x) v.es view (v.agrees g);
            size = refl;
          } in
        (
          stored.code,
          stored.after,
          write_of_lem type s field x ∙ stored.returns,
          size_of es',
          after,
          grows,
          read_of-View stored.after _ (size_of es') after (omega (arith, grows)) type' other value
              has small',
        )
