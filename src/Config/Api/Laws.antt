-- ===== src/Config/Api/Laws.antt =====
-- What a caller of the typed accessors may rely on.
use tdoa.Base.{
  ℕ, ◌+◌, ◌^◌, ◌≤◌, ◌<◌, ◌≡◌, ◌≢◌, ap, subst, ◌∙◌, none, some, List, arith, take_all, ℤ, pos, neg,
  le_bytes, from_le, length-le_bytes, from_le-le_bytes,
}
use tdoa.Config.Platform.{Platform, Durable}
use tdoa.Config.State.{size_tlv_max, ConfigField, field_code, State}
use tdoa.Config.Tlv.{read_value}
use tdoa.Config.Tlv.Store.{
  Entry, size_of, lookup, upsert, offset_from, lookup-upsert_self, lookup-upsert_ne,
  size_of-upsert-le, offset_from-le, offset_from_of_Lacks, upsert_of_Lacks, lookup-eq_none→Lacks,
}
use tdoa.Config.Tlv.Encoded.{Holds}
use tdoa.Config.Tlv.Read.{read_entry-some, read_found_fits, read_found_edge, read_value-Holds}
use tdoa.Config.Save.{write_value}
use tdoa.Config.Save.Write.{Stored}
use tdoa.Config.Save.Update.{write_value-Stored}
use tdoa.Config.Api.{read_number, write_number}

module _ (p : Platform) (s : State p.Flash) (field : ConfigField) (k : ℕ) where
  pub read_number_run :
      (value : ℕ) {r : ℤ} {bytes : List ℕ}
      → read_value s field k (le_bytes k value) ≡ some (r, bytes)
      → read_number p s field k value ≡ some (r, from_le bytes)
  unfolding read_number
  read_number_run value e = ground arith

  pub read_number_entry :
      (es : List Entry) (value v : ℕ)
      → Holds s es
      → lookup (field_code field) es ≡ some (le_bytes k v)
      → size_of es < size_tlv_max
      → v < 256 ^ k
      → read_number p s field k value ≡ some (pos 0, v)
  read_number_entry es value v h e fits small =
      read_number_run value (
        read_value-Holds s field k (le_bytes k value) es h (omega (arith, length-le_bytes k value))
        ∙ ap some (
            read_entry-some es (field_code field) k (le_bytes k value) e
            ∙ read_found_fits (offset_from 0 (field_code field) es) k (le_bytes k v)
                (le_bytes k value)
                (omega (arith, offset_from-le 0 (field_code field) es e, length-le_bytes k v))
                (length-le_bytes k v) (length-le_bytes k value)))
      ∙ ap (λ n. some (pos 0, n)) (from_le-le_bytes k v small)

module _ (p : Platform) (d : Durable p) (s : State p.Flash) (field : ConfigField) (k v : ℕ)
    (es : List Entry) (h : Holds s es) (small : v < 256 ^ k) where
  abbrev pub written : List Entry
  written = upsert (field_code field) (le_bytes k v) es

  pub write_number-Stored :
      2 + k + size_of es ≤ size_tlv_max → Stored p s written (write_number p s field k v)
  unfolding write_number
  write_number-Stored fits =
      subst
        (λ w. Stored p s (upsert (field_code field) w es) (write_value p s field k (le_bytes k v)))
        (take_all k (le_bytes k v) (omega (arith, length-le_bytes k v)))
        (write_value-Stored p s field k (le_bytes k v) d es h (omega (arith, length-le_bytes k v))
          fits)

  pub size_of-written : 2 + k + size_of es < size_tlv_max → size_of written < size_tlv_max
  size_of-written fits =
      omega (arith, size_of-upsert-le (field_code field) (le_bytes k v) es, length-le_bytes k v)

  module _ (fits : 2 + k + size_of es < size_tlv_max) where
    abbrev outcome : Stored p s written (write_number p s field k v)
    outcome = write_number-Stored (omega arith)

    -- A number that is written, with a byte to spare, is what the next read of the field gives.
    pub read_number-write_number :
        (value : ℕ)
        → (code : ℤ) × (after : State p.Flash) × (write_number p s field k v ≡ some (code, after))
          × (read_number p after field k value ≡ some (pos 0, v))
    read_number-write_number value = (
      outcome.code,
      outcome.after,
      outcome.returns,
      read_number_entry p outcome.after field k written value v outcome.is_sealed.holds
          (lookup-upsert_self (field_code field) (le_bytes k v) es) (size_of-written fits) small,
    )

    -- The other fields keep their numbers.
    pub read_number-write_number_ne :
        (other : ConfigField) (j u value : ℕ)
        → field_code field ≢ field_code other
        → lookup (field_code other) es ≡ some (le_bytes j u)
        → u < 256 ^ j
        → (code : ℤ) × (after : State p.Flash) × (write_number p s field k v ≡ some (code, after))
          × (read_number p after other j value ≡ some (pos 0, u))
    read_number-write_number_ne other j u value ne e fit = (
      outcome.code,
      outcome.after,
      outcome.returns,
      read_number_entry p outcome.after other j written value u outcome.is_sealed.holds
          (lookup-upsert_ne (field_code field) (field_code other) (le_bytes k v) es ne ∙ e)
          (size_of-written fits) fit,
    )

  -- A new number that takes the last byte of the area is written, but a read of it is refused.
  pub read_number-write_number_edge :
      (value : ℕ)
      → 2 + k + size_of es ≡ size_tlv_max
      → lookup (field_code field) es ≡ none
      → value < 256 ^ k
      → (code : ℤ) × (after : State p.Flash) × (write_number p s field k v ≡ some (code, after))
        × (read_number p after field k value ≡ some (neg 2, value))
  read_number-write_number_edge value edge new fit =
      let out = write_number-Stored (omega arith) in
      let lacks = lookup-eq_none→Lacks (field_code field) es new in
      let place : offset_from 0 (field_code field) written ≡ size_of es =
        ap (offset_from 0 (field_code field))
          (upsert_of_Lacks (field_code field) (le_bytes k v) es lacks)
        ∙ offset_from_of_Lacks 0 (field_code field) (le_bytes k v) es lacks
        ∙ omega arith in
      (
        out.code,
        out.after,
        out.returns,
        read_number_run p out.after field k value (
              read_value-Holds out.after field k (le_bytes k value) written out.is_sealed.holds
                (omega (arith, length-le_bytes k value))
              ∙ ap some (
                  read_entry-some written (field_code field) k (le_bytes k value)
                    (lookup-upsert_self (field_code field) (le_bytes k v) es)
                  ∙ read_found_edge (offset_from 0 (field_code field) written) k (le_bytes k v)
                      (le_bytes k value) (omega (arith, place))))
            ∙ ap (λ n. some (neg 2, n)) (from_le-le_bytes k value fit),
      )
