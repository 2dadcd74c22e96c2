-- ===== src/Config/Save/Put.antt =====
-- `write_value` up to the checksum: the value of a field is replaced or added.
use tdoa.Base.{
  ℕ, ◌+◌, ◌≤◌, ◌≡◌, sym, ap, subst, ◌∙◌, some, inl, inr, List, arith, length, take, Option-cases,
  pos, neg,
}
use tdoa.Config.Platform.{Platform}
use tdoa.Config.State.{size_tlv_max, ConfigField, field_code, State}
use tdoa.Config.Tlv.{find_field, insert_value, append_value}
use tdoa.Config.Tlv.Store.{
  Entry, size_of, lookup, upsert, lookup-eq_none→Lacks, lookup-eq_some→Split, upsert_of_Lacks,
  upsert_at_Split,
}
use tdoa.Config.Tlv.Encoded.{Holds, Put}
use tdoa.Config.Tlv.Find.{find_field-Holds}
use tdoa.Config.Tlv.Located.{offset_at}
use tdoa.Config.Tlv.Read.{found_at-none, found_at-some}
use tdoa.Config.Tlv.Append.{append_value-Put}
use tdoa.Config.Tlv.Insert.{insert_value-Put}
use tdoa.Config.Save.{put_value}

module _ (p : Platform) (s : State p.Flash) (field : ConfigField) (size : ℕ) (value : List ℕ) where
  put_value_missing :
      find_field s field ≡ some (neg 1)
      → put_value p s field size value ≡ append_value s field size value
  unfolding put_value
  put_value_missing e = ground arith

  put_value_found :
      {at : ℕ}
      → find_field s field ≡ some (pos at)
      → put_value p s field size value ≡ insert_value s at field size value
  unfolding put_value
  put_value_found e = ground arith

  -- Where there is room, the first entry of the field gets the value, or a new one at the end
  -- does, and no other entry changes.
  pub put_value-Put :
      (es : List Entry)
      → Holds s es
      → size ≤ length value
      → 2 + size + size_of es ≤ size_tlv_max
      → Put s (upsert (field_code field) (take size value) es) size (put_value p s field size value)
  put_value-Put es h has fits = elim (Option-cases (lookup (field_code field) es)) [
    | inl e ↦
        rw
          (
            put_value_missing
                (find_field-Holds s es field h ∙ ap some (found_at-none (field_code field) es e)),
            upsert_of_Lacks (field_code field) (take size value) es
                (lookup-eq_none→Lacks (field_code field) es e),
          )
          (append_value-Put s field size value es h has fits)
    | inr (v, e) ↦
        let (sp, q) = lookup-eq_some→Split (field_code field) es v e in
        rw
          (put_value_found (
            find_field-Holds s es field h
            ∙ ap some (found_at-some (field_code field) es e ∙ ap pos (offset_at h sp))))
          (subst (λ l. Put s l size (insert_value s (size_of sp.before) field size value))
            (sym (
              ap (upsert (field_code field) (take size value)) sp.whole
              ∙ upsert_at_Split (field_code field) (take size value) sp.value sp.before sp.after
                  sp.first))
            (insert_value-Put field h sp size value has fits))
  ]
