-- ===== src/Config/Tlv/Insert.antt =====
-- `insert_value` replaces the value of an entry, and moves the entries behind it if the size
-- changes.
use tdoa.Base.{
  ℕ, ◌+◌, ◌-◌, ◌%◌, ◌^◌, ◌≤◌, ◌≡◌, refl, sym, ap, subst, ◌∙◌, false, inl, inr, some, List, ◌∷◌,
  ◌++◌, arith, length, take, length-take, ◌==◌, ◌&&◌, same_bytes, same_bytes→eq, Bool-cases, ==→eq,
}
use tdoa.Config.State.{size_tlv_max, ConfigField, field_code, State, tlv_read}
use tdoa.Config.Tlv.{shift_data, insert_value}
use tdoa.Config.Tlv.Store.{Entry, size_of, size_of-append, Split}
use tdoa.Config.Tlv.Encoded.{Holds, Put, tlv_length-Holds}
use tdoa.Config.Tlv.Located.{size_at, stored_size, stored_bytes}
use tdoa.Config.Tlv.Append.{read_value_object, no_room-eq_false}
use tdoa.Config.Tlv.Steps.{insert_same, shift_data_same}
use tdoa.Config.Tlv.Ready.{Ready, insert_value-Ready}
use tdoa.Config.Tlv.Shift.{Ready-same, Ready-shifted, shifted_lem, present}

module _ {Flash : Type 0} {s : State Flash} {es : List Entry} (field : ConfigField) (h : Holds s es)
    (sp : Split (field_code field) es) (size : ℕ) (value : List ℕ) (has : size ≤ length value)
    (fits : 2 + size + size_of es ≤ size_tlv_max) where
  abbrev w : List ℕ
  w = take size value

  length-w : length w ≡ size
  length-w = omega (arith, length-take size value)

  abbrev next : List Entry
  next = sp.before ++ (field_code field, w) ∷ sp.after

  new_length : (2 ^ 16 + size_of es + size - length sp.value) % 2 ^ 16 ≡ size_of next
  new_length =
      omega
        (arith, size_of-append sp.before ((field_code field, w) ∷ sp.after), size_at h sp, length-w)

  small : (2 ^ 16 + size_of es + size - length sp.value) % 2 ^ 16 ≤ size_tlv_max
  small = omega (arith, size_at h sp)

  stored_now : length sp.value ≡ size → tlv_read s (size_of sp.before + 2) size ≡ some sp.value
  stored_now e =
      subst (λ k. tlv_read s (size_of sp.before + 2) k ≡ some sp.value) e (stored_bytes h sp)

  insert_from :
      {s1 : State Flash} {now : List ℕ}
      → Ready s s1 h.front (size_of es) sp.before sp.after size
      → tlv_read s (size_of sp.before + 2) size ≡ some now
      → (same_bytes now w && (size == length sp.value)) ≡ false
      → shift_data s (size_of es) (size_of sp.before) (length sp.value) size ≡ some s1
      → Put s next size (insert_value s (size_of sp.before) field size value)
  insert_from {s1} rd d f g =
      insert_value-Ready s s1 h.front w (size_of es) _ field size sp.before sp.after rd
        h.length-front h.major h.minor h.stamped length-w new_length small value
        (tlv_length-Holds s es h) (no_room-eq_false size (size_of es) fits) (stored_size h sp) d
        (read_value_object value size has) f g refl

  -- `insert_value` at the first entry of its field succeeds, and replaces the value of just that
  -- entry.
  pub insert_value-Put : Put s next size (insert_value s (size_of sp.before) field size value)
  insert_value-Put = elim (Bool-cases (size == length sp.value)) [
    | inl e ↦
        let same : length sp.value ≡ size = omega (arith, ==→eq size (length sp.value) e) in
        elim (Bool-cases (same_bytes sp.value w)) [
          | inl q ↦
              let eq : sp.value ≡ w = same_bytes→eq sp.value w q in
              record {
                after = s;
                returns =
                    insert_same s field size (size_of sp.before) value (tlv_length-Holds s es h)
                      (no_room-eq_false size (size_of es) fits) (stored_size h sp ∙ ap some same)
                      (stored_now same ∙ ap some eq) (read_value_object value size has)
                      (rw eq at q);
                holds =
                    subst (λ l. Holds s l)
                      (sp.whole ∙ ap (λ v. sp.before ++ (field_code field, v) ∷ sp.after) eq) h;
                rest_same = refl;
              }
          | inr q ↦
              insert_from (Ready-same h sp size fits (sym same)) (stored_now same) (ground arith)
                (shift_data_same s (size_of es) (size_of sp.before) (length sp.value) size e)
        ]
    | inr ne ↦
        insert_from (Ready-shifted h sp size fits) (present h sp size fits) (ground arith)
          (shifted_lem h sp size fits ne)
  ]
