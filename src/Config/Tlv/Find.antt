-- ===== src/Config/Tlv/Find.antt =====
-- `find_field` against the list of entries.
use tdoa.Base.{
  ℕ, zero, suc, ◌+◌, ◌≤◌, ◌<◌, ◌≡◌, refl, sym, ◌∙◌, true, false, none, some, List, [], ◌∷◌, ◌++◌,
  arith, length, length-append, append_assoc, ◌==◌, Bool-cases, inl, inr, le_bytes, ℤ, pos, neg,
}
use tdoa.Config.State.{size_header, ConfigField, field_code, State, tlv_byte}
use tdoa.Config.Tlv.{find_from, find_field}
use tdoa.Config.Tlv.Store.{Entry, encode, size_of, lookup, offset_from}
use tdoa.Config.Tlv.Encoded.{Holds, tlv_byte_at, tlv_length-Holds}

-- What `find_field` should return: the place of the first entry of the tag, or -1.
unfoldable pub found_at : ℕ → ℕ → List Entry → ℤ
found_at at tag es = elim (lookup tag es) [ none ↦ neg 1 | some _ ↦ pos (offset_from at tag es) ]

found_at-nil : (at tag : ℕ) → found_at at tag [] ≡ neg 1
unfolding found_at lookup
found_at-nil at tag = refl

found_at-cons_self :
    (at tag t : ℕ) (v : List ℕ) (es : List Entry)
    → (t == tag) ≡ true
    → found_at at tag ((t, v) ∷ es) ≡ pos at
unfolding found_at lookup offset_from
found_at-cons_self at tag t v es e = ground arith

found_at-cons_ne :
    (at tag t : ℕ) (v : List ℕ) (es : List Entry)
    → (t == tag) ≡ false
    → found_at at tag ((t, v) ∷ es) ≡ found_at (at + (length v + 2)) tag es
unfolding found_at lookup offset_from
found_at-cons_ne at tag t v es e = ground arith

module _ {Flash : Type 0} (s : State Flash) (len tag : ℕ) where
  pub find_from_end : (fuel at : ℕ) → len ≤ at → find_from s len tag (suc fuel) at ≡ some (neg 1)
  unfolding find_from
  find_from_end fuel at h = ground arith

  pub find_from_here :
      (fuel at : ℕ) {t : ℕ}
      → at < len
      → tlv_byte s at ≡ some t
      → (t == tag) ≡ true
      → find_from s len tag (suc fuel) at ≡ some (pos at)
  unfolding find_from
  find_from_here fuel at h e q = ground arith

  pub find_from_next :
      (fuel at : ℕ) {t n : ℕ}
      → at < len
      → tlv_byte s at ≡ some t
      → (t == tag) ≡ false
      → tlv_byte s (at + 1) ≡ some n
      → find_from s len tag (suc fuel) at ≡ find_from s len tag fuel (at + (n + 2))
  unfolding find_from
  find_from_next fuel at h e q k = ground arith

module _ {Flash : Type 0} (s : State Flash) (len tag : ℕ)
    (data_set : s.tlv ≡ some size_header) where
  find_from_lem :
      (es : List Entry) (pre tail : List ℕ) (fuel at : ℕ)
      → s.buffer ≡ pre ++ (encode es ++ tail)
      → length pre ≡ size_header + at
      → len ≡ at + size_of es
      → size_of es < fuel
      → find_from s len tag fuel at ≡ some (found_at at tag es)
  find_from_lem es pre tail zero at e h k f = absurd (omega arith)
  find_from_lem [] pre tail (suc fuel) at e h k f =
      rw (found_at-nil at tag) (find_from_end s len tag fuel at (omega arith))
  find_from_lem ((t, v) ∷ es) pre tail (suc fuel) at e h k f =
      let here = tlv_byte_at s pre (length v ∷ ((v ++ encode es) ++ tail)) t at data_set e h in
      let next =
        tlv_byte_at s (pre ++ t ∷ []) ((v ++ encode es) ++ tail) (length v) (at + 1) data_set
          (e ∙ simp append_assoc) (omega (arith, length-append pre (t ∷ []))) in
      elim (Bool-cases (t == tag)) [
        | inl same ↦
            rw (found_at-cons_self at tag t v es same)
              (find_from_here s len tag fuel at (omega arith) here same)
        | inr other ↦
            rw
              (
                find_from_next s len tag fuel at (omega arith) here other next,
                found_at-cons_ne at tag t v es other,
              )
              (find_from_lem es (pre ++ (t ∷ length v ∷ v)) tail fuel (at + (length v + 2))
                (e ∙ simp append_assoc) (omega (arith, length-append pre (t ∷ length v ∷ v)))
                (omega arith) (omega arith))
      ]

-- On a buffer that holds a list of entries the search ends, without an access out of range, at the
-- first entry of the field, or with -1 if there is none.
pub find_field-Holds :
    {Flash : Type 0} (s : State Flash) (es : List Entry) (field : ConfigField)
    → Holds s es
    → find_field s field ≡ some (found_at 0 (field_code field) es)
unfolding find_field
find_field-Holds s es field h = rw (tlv_length-Holds s es h) (
    find_from_lem s (size_of es) (field_code field) h.data_set es
      (h.front ++ le_bytes 2 (size_of es)) h.tail (suc (size_of es)) 0
      (h.layout ∙ sym (append_assoc h.front (le_bytes 2 (size_of es)) (encode es ++ h.tail)))
      (omega (arith, length-append h.front (le_bytes 2 (size_of es)), h.length-front)) (omega arith)
      (omega arith))
