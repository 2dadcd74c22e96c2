-- ===== src/Config/Tlv/Located.antt =====
-- Where an entry of the list stands in the buffer, and what is read there.
use tdoa.Base.{
  ℕ, ◌+◌, ◌≡◌, refl, sym, ap, ◌∙◌, some, List, [], ◌∷◌, ◌++◌, arith, length, length-append,
  append_assoc, le_bytes,
}
use tdoa.Config.State.{size_header, State, tlv_byte, tlv_read}
use tdoa.Config.Tlv.Store.{
  Entry, encode, encode-append, length-encode, size_of, size_of-append, Split, offset_from,
  offset_from_at_Split,
}
use tdoa.Config.Tlv.Encoded.{Holds, tlv_byte_at, tlv_read_at}

-- The bytes of the buffer in front of an entry that follows `before`.
abbrev pub prefix : List ℕ → ℕ → List Entry → List ℕ
prefix front n before = front ++ (le_bytes 2 n ++ encode before)

pub length-prefix :
    (front : List ℕ) (n : ℕ) (before : List Entry)
    → length front ≡ 4
    → length (prefix front n before) ≡ size_header + size_of before
length-prefix front n before h = omega (
  arith,
  length-append front (le_bytes 2 n ++ encode before),
  length-append (le_bytes 2 n) (encode before),
  length-encode before,
)

-- The image with the bytes of one entry laid open.
pub image_at :
    (front : List ℕ) (before after : List Entry) (tag : ℕ) (v tail : List ℕ) (n : ℕ)
    → front ++ (le_bytes 2 n ++ (encode (before ++ (tag, v) ∷ after) ++ tail))
      ≡ prefix front n before ++ (tag ∷ length v ∷ (v ++ (encode after ++ tail)))
image_at front before after tag v tail n = simp (encode-append, append_assoc)

module _ {Flash : Type 0} {s : State Flash} {es : List Entry} {tag : ℕ} (h : Holds s es)
    (sp : Split tag es) where
  pub layout_at :
      s.buffer
      ≡ prefix h.front (size_of es) sp.before
        ++ (tag ∷ length sp.value ∷ (sp.value ++ (encode sp.after ++ h.tail)))
  layout_at =
      h.layout
      ∙ ap (λ e. h.front ++ (le_bytes 2 (size_of es) ++ (encode e ++ h.tail))) sp.whole
      ∙ image_at h.front sp.before sp.after tag sp.value h.tail (size_of es)

  pub size_at : size_of es ≡ size_of sp.before + (2 + length sp.value) + size_of sp.after
  size_at =
      ap size_of sp.whole ∙ omega (arith, size_of-append sp.before ((tag, sp.value) ∷ sp.after))

  pub offset_at : offset_from 0 tag es ≡ size_of sp.before
  offset_at =
      ap (offset_from 0 tag) sp.whole
      ∙ omega (arith, offset_from_at_Split 0 tag sp.value sp.before sp.after sp.first)

  pub stored_size : tlv_byte s (size_of sp.before + 1) ≡ some (length sp.value)
  stored_size =
      tlv_byte_at s (prefix h.front (size_of es) sp.before ++ tag ∷ [])
        (sp.value ++ (encode sp.after ++ h.tail)) (length sp.value) (size_of sp.before + 1)
        h.data_set
        (layout_at
          ∙ sym (
              append_assoc (prefix h.front (size_of es) sp.before) (tag ∷ [])
                (length sp.value ∷ (sp.value ++ (encode sp.after ++ h.tail)))))
        (omega (
          arith,
          length-append (prefix h.front (size_of es) sp.before) (tag ∷ []),
          length-prefix h.front (size_of es) sp.before h.length-front,
        ))

  pub stored_bytes : tlv_read s (size_of sp.before + 2) (length sp.value) ≡ some sp.value
  stored_bytes =
      tlv_read_at s (prefix h.front (size_of es) sp.before ++ tag ∷ length sp.value ∷ []) sp.value
        (encode sp.after ++ h.tail) (size_of sp.before + 2) (length sp.value) h.data_set
        (layout_at
          ∙ sym (
              append_assoc (prefix h.front (size_of es) sp.before) (tag ∷ length sp.value ∷ [])
                (sp.value ++ (encode sp.after ++ h.tail))))
        (omega (
          arith,
          length-append (prefix h.front (size_of es) sp.before) (tag ∷ length sp.value ∷ []),
          length-prefix h.front (size_of es) sp.before h.length-front,
        ))
        refl
