-- ===== src/Config/Tlv/Shift.antt =====
-- The `memmove` of `insert_value`, which makes the buffer ready for the new value.
use tdoa.Base.{
  ℕ, ◌+◌, ◌-◌, ◌%◌, ◌^◌, ◌≤◌, ◌≡◌, refl, sym, ap, ◌∙◌, false, some, List, [], ◌∷◌, ◌++◌, arith,
  length, take, drop, length-append, length-take, length-drop, take-append-drop, append_assoc, ◌==◌,
}
use tdoa.Config.State.{size_header, size_tlv_max, State, tlv_read, tlv_write}
use tdoa.Config.Tlv.{shift_data}
use tdoa.Config.Tlv.Store.{Entry, encode, length-encode, size_of, Split}
use tdoa.Config.Tlv.Encoded.{Holds, tlv_write_at, tlv_read_at}
use tdoa.Config.Tlv.Located.{prefix, length-prefix, layout_at, size_at}
use tdoa.Config.Tlv.Entry.{Cells, cut}
use tdoa.Config.Tlv.Ready.{Ready}

shift_data_lem :
    {Flash : Type 0} (s : State Flash) (len at old size : ℕ) {moved : List ℕ} {s1 : State Flash}
    → (size == old) ≡ false
    → tlv_read s (at + 2 + old) ((2 ^ 32 + len - (at + 2 + old)) % 2 ^ 32) ≡ some moved
    → tlv_write s (at + 2 + size) moved ≡ some s1
    → shift_data s len at old size ≡ some s1
unfolding shift_data
shift_data_lem s len at old size a b c = ground arith

module _ {Flash : Type 0} {s : State Flash} {es : List Entry} {tag : ℕ} (h : Holds s es)
    (sp : Split tag es) (size : ℕ) (fits : 2 + size + size_of es ≤ size_tlv_max) where
  abbrev pub area : List ℕ
  area = tag ∷ length sp.value ∷ (sp.value ++ (encode sp.after ++ h.tail))

  abbrev pub front_part : List ℕ
  front_part = prefix h.front (size_of es) sp.before

  length-area : length area ≡ 2 + length sp.value + size_of sp.after + length h.tail
  length-area = omega (
    arith,
    length-append sp.value (encode sp.after ++ h.tail),
    length-append (encode sp.after) h.tail,
    length-encode sp.after,
  )

  pub cells : Cells area size
  cells = cut area size (omega (arith, length-area, size_at h sp, h.room))

  length-rest : length cells.rest + (2 + size) ≡ length area
  length-rest =
      omega (arith, ap length cells.whole, length-append cells.old cells.rest, cells.length-old)

  length-front_part :
      (xs : List ℕ) → length (front_part ++ xs) ≡ size_header + size_of sp.before + length xs
  length-front_part xs = omega (
    arith,
    length-append front_part xs,
    length-prefix h.front (size_of es) sp.before h.length-front,
  )

  pub present : tlv_read s (size_of sp.before + 2) size ≡ some cells.old
  present =
      tlv_read_at s (front_part ++ cells.b0 ∷ cells.b1 ∷ []) cells.old cells.rest
        (size_of sp.before + 2) size h.data_set
        (layout_at h sp
          ∙ ap (λ r. front_part ++ r) cells.whole
          ∙ sym (append_assoc front_part (cells.b0 ∷ cells.b1 ∷ []) (cells.old ++ cells.rest)))
        (omega (arith, length-front_part (cells.b0 ∷ cells.b1 ∷ []))) cells.length-old

  pub Ready-same : size ≡ length sp.value → Ready s s h.front (size_of es) sp.before sp.after size
  Ready-same e = record {
    b0 = tag;
    b1 = length sp.value;
    old = sp.value;
    tail = h.tail;
    layout = layout_at h sp;
    length-old = sym e;
    room = omega (arith, size_at h sp, h.room);
    data_set = h.data_set;
    rest_same = refl;
  }

  abbrev pub behind : ℕ
  behind = length (encode sp.after)

  behind_fits : behind ≤ length cells.rest
  behind_fits =
      omega (arith, length-rest, length-area, size_at h sp, h.room, length-encode sp.after)

  abbrev pub shifted : State Flash
  shifted = record s {
    buffer =
        (front_part ++ cells.b0 ∷ cells.b1 ∷ cells.old)
        ++ (encode sp.after ++ drop behind cells.rest);
  }

  pub shifted_lem :
      (size == length sp.value) ≡ false
      → shift_data s (size_of es) (size_of sp.before) (length sp.value) size ≡ some shifted
  shifted_lem ne =
      shift_data_lem s (size_of es) (size_of sp.before) (length sp.value) size ne
        (tlv_read_at s (front_part ++ tag ∷ length sp.value ∷ sp.value) (encode sp.after) h.tail
          (size_of sp.before + 2 + length sp.value) _ h.data_set
          (layout_at h sp ∙ simp append_assoc)
          (omega (arith, length-front_part (tag ∷ length sp.value ∷ sp.value)))
          (omega (arith, size_at h sp, length-encode sp.after)))
        (tlv_write_at s (front_part ++ cells.b0 ∷ cells.b1 ∷ cells.old) (take behind cells.rest)
          (drop behind cells.rest) (encode sp.after) (size_of sp.before + 2 + size) h.data_set
          (layout_at h sp
            ∙ ap (λ r. front_part ++ r) cells.whole
            ∙ ap (λ r. front_part ++ (cells.b0 ∷ cells.b1 ∷ (cells.old ++ r)))
                (sym (take-append-drop behind cells.rest))
            ∙ sym (
                append_assoc front_part (cells.b0 ∷ cells.b1 ∷ cells.old)
                  (take behind cells.rest ++ drop behind cells.rest)))
          (omega (arith, length-front_part (cells.b0 ∷ cells.b1 ∷ cells.old), cells.length-old))
          (omega (arith, length-take behind cells.rest, behind_fits)))

  pub Ready-shifted : Ready s shifted h.front (size_of es) sp.before sp.after size
  Ready-shifted = record {
    b0 = cells.b0;
    b1 = cells.b1;
    old = cells.old;
    tail = drop behind cells.rest;
    layout =
        append_assoc front_part (cells.b0 ∷ cells.b1 ∷ cells.old)
          (encode sp.after ++ drop behind cells.rest);
    length-old = cells.length-old;
    room = omega (
      arith,
      length-drop behind cells.rest,
      behind_fits,
      length-rest,
      length-area,
      size_at h sp,
      h.room,
      length-encode sp.after,
    );
    data_set = h.data_set;
    rest_same = refl;
  }
