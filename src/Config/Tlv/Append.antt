-- ===== src/Config/Tlv/Append.antt =====
-- `append_value` puts a new entry behind the others.
use tdoa.Base.{
  ℕ, ◌+◌, ◌%◌, ◌^◌, ◌≤◌, ◌≡◌, refl, sym, ap, ap₂, ◌∙◌, false, some, List, [], ◌∷◌, ◌++◌, arith,
  length, take, length-append, length-take, append_assoc, le_bytes, read_at, pos,
}
use tdoa.Config.State.{size_header, size_tlv_max, ConfigField, field_code, State, set_tlv_length}
use tdoa.Config.Tlv.{no_room, append_value}
use tdoa.Config.Tlv.Store.{Entry, encode, encode-append, size_of, size_of-append}
use tdoa.Config.Tlv.Encoded.{image, Holds, Put, tlv_length-Holds, set_tlv_length_at}
use tdoa.Config.Tlv.Located.{prefix, length-prefix}
use tdoa.Config.Tlv.Entry.{Cells, cut, filled, tag_written, size_written, value_written}

pub read_value_object :
    (value : List ℕ) (size : ℕ)
    → size ≤ length value
    → read_at value 0 size ≡ some (take size value)
read_value_object value size h = ground arith

pub no_room-eq_false : (size len : ℕ) → 2 + size + len ≤ size_tlv_max → no_room size len ≡ false
unfolding no_room
no_room-eq_false size len h = ground arith

module _ {Flash : Type 0} (s : State Flash) (field : ConfigField) (size : ℕ) (value : List ℕ)
    (es : List Entry) (h : Holds s es) (has : size ≤ length value)
    (fits : 2 + size + size_of es ≤ size_tlv_max) where
  abbrev pub w : List ℕ
  w = take size value

  length-w : length w ≡ size
  length-w = omega (arith, length-take size value)

  abbrev pub more : List Entry
  more = es ++ (field_code field, w) ∷ []

  size_of-more : size_of more ≡ size_of es + (2 + size)
  size_of-more = omega (arith, size_of-append es ((field_code field, w) ∷ []), length-w)

  abbrev pub cells : Cells h.tail size
  cells = cut h.tail size (omega arith)

  abbrev pub appended : State Flash
  appended = record s { buffer = image h.front more cells.rest }

  pub appended-Holds : Holds appended more
  appended-Holds = record {
    front = h.front;
    tail = cells.rest;
    major = h.major;
    minor = h.minor;
    length-front = h.length-front;
    stamped = h.stamped;
    layout = refl;
    room = omega (
      arith,
      size_of-more,
      ap length cells.whole,
      length-append cells.old cells.rest,
      cells.length-old,
      h.room,
    );
    fits = omega (arith, size_of-more);
    data_set = h.data_set;
  }

  abbrev head : List ℕ
  head = prefix h.front (size_of es) es

  length-head : length head ≡ size_header + size_of es
  length-head = length-prefix h.front (size_of es) es h.length-front

  opened : s.buffer ≡ head ++ (cells.b0 ∷ cells.b1 ∷ (cells.old ++ cells.rest))
  opened = h.layout ∙ ap (λ r. image h.front es r) cells.whole ∙ simp append_assoc

  abbrev entered : State Flash
  entered =
      filled s head cells.rest cells.old w (size_of es) (field_code field) size cells.b0 cells.b1
        h.data_set length-head (length-w ∙ sym cells.length-old)

  spelled : encode es ++ (field_code field ∷ size ∷ (w ++ cells.rest)) ≡ encode more ++ cells.rest
  spelled =
      ap (λ k. encode es ++ (field_code field ∷ k ∷ (w ++ cells.rest))) (sym length-w)
      ∙ simp (encode-append, append_assoc)

  length_set : set_tlv_length entered ((size_of es + (2 + size)) % 2 ^ 16) ≡ some appended
  length_set =
      set_tlv_length_at entered h.front (le_bytes 2 (size_of es))
        (encode es ++ (field_code field ∷ size ∷ (w ++ cells.rest)))
        ((size_of es + (2 + size)) % 2 ^ 16) (simp append_assoc) h.length-front refl
      ∙ ap₂ (λ k r. some (record s { buffer = h.front ++ (le_bytes 2 k ++ r) }))
          (omega (arith, size_of-more)) spelled

  append_value_lem : append_value s field size value ≡ some (pos size, appended)
  unfolding append_value
  append_value_lem =
      let fit = length-w ∙ sym cells.length-old in
      ground (
        arith,
        tlv_length-Holds s es h,
        no_room-eq_false size (size_of es) fits,
        read_value_object value size has,
        tag_written s head cells.rest cells.old w (size_of es) (field_code field) size cells.b0
            cells.b1 h.data_set length-head fit opened,
        size_written s head cells.rest cells.old w (size_of es) (field_code field) size cells.b0
            cells.b1 h.data_set length-head fit,
        value_written s head cells.rest cells.old w (size_of es) (field_code field) size cells.b0
            cells.b1 h.data_set length-head fit,
        length_set,
      )

  -- `append_value` succeeds where there is room, and adds just that entry, at the end.
  pub append_value-Put : Put s more size (append_value s field size value)
  append_value-Put = record {
    after = appended;
    returns = append_value_lem;
    holds = appended-Holds;
    rest_same = refl;
  }
