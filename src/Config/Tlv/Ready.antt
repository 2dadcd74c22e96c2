-- ===== src/Config/Tlv/Ready.antt =====
-- The buffer between the shift and the writes of `insert_value`.
use tdoa.Base.{
  ℕ, ◌+◌, ◌-◌, ◌%◌, ◌^◌, ◌≤◌, ◌≡◌, refl, sym, ap, ap₂, ◌∙◌, false, some, List, ◌∷◌, ◌++◌, arith,
  length, append_assoc, le_bytes, ◌==◌, ◌&&◌, same_bytes, read_at,
}
use tdoa.Config.State.{
  size_header, size_tlv_max, ConfigField, field_code, State, tlv_length, tlv_byte, tlv_read,
  set_tlv_length,
}
use tdoa.Config.Tlv.{no_room, shift_data, insert_value}
use tdoa.Config.Tlv.Steps.{insert_changed}
use tdoa.Config.Tlv.Store.{Entry, encode, encode-append, size_of, size_of-append}
use tdoa.Config.Tlv.Encoded.{image, stamp, Holds, Put, set_tlv_length_at}
use tdoa.Config.Tlv.Located.{prefix, length-prefix}
use tdoa.Config.Tlv.Entry.{filled, tag_written, size_written, value_written}

-- The buffer when the entry at `at` has room for `size` bytes, with the entries behind it.
pub record Ready {Flash : Type 0} (s s1 : State Flash) (front : List ℕ) (n : ℕ)
    (before after : List Entry) (size : ℕ) : Type 0 where
  pub b0 : ℕ
  pub b1 : ℕ
  pub old : List ℕ
  pub tail : List ℕ
  pub layout : s1.buffer ≡ prefix front n before ++ (b0 ∷ b1 ∷ (old ++ (encode after ++ tail)))
  pub length-old : length old ≡ size
  pub room : size_of before + (2 + size) + size_of after + length tail ≡ 122
  pub data_set : s1.tlv ≡ some size_header
  pub rest_same : s1 ≡ record s { buffer = s1.buffer }

-- The last three writes, and the new length, on a buffer that is ready.
module _ {Flash : Type 0} (s s1 : State Flash) (front w : List ℕ) (n n' : ℕ) (field : ConfigField)
    (size : ℕ) (before after : List Entry) (rd : Ready s s1 front n before after size)
    (length-front : length front ≡ 4) (major minor : ℕ) (stamped : front ≡ stamp major minor)
    (length-w : length w ≡ size)
    (new_length : n' ≡ size_of (before ++ (field_code field, w) ∷ after))
    (small : n' ≤ size_tlv_max) where
  abbrev pub head : List ℕ
  head = prefix front n before

  abbrev pub rest : List ℕ
  rest = encode after ++ rd.tail

  pub length-head : length head ≡ size_header + size_of before
  length-head = length-prefix front n before length-front

  pub fit : length w ≡ length rd.old
  fit = length-w ∙ sym rd.length-old

  abbrev pub entered : State Flash
  entered =
      filled s1 head rest rd.old w (size_of before) (field_code field) size rd.b0 rd.b1 rd.data_set
        length-head fit

  abbrev pub replaced : State Flash
  replaced = record s1 { buffer = image front (before ++ (field_code field, w) ∷ after) rd.tail }

  spelled :
      encode before ++ (field_code field ∷ size ∷ (w ++ rest))
      ≡ encode (before ++ (field_code field, w) ∷ after) ++ rd.tail
  spelled =
      ap (λ k. encode before ++ (field_code field ∷ k ∷ (w ++ rest))) (sym length-w)
      ∙ simp (encode-append, append_assoc)

  pub length_set : set_tlv_length entered n' ≡ some replaced
  length_set =
      set_tlv_length_at entered front (le_bytes 2 n)
        (encode before ++ (field_code field ∷ size ∷ (w ++ rest))) n' (simp append_assoc)
        length-front refl
      ∙ ap₂ (λ k r. some (record s1 { buffer = front ++ (le_bytes 2 k ++ r) })) new_length spelled

  pub replaced-Holds : Holds replaced (before ++ (field_code field, w) ∷ after)
  replaced-Holds = record {
    front = front;
    tail = rd.tail;
    major = major;
    minor = minor;
    length-front = length-front;
    stamped = stamped;
    layout = refl;
    room = omega (arith, size_of-append before ((field_code field, w) ∷ after), rd.room, length-w);
    fits = omega arith;
    data_set = rd.data_set;
  }

  pub replaced_same : replaced ≡ record s { buffer = replaced.buffer }
  replaced_same = ap (λ (t : State Flash). record t { buffer = replaced.buffer }) rd.rest_same

  -- `insert_value` on such a buffer.
  pub insert_value-Ready :
      (value : List ℕ) {now : List ℕ} {stored : ℕ}
      → tlv_length s ≡ some n
      → no_room size n ≡ false
      → tlv_byte s (size_of before + 1) ≡ some stored
      → tlv_read s (size_of before + 2) size ≡ some now
      → read_at value 0 size ≡ some w
      → (same_bytes now w && (size == stored)) ≡ false
      → shift_data s n (size_of before) stored size ≡ some s1
      → (2 ^ 16 + n + size - stored) % 2 ^ 16 ≡ n'
      → Put s
          (before ++ (field_code field, w) ∷ after)
          size
          (insert_value s (size_of before) field size value)
  insert_value-Ready value a b c d e f g k = record {
    after = replaced;
    returns =
        insert_changed s field size (size_of before) value a b c d e f g
          (tag_written s1 head rest rd.old w (size_of before) (field_code field) size rd.b0 rd.b1
            rd.data_set length-head fit rd.layout)
          (size_written s1 head rest rd.old w (size_of before) (field_code field) size rd.b0 rd.b1
            rd.data_set length-head fit)
          (value_written s1 head rest rd.old w (size_of before) (field_code field) size rd.b0 rd.b1
            rd.data_set length-head fit)
          (rw k length_set);
    holds = replaced-Holds;
    rest_same = replaced_same;
  }
