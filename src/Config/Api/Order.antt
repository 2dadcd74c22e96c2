-- ===== src/Config/Api/Order.antt =====
-- The order of two writes to different fields does not matter to later reads.
use native.Mathlib.Decide.{ℕ_discrete}
use tdoa.Base.{
  ℕ, ◌+◌, ◌^◌, ◌<◌, ◌≤◌, ◌≡◌, ◌≢◌, sym, ap, ◌∙◌, some, List, arith, length, ℤ, pos, le_bytes,
  from_le, length-le_bytes, subst,
}
use tdoa.Config.Platform.{Platform, Durable}
use tdoa.Config.State.{size_tlv_max, ConfigField, field_code, State}
use tdoa.Config.Tlv.Store.{
  Entry, size_of, lookup, upsert, offset_from, offset_from-le, lookup-upsert_self, lookup-upsert_ne,
  size_of-upsert-le,
}
use tdoa.Config.Tlv.Encoded.{Holds}
use tdoa.Config.Tlv.Read.{read_entry-some, read_found_fits, read_value-Holds}
use tdoa.Config.Api.{read_number, write_number}
use tdoa.Config.Api.Laws.{read_number_run, write_number-Stored}

-- What two lists agree on, they agree on after the same write.
lookup-upsert_ap :
    (g h : ℕ) (b : List ℕ) (es fs : List Entry)
    → lookup h es ≡ lookup h fs
    → lookup h (upsert g b es) ≡ lookup h (upsert g b fs)
lookup-upsert_ap g h b es fs e = elim (ℕ_discrete g h) [
  | yes same ↦
      subst (λ k. lookup k (upsert g b es) ≡ lookup k (upsert g b fs)) same
        (lookup-upsert_self g b es ∙ sym (lookup-upsert_self g b fs))
  | no other ↦ lookup-upsert_ne g h b es other ∙ e ∙ sym (lookup-upsert_ne g h b fs other)
]

lookup-upsert_swap :
    (f g h : ℕ) (a b : List ℕ) (es : List Entry)
    → f ≢ g
    → lookup h (upsert f a (upsert g b es)) ≡ lookup h (upsert g b (upsert f a es))
lookup-upsert_swap f g h a b es ne = elim (ℕ_discrete f h) [
  | yes same ↦
      subst (λ k. lookup k (upsert f a (upsert g b es)) ≡ lookup k (upsert g b (upsert f a es)))
        same
        (lookup-upsert_self f a (upsert g b es)
          ∙ sym (
              lookup-upsert_ne g f b (upsert f a es) (λ e. ne (sym e)) ∙ lookup-upsert_self f a es))
  | no other ↦
      lookup-upsert_ne f h a (upsert g b es) other
      ∙ lookup-upsert_ap g h b es (upsert f a es) (sym (lookup-upsert_ne f h a es other))
]

module _ (p : Platform) (s : State p.Flash) (es : List Entry) (h : Holds s es) where
  pub read_number_stored :
      (field : ConfigField) (k value : ℕ) {u : List ℕ}
      → lookup (field_code field) es ≡ some u
      → length u ≡ k
      → size_of es < size_tlv_max
      → read_number p s field k value ≡ some (pos 0, from_le u)
  read_number_stored field k value {u} e size fits = read_number_run p s field k value (
      read_value-Holds s field k (le_bytes k value) es h (omega (arith, length-le_bytes k value))
      ∙ ap some (
          read_entry-some es (field_code field) k (le_bytes k value) e
          ∙ read_found_fits (offset_from 0 (field_code field) es) k u (le_bytes k value)
              (omega (arith, offset_from-le 0 (field_code field) es e)) size
              (length-le_bytes k value)))

module _ (p : Platform) (d : Durable p) (s : State p.Flash) (es : List Entry) (h : Holds s es)
    (f g : ConfigField) (j k v w : ℕ) (ne : field_code f ≢ field_code g) (small_v : v < 256 ^ j)
    (small_w : w < 256 ^ k) (fits : 4 + j + k + size_of es < size_tlv_max) where
  abbrev f_then_g : List Entry
  f_then_g = upsert (field_code g) (le_bytes k w) (upsert (field_code f) (le_bytes j v) es)

  abbrev g_then_f : List Entry
  g_then_f = upsert (field_code f) (le_bytes j v) (upsert (field_code g) (le_bytes k w) es)

  size_of-two :
      (a b : ℕ) (x y : List ℕ)
      → size_of (upsert a x (upsert b y es)) ≤ size_of es + (4 + length x + length y)
  size_of-two a b x y =
      omega (arith, size_of-upsert-le a x (upsert b y es), size_of-upsert-le b y es)

  -- The order of two writes to different fields does not matter, if the area has bytes to spare:
  -- in both orders both writes come to a result, and afterwards each number that is stored is read
  -- the same.
  pub write_number_swap :
      (field : ConfigField) (n value : ℕ) {u : List ℕ}
      → lookup (field_code field) f_then_g ≡ some u
      → length u ≡ n
      → (c1 : ℤ) × (s1 : State p.Flash) × (write_number p s f j v ≡ some (c1, s1))
        × (c2 : ℤ) × (s2 : State p.Flash) × (write_number p s1 g k w ≡ some (c2, s2))
        × (d1 : ℤ) × (t1 : State p.Flash) × (write_number p s g k w ≡ some (d1, t1))
        × (d2 : ℤ) × (t2 : State p.Flash) × (write_number p t1 f j v ≡ some (d2, t2))
        × (read_number p s2 field n value ≡ some (pos 0, from_le u))
        × (read_number p t2 field n value ≡ some (pos 0, from_le u))
  write_number_swap field n value {u} e size =
      let lf = length-le_bytes j v in
      let lg = length-le_bytes k w in
      let f1 = write_number-Stored p d s f j v es h small_v (omega arith) in
      let g1 = write_number-Stored p d s g k w es h small_w (omega arith) in
      let after_f = size_of-upsert-le (field_code f) (le_bytes j v) es in
      let after_g = size_of-upsert-le (field_code g) (le_bytes k w) es in
      let f2 =
        write_number-Stored p d f1.after g k w (upsert (field_code f) (le_bytes j v) es)
          f1.is_sealed.holds small_w (omega (arith, lf, after_f)) in
      let g2 =
        write_number-Stored p d g1.after f j v (upsert (field_code g) (le_bytes k w) es)
          g1.is_sealed.holds small_v (omega (arith, lg, after_g)) in
      let swapped =
        lookup-upsert_swap (field_code f) (field_code g) (field_code field) (le_bytes j v)
          (le_bytes k w) es ne in
      (
        f1.code,
        f1.after,
        f1.returns,
        f2.code,
        f2.after,
        f2.returns,
        g1.code,
        g1.after,
        g1.returns,
        g2.code,
        g2.after,
        g2.returns,
        read_number_stored p f2.after f_then_g f2.is_sealed.holds field n value e size (
            omega (
              arith,
              lf,
              lg,
              size_of-two (field_code g) (field_code f) (le_bytes k w) (le_bytes j v),
            )),
        read_number_stored p g2.after g_then_f g2.is_sealed.holds field n value (swapped ∙ e) size (
            omega (
              arith,
              lf,
              lg,
              size_of-two (field_code f) (field_code g) (le_bytes j v) (le_bytes k w),
            )),
      )
