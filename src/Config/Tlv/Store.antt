-- ===== src/Config/Tlv/Store.antt =====
-- The abstract view of the store: a list of entries, each a tag with its bytes, in the order of
-- the buffer, where the first entry of a tag counts.
use tdoa.Base.{
  ℕ, ◌+◌, ◌≤◌, ◌≡◌, refl, ◌≢◌, Option, none, some, List, [], ◌∷◌, ◌++◌, if◌then◌else◌, ◌==◌, arith,
  length, length-append, append_assoc, ap, ==-eq_false, Bool-cases, inl, inr, ==→eq,
}

abbrev pub Entry : Type 0
Entry = ℕ × List ℕ

-- The bytes of the area: tag, length, value, for each entry.
abbrev pub encode : List Entry → List ℕ
encode [] = []
encode ((t, v) ∷ es) = t ∷ length v ∷ (v ++ encode es)

abbrev pub size_of : List Entry → ℕ
size_of [] = 0
size_of ((t, v) ∷ es) = 2 + length v + size_of es

pub length-encode : (es : List Entry) → length (encode es) ≡ size_of es
length-encode [] = refl
length-encode ((t, v) ∷ es) = omega (arith, length-append v (encode es), length-encode es)

unfoldable pub lookup : ℕ → List Entry → Option (List ℕ)
lookup tag [] = none
lookup tag ((t, v) ∷ es) = if t == tag then some v else lookup tag es

-- The first entry of the tag gets the value; a tag without one is added at the end.
unfoldable pub upsert : ℕ → List ℕ → List Entry → List Entry
upsert tag w [] = (tag, w) ∷ []
upsert tag w ((t, v) ∷ es) = if t == tag then (tag, w) ∷ es else (t, v) ∷ upsert tag w es

-- Where the first entry of the tag begins, counted from `at`.
unfoldable pub offset_from : ℕ → ℕ → List Entry → ℕ
offset_from at tag [] = at
offset_from at tag ((t, v) ∷ es) = if t == tag then at else offset_from (at + (length v + 2)) tag es

-- No entry has the tag.
abbrev pub Lacks : ℕ → List Entry → Type 0
Lacks tag [] = Unit
Lacks tag ((t, v) ∷ es) = (t ≢ tag) × Lacks tag es

-- The entries up to the first one of a tag, that one, and those behind it.
pub record Split (tag : ℕ) (es : List Entry) : Type 0 where
  pub before : List Entry
  pub value : List ℕ
  pub after : List Entry
  pub whole : es ≡ before ++ (tag, value) ∷ after
  pub first : Lacks tag before

pub lookup-eq_none→Lacks : (tag : ℕ) (es : List Entry) → lookup tag es ≡ none → Lacks tag es
unfolding lookup
lookup-eq_none→Lacks tag [] h = tt
lookup-eq_none→Lacks tag ((t, v) ∷ es) h = elim (Bool-cases (t == tag)) [
  | inl e ↦ ground arith
  | inr e ↦ (ground arith, lookup-eq_none→Lacks tag es (ground arith))
]

pub lookup-eq_some→Split :
    (tag : ℕ) (es : List Entry) (v : List ℕ)
    → lookup tag es ≡ some v
    → (s : Split tag es) × (s.value ≡ v)
unfolding lookup
lookup-eq_some→Split tag [] v h = ground arith
lookup-eq_some→Split tag ((t, w) ∷ es) v h = elim (Bool-cases (t == tag)) [
  | inl e ↦ (
    record {
      before = [];
      value = w;
      after = es;
      whole = ground (arith, ==→eq t tag e);
      first = tt;
    },
    ground arith,
  )
  | inr e ↦
      let (s, q) = lookup-eq_some→Split tag es v (ground arith) in
      (
        record {
          before = (t, w) ∷ s.before;
          value = s.value;
          after = s.after;
          whole = ap (λ r. (t, w) ∷ r) s.whole;
          first = (ground arith, s.first);
        },
        q,
      )
]

pub lookup-upsert_self :
    (tag : ℕ) (w : List ℕ) (es : List Entry) → lookup tag (upsert tag w es) ≡ some w
unfolding lookup upsert
lookup-upsert_self tag w [] = ground arith
lookup-upsert_self tag w ((t, v) ∷ es) = ground (arith, lookup-upsert_self tag w es)

pub lookup-upsert_ne :
    (tag other : ℕ) (w : List ℕ) (es : List Entry)
    → tag ≢ other
    → lookup other (upsert tag w es) ≡ lookup other es
unfolding lookup upsert
lookup-upsert_ne tag other w [] h = ground arith
lookup-upsert_ne tag other w ((t, v) ∷ es) h = ground (arith, lookup-upsert_ne tag other w es h)

pub upsert_of_Lacks :
    (tag : ℕ) (w : List ℕ) (es : List Entry) → Lacks tag es → upsert tag w es ≡ es ++ (tag, w) ∷ []
unfolding upsert
upsert_of_Lacks tag w [] h = refl
upsert_of_Lacks tag w ((t, v) ∷ es) h =
    ground (arith, upsert_of_Lacks tag w es h.1, ==-eq_false t tag h.0)

pub upsert_at_Split :
    (tag : ℕ) (w v : List ℕ) (before after : List Entry)
    → Lacks tag before
    → upsert tag w (before ++ (tag, v) ∷ after) ≡ before ++ (tag, w) ∷ after
unfolding upsert
upsert_at_Split tag w v [] after h = ground arith
upsert_at_Split tag w v ((t, u) ∷ before) after h =
    ground (arith, upsert_at_Split tag w v before after h.1, ==-eq_false t tag h.0)

pub encode-append : (es fs : List Entry) → encode (es ++ fs) ≡ encode es ++ encode fs
encode-append [] fs = refl
encode-append ((t, v) ∷ es) fs =
    ap (λ r. t ∷ length v ∷ r) (simp (encode-append es fs, append_assoc))

pub size_of-append : (es fs : List Entry) → size_of (es ++ fs) ≡ size_of es + size_of fs
size_of-append [] fs = omega arith
size_of-append ((t, v) ∷ es) fs = omega (arith, size_of-append es fs)

pub offset_from_at_Split :
    (at tag : ℕ) (v : List ℕ) (before after : List Entry)
    → Lacks tag before
    → offset_from at tag (before ++ (tag, v) ∷ after) ≡ at + size_of before
unfolding offset_from
offset_from_at_Split at tag v [] after h = ground arith
offset_from_at_Split at tag v ((t, u) ∷ before) after h = ground (
  arith,
  offset_from_at_Split (at + (length u + 2)) tag v before after h.1,
  ==-eq_false t tag h.0,
)

-- An insertion adds one entry's bytes at most.
pub size_of-upsert-le :
    (tag : ℕ) (w : List ℕ) (es : List Entry)
    → size_of (upsert tag w es) ≤ size_of es + (2 + length w)
unfolding upsert
size_of-upsert-le tag w [] = omega arith
size_of-upsert-le tag w ((t, v) ∷ es) = ground (arith, size_of-upsert-le tag w es)

-- An entry that is found lies within the bytes of the list.
pub offset_from-le :
    (at tag : ℕ) (es : List Entry) {u : List ℕ}
    → lookup tag es ≡ some u
    → offset_from at tag es + (2 + length u) ≤ at + size_of es
unfolding lookup offset_from
offset_from-le at tag [] e = ground arith
offset_from-le at tag ((t, v) ∷ es) {u} e =
    ground (arith, offset_from-le (at + (length v + 2)) tag es {u = u})

-- An entry added at the end begins behind all the others.
pub offset_from_of_Lacks :
    (at tag : ℕ) (w : List ℕ) (es : List Entry)
    → Lacks tag es
    → offset_from at tag (es ++ (tag, w) ∷ []) ≡ at + size_of es
offset_from_of_Lacks at tag w es h = offset_from_at_Split at tag w es [] h
