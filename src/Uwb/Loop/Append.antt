-- ===== src/Uwb/Loop/Append.antt =====
-- Runs of the thread, and of the calls of an interrupt, that go on.
use tdoa.Base.{◌≡◌, Option-cases, some, inl, inr, List, [], ◌∷◌, ◌++◌, arith}
use tdoa.Uwb.Radio.{Radio}
use tdoa.Uwb.Loop.{Running, Callback, Wake, Loop, isr, isr_again, uwb_iteration, uwb_loop}

module _ (radio : Radio) where
  pub isr_again-append :
      (r : Running) (css : List (List Callback)) (cs : List Callback) {mid next : Running}
      → isr_again radio r css ≡ some mid
      → isr radio mid cs ≡ some next
      → isr_again radio r (css ++ (cs ∷ [])) ≡ some next
  unfolding isr_again
  isr_again-append r [] cs e f = ground arith
  isr_again-append r (c ∷ css) cs e f = elim (Option-cases (isr radio r c)) [
    | inl stuck ↦ ground arith
    | inr (r1, one) ↦ rw one (isr_again-append r1 css cs (ground arith) f)
  ]

  pub uwb_loop-append :
      (l : Loop) (ws vs : List Wake) {mid : Loop}
      → uwb_loop radio l ws ≡ some mid
      → uwb_loop radio l (ws ++ vs) ≡ uwb_loop radio mid vs
  unfolding uwb_loop
  uwb_loop-append l [] vs e = ground arith
  uwb_loop-append l (w ∷ ws) vs e = elim (Option-cases (uwb_iteration radio l w)) [
    | inl stuck ↦ ground arith
    | inr (l1, one) ↦ rw one (uwb_loop-append l1 ws vs (ground arith))
  ]
