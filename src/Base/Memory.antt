-- ===== src/Base/Memory.antt =====
-- Objects of C as lists of bytes: `memcpy`, `memcmp`, and numbers in little-endian order.
use Prim.Native.Nat.{ℕ, zero, suc, ◌≤◌, ◌+◌, ◌*◌, ◌/◌, ◌%◌, ◌^◌, ◌<◌}
use mathlib.Core.Path.{◌≡◌, refl, ap}
use mathlib.Core.Bool.{Bool, true, false, ◌&&◌}
use mathlib.Core.List.{List, [], ◌∷◌, ◌++◌, append_assoc}
use mathlib.Core.Option.{Option, none, some}
use native.Mathlib.Nat.{pow-suc}
use native.Mathlib.Omega.{arith}
use tdoa.Base.Tests.{leb, ◌==◌, if◌then◌else◌, leb-eq_true}
use tdoa.Base.Lists.{length, take, drop, length-append, take-append, drop-append}

-- The `n` bytes at `off`, as `memcpy` and `memcmp` read them.
abbrev pub read_at : List ℕ → ℕ → ℕ → Option (List ℕ)
read_at m off n = if leb (off + n) (length m) then some (take n (drop off m)) else none

-- The object after the bytes at `off` are overwritten.
abbrev pub write_at : List ℕ → ℕ → List ℕ → Option (List ℕ)
write_at m off bs =
    if leb (off + length bs) (length m)
    then some (take off m ++ (bs ++ drop (off + length bs) m))
    else none

unfoldable pub same_bytes : List ℕ → List ℕ → Bool
same_bytes [] [] = true
same_bytes [] (y ∷ ys) = false
same_bytes (x ∷ xs) [] = false
same_bytes (x ∷ xs) (y ∷ ys) = (x == y) && same_bytes xs ys

pub same_bytes→eq : (xs ys : List ℕ) → same_bytes xs ys ≡ true → xs ≡ ys
unfolding same_bytes
same_bytes→eq [] [] h = refl
same_bytes→eq [] (y ∷ ys) h = ground arith
same_bytes→eq (x ∷ xs) [] h = ground arith
same_bytes→eq (x ∷ xs) (y ∷ ys) h = ground (arith, same_bytes→eq xs ys)

-- A read of the middle part of an object.
pub read_at-append :
    (a b c : List ℕ) (off n : ℕ)
    → off ≡ length a
    → n ≡ length b
    → read_at (a ++ (b ++ c)) off n ≡ some b
read_at-append a b c off n ha hb =
    rw
      (
        length-append,
        length-append,
        leb-eq_true (off + n) (length a + (length b + length c)) (omega arith),
        drop-append off a (b ++ c) ha,
        take-append n b c hb,
      )
      refl

drop-append_middle : (a b c : List ℕ) (n : ℕ) → n ≡ length a + length b → drop n (a ++ (b ++ c)) ≡ c
drop-append_middle a b c n h =
    rw (← append_assoc a b c) (drop-append n (a ++ b) c (omega (arith, length-append a b)))

-- A write over the middle part of an object.
pub write_at-append :
    (a b c bs : List ℕ) (off : ℕ)
    → off ≡ length a
    → length bs ≡ length b
    → write_at (a ++ (b ++ c)) off bs ≡ some (a ++ (bs ++ c))
write_at-append a b c bs off ha hb =
    rw
      (
        length-append,
        length-append,
        leb-eq_true (off + length bs) (length a + (length b + length c)) (omega arith),
        take-append off a (b ++ c) ha,
        drop-append_middle a b c (off + length bs) (omega arith),
      )
      refl

-- A number in `n` bytes, the lowest first, and back.
abbrev pub le_bytes : ℕ → ℕ → List ℕ
le_bytes zero v = []
le_bytes (suc n) v = v % 256 ∷ le_bytes n (v / 256)

abbrev pub from_le : List ℕ → ℕ
from_le [] = 0
from_le (b ∷ bs) = b + 256 * from_le bs

pub length-le_bytes : (n v : ℕ) → length (le_bytes n v) ≡ n
length-le_bytes zero v = refl
length-le_bytes (suc n) v = ap suc (length-le_bytes n (v / 256))

pub from_le-le_bytes : (n v : ℕ) → v < 256 ^ n → from_le (le_bytes n v) ≡ v
from_le-le_bytes zero v h = omega arith
from_le-le_bytes (suc n) v h =
    omega (arith, pow-suc 256 n, from_le-le_bytes n (v / 256) (omega (arith, pow-suc 256 n)))

-- The same, for an object that is given otherwise.
pub read_at_split :
    (m a b c : List ℕ) (off n : ℕ)
    → m ≡ a ++ (b ++ c)
    → off ≡ length a
    → n ≡ length b
    → read_at m off n ≡ some b
read_at_split m a b c off n e ha hb = rw e (read_at-append a b c off n ha hb)

pub write_at_split :
    (m a b c bs r : List ℕ) (off : ℕ)
    → m ≡ a ++ (b ++ c)
    → off ≡ length a
    → length bs ≡ length b
    → a ++ (bs ++ c) ≡ r
    → write_at m off bs ≡ some r
write_at_split m a b c bs r off e ha hb q = rw (e, ← q) (write_at-append a b c bs off ha hb)

-- A write at the start.
pub write_front :
    (m bs : List ℕ) → length bs ≤ length m → write_at m 0 bs ≡ some (bs ++ drop (length bs) m)
write_front m bs h = ground arith
