-- ===== src/Cli/Address/Parse.antt =====
-- What an argument of `config address` is read as.
use tdoa.Base.{
  Bool, if◌then◌else◌, ℕ, zero, suc, ◌<◌, ◌≡◌, refl, ap, ◌∙◌, subst, ◌++◌, ltb-eq_false, some, none,
  Option, List, [], ◌∷◌, arith, length, inl, inr, ◌⊎◌, true, false, ltb, ltb→le, ℤ, neg, ◌==◌,
  ==→eq,
}
use tdoa.Cli.{keep_byte, read_byte, check_length, tokens_from, parse_bytes, parse_address}

-- Every element is a byte.
abbrev pub AreBytes : List ℕ → Type 0
AreBytes [] = Unit
AreBytes (b ∷ bs) = (b < 256) × AreBytes bs

-- The result of a parse has bytes; that of the whole, eight of them.
abbrev Accepted : ℤ ⊎ List ℕ → Type 0
Accepted (inl code) = Unit
Accepted (inr bytes) = AreBytes bytes

abbrev pub AcceptedEight : ℤ ⊎ List ℕ → Type 0
AcceptedEight (inl code) = Unit
AcceptedEight (inr bytes) = AreBytes bytes × (length bytes ≡ 8)

keep_byte-Accepted :
    (value : ℕ) (rest : ℤ ⊎ List ℕ) → value < 256 → Accepted rest → Accepted (keep_byte value rest)
unfolding keep_byte
keep_byte-Accepted value (inl code) small h = tt
keep_byte-Accepted value (inr bytes) small h = (small, h)

choose_byte :
    (b : Bool) (rest : ℤ ⊎ List ℕ)
    → (b ≡ false → Accepted rest)
    → Accepted (if b then inl (neg 2) else rest)
choose_byte true rest h = tt
choose_byte false rest h = h refl

read_byte-Accepted :
    (o : Option ℕ) (rest : ℤ ⊎ List ℕ) → Accepted rest → Accepted (read_byte o rest)
unfolding read_byte
read_byte-Accepted none rest h = tt
read_byte-Accepted (some value) rest h =
    choose_byte (ltb 0xFF value) (keep_byte value rest)
      (λ e. keep_byte-Accepted value rest (omega (arith, ltb→le 0xFF value e)) h)

choose_eight :
    (b : Bool) (bytes : List ℕ)
    → (b ≡ true → length bytes ≡ 8)
    → AreBytes bytes
    → AcceptedEight (if b then inr bytes else inl (neg 3))
choose_eight true bytes e h = (h, e refl)
choose_eight false bytes e h = tt

check_length-AcceptedEight : (r : ℤ ⊎ List ℕ) → Accepted r → AcceptedEight (check_length r)
unfolding check_length
check_length-AcceptedEight (inl code) h = tt
check_length-AcceptedEight (inr bytes) h =
    choose_eight (length bytes == 8) bytes (==→eq (length bytes) 8) h

module _ (shell_strtoul : List ℕ → ℕ → Option ℕ) where
  parse_bytes-Accepted :
      (tokens : List (List ℕ)) (n : ℕ) → Accepted (parse_bytes shell_strtoul tokens n)
  unfolding parse_bytes
  parse_bytes-Accepted [] n = tt
  parse_bytes-Accepted (token ∷ tokens) zero = tt
  parse_bytes-Accepted (token ∷ tokens) (suc n) =
      read_byte-Accepted (shell_strtoul token 16) (parse_bytes shell_strtoul tokens n)
        (parse_bytes-Accepted tokens n)

  pub parse_address-AcceptedEight : (arg : List ℕ) → AcceptedEight (parse_address shell_strtoul arg)
  unfolding parse_address
  parse_address-AcceptedEight arg =
      check_length-AcceptedEight (parse_bytes shell_strtoul (tokens_from [] arg) 8)
        (parse_bytes-Accepted (tokens_from [] arg) 8)

  -- Each token is read as the byte at its place.
  pub data SpellBytes : List (List ℕ) → List ℕ → Type 0 where
    none_left : SpellBytes [] []
    next_byte :
        {token : List ℕ} {tokens : List (List ℕ)} {byte : ℕ} {bytes : List ℕ}
        → shell_strtoul token 16 ≡ some byte
        → byte < 256
        → SpellBytes tokens bytes
        → SpellBytes (token ∷ tokens) (byte ∷ bytes)

  parse_bytes-SpellBytes :
      {tokens : List (List ℕ)} {bytes : List ℕ} (rest : List (List ℕ))
      → SpellBytes tokens bytes
      → parse_bytes shell_strtoul (tokens ++ rest) (length bytes) ≡ inr bytes
  unfolding parse_bytes read_byte keep_byte
  parse_bytes-SpellBytes [] none_left = refl
  parse_bytes-SpellBytes (token ∷ rest) none_left = refl
  parse_bytes-SpellBytes rest (next_byte {byte = byte} read small later) =
      rw (read, ltb-eq_false 255 byte (omega arith), parse_bytes-SpellBytes rest later) refl

  -- An address that is too long is not refused: if the first eight parts of an argument spell
  -- bytes then it is read as those, whatever parts follow, numbers or not.
  pub parse_address_ignores_rest :
      (arg bytes : List ℕ) (tokens rest : List (List ℕ))
      → tokens_from [] arg ≡ tokens ++ rest
      → SpellBytes tokens bytes
      → length bytes ≡ 8
      → parse_address shell_strtoul arg ≡ inr bytes
  unfolding parse_address check_length
  parse_address_ignores_rest arg bytes tokens rest split spell eight =
      let parsed : parse_bytes shell_strtoul (tokens_from [] arg) 8 ≡ inr bytes =
        ap (λ ts. parse_bytes shell_strtoul ts 8) split
        ∙ subst (λ n. parse_bytes shell_strtoul (tokens ++ rest) n ≡ inr bytes) eight
            (parse_bytes-SpellBytes rest spell) in
      ground arith

  pub length-parse_address :
      (arg : List ℕ) {bytes : List ℕ}
      → parse_address shell_strtoul arg ≡ inr bytes
      → length bytes ≡ 8
  length-parse_address arg e = (subst AcceptedEight e (parse_address-AcceptedEight arg)).1
