-- ===== src/Spi/Port.antt =====
-- dw1000/src/port.c but for the two rates, and what is left of deca_spi.c, deca_mutex.c and
-- deca_sleep.c. The calls of Zephyr's GPIO driver are a log, the last one first.
use tdoa.Base.{
  ℕ, zero, suc, ◌+◌, ◌-◌, ◌^◌, ◌≤◌, ◌<◌, ◌≡◌, refl, Bool, Option, none, some, List, [], ◌∷◌,
  if◌then◌else◌, ltb, ltb-eq_true, ltb→lt, ltb→le, Bool-cases, inl, inr, arith, ℤ, pos,
}

abbrev pub gpio_pin : ℕ
gpio_pin = 19

pub data GpioFlag : Type 0 where
  gpio_input gpio_pull_up gpio_active_low gpio_int_edge_rising : GpioFlag

abbrev pub gpio_flags : List GpioFlag
gpio_flags = gpio_pull_up ∷ gpio_active_low ∷ []

-- The callback that is installed is always `uwb_isr`.
pub data GpioCall : Type 0 where
  gpio_pin_configure gpio_pin_interrupt_configure : ℕ → List GpioFlag → GpioCall
  gpio_init_callback : ℕ → GpioCall
  gpio_add_callback : GpioCall

-- `found` is whether there is a device `gpio0`.
unfoldable pub port_set_deca_isr : Bool → List GpioCall → List GpioCall
port_set_deca_isr found calls =
    if found
    then gpio_pin_interrupt_configure gpio_pin (gpio_int_edge_rising ∷ [])
      ∷ gpio_add_callback
      ∷ gpio_init_callback (2 ^ gpio_pin)
      ∷ gpio_pin_configure gpio_pin (gpio_input ∷ gpio_flags)
      ∷ calls
    else calls

-- The largest `int`
abbrev pub int_max : ℕ
int_max = 2 ^ 31 - 1

-- The outer loop with `left` rounds to go. The counter is an `int`, and none is its overflow; the
-- inner loop counts to two and does nothing.
unfoldable pub usleep_from : ℕ → ℕ → Option ℤ
usleep_from zero i = some (pos 0)
usleep_from (suc left) i =
    let rest = usleep_from left (i + 1) in if ltb i int_max then rest else none

unfoldable pub usleep : ℕ → Option ℤ
unfolding usleep_from
usleep usec = usleep_from usec 0

-- `k_msleep`, which is a parameter, for as long
unfoldable pub deca_sleep {ℓ} : {World : Type ℓ} → (World → ℕ → World) → World → ℕ → World
deca_sleep k_msleep world time_ms = k_msleep world time_ms

unfoldable pub closespi : ℤ
closespi = pos 0

usleep_from_ends : (left i : ℕ) → left + i ≤ int_max → usleep_from left i ≡ some (pos 0)
unfolding usleep_from
usleep_from_ends zero i h = refl
usleep_from_ends (suc left) i h =
    rw (ltb-eq_true i int_max (omega arith)) (usleep_from_ends left (i + 1) (omega arith))

usleep_from_overflows : (left i : ℕ) → i ≤ int_max → int_max < left + i → usleep_from left i ≡ none
unfolding usleep_from
usleep_from_overflows zero i small h = ground arith
usleep_from_overflows (suc left) i small h = elim (Bool-cases (ltb i int_max)) [
  | inl go ↦
      rw go (usleep_from_overflows left (i + 1) (omega (arith, ltb→lt i int_max go)) (omega arith))
  | inr stop ↦ rw stop refl
]

-- `usleep` comes to its end, with 0, for a time that an `int` can count; a longer one makes its
-- counter overflow.
pub usleep_lem : (usec : ℕ) → usleep usec ≡ (if ltb int_max usec then none else some (pos 0))
unfolding usleep
usleep_lem usec = elim (Bool-cases (ltb int_max usec)) [
  | inl long ↦
      rw long (usleep_from_overflows usec 0 (omega arith) (omega (arith, ltb→lt int_max usec long)))
  | inr short ↦ rw short (usleep_from_ends usec 0 (omega (arith, ltb→le int_max usec short)))
]
