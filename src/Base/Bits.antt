-- ===== src/Base/Bits.antt =====
-- `&` and `& ~` on masks of every width, through the law for the lowest digit.
use mathlib.Core.WellFounded
use Prim.Native.Nat.{
  ℕ, zero, suc, ◌+◌, ◌-◌, ◌*◌, ◌/◌, ◌%◌, ◌≤◌, ◌<◌, min, bit_and, digits, bit_and-bitwise,
}
use mathlib.Core.Path.{◌≡◌, refl}
use native.Mathlib.Omega.{arith}
use the_soverign_imperia_cit.Base.Order.{lt_wf}

-- The clauses that `&` stands for, with fuel for the digits of the left mask.
abbrev low_digits : ℕ → ℕ → ℕ → ℕ
low_digits fuel x y = digits (λ rest. zero) min fuel x y

none-bit_and : (y : ℕ) → bit_and 0 y ≡ 0
none-bit_and y = bit_and-bitwise 0 y

-- Any fuel that is not below the left mask gives all of its digits.
low_digits-bit_and :
    (bound fuel x y : ℕ) → fuel ≤ bound → x ≤ fuel → low_digits fuel x y ≡ bit_and x y
low_digits-bit_and bound zero zero y hb hx = omega (arith, none-bit_and y)
low_digits-bit_and bound (suc fuel) zero y hb hx = omega (arith, none-bit_and y)
low_digits-bit_and bound zero (suc x) y hb hx = absurd (omega arith)
low_digits-bit_and zero (suc fuel) (suc x) y hb hx = absurd (omega arith)
low_digits-bit_and (suc bound) (suc fuel) (suc x) y hb hx =
    let half = suc x / 2 in
    omega (
      arith,
      low_digits-bit_and bound fuel half (y / 2) (omega arith) (omega arith),
      low_digits-bit_and bound x half (y / 2) (omega arith) (omega arith),
      bit_and-bitwise (suc x) y,
    )

pub bit_and_lowest : (x y : ℕ) → bit_and x y ≡ min (x % 2) (y % 2) + 2 * bit_and (x / 2) (y / 2)
bit_and_lowest zero y = omega (arith, none-bit_and (y / 2), none-bit_and y)
bit_and_lowest (suc x) y =
    let rest = low_digits-bit_and x x (suc x / 2) (y / 2) (omega arith) (omega arith) in
    omega (rest, bit_and-bitwise (suc x) y, arith)

-- A statement about one mask by the digits of that mask.
pub by_digits : (C : ℕ → Type 0) → C 0 → ((a : ℕ) → 0 < a → C (a / 2) → C a) → (a : ℕ) → C a
by_digits C base step a = WellFounded.induction lt_wf {C = C} a rule
  where
    rule : (n : ℕ) → ((m : ℕ) → m < n → C m) → C n
    rule zero ih = base
    rule (suc n) ih = step (suc n) (omega arith) (ih (suc n / 2) (omega arith))

pub bit_and-le : (a b : ℕ) → bit_and a b ≤ a
bit_and-le a =
    by_digits (λ a. (b : ℕ) → bit_and a b ≤ a) (λ b. omega (arith, none-bit_and b))
      (λ a p ih b. omega (arith, bit_and_lowest a b, ih (b / 2))) a

pub bit_and_self : (a : ℕ) → bit_and a a ≡ a
bit_and_self =
    by_digits (λ a. bit_and a a ≡ a) refl (λ a p ih. omega (arith, bit_and_lowest a a, ih))

bit_and-half : (a b : ℕ) → bit_and a b / 2 ≡ bit_and (a / 2) (b / 2)
bit_and-half a b = omega (arith, bit_and_lowest a b)

bit_and-parity : (a b : ℕ) → bit_and a b % 2 ≡ min (a % 2) (b % 2)
bit_and-parity a b = omega (arith, bit_and_lowest a b)

assoc_step :
    (a b c : ℕ)
    → bit_and (bit_and (a / 2) (b / 2)) (c / 2) ≡ bit_and (a / 2) (bit_and (b / 2) (c / 2))
    → bit_and (bit_and a b) c ≡ bit_and a (bit_and b c)
assoc_step a b c h = ground (
  arith,
  bit_and_lowest (bit_and a b) c,
  bit_and_lowest a (bit_and b c),
  bit_and-half a b,
  bit_and-half b c,
  bit_and-parity a b,
  bit_and-parity b c,
)

pub bit_and_assoc : (a b c : ℕ) → bit_and (bit_and a b) c ≡ bit_and a (bit_and b c)
bit_and_assoc =
    by_digits (λ a. (b c : ℕ) → bit_and (bit_and a b) c ≡ bit_and a (bit_and b c))
      (λ b c. grind (arith, none-bit_and)) (λ a p ih b c. assoc_step a b c (ih (b / 2) (c / 2)))

pub bit_and-zero : (a : ℕ) → bit_and a 0 ≡ 0
bit_and-zero =
    by_digits (λ a. bit_and a 0 ≡ 0) refl (λ a p ih. omega (arith, bit_and_lowest a 0, ih))

pub bit_and_comm : (a b : ℕ) → bit_and a b ≡ bit_and b a
bit_and_comm =
    by_digits (λ a. (b : ℕ) → bit_and a b ≡ bit_and b a)
      (λ b. ground (arith, none-bit_and b, bit_and-zero b))
      (λ a p ih b. omega (arith, bit_and_lowest a b, bit_and_lowest b a, ih (b / 2)))

-- `a & ~b`: the bits of `a` that `b` does not have.
unfoldable pub and_not : ℕ → ℕ → ℕ
and_not a b = a - bit_and a b

and_not_step : (a b : ℕ) → and_not a b ≡ and_not (a / 2) (b / 2) * 2 + min (a % 2) (1 - b % 2)
unfolding and_not
and_not_step a b = omega (arith, bit_and_lowest a b, bit_and-le (a / 2) (b / 2))

and_not-half : (a b : ℕ) → and_not a b / 2 ≡ and_not (a / 2) (b / 2)
and_not-half a b = omega (arith, and_not_step a b)

zero-and_not : (b : ℕ) → and_not 0 b ≡ 0
unfolding and_not
zero-and_not b = omega arith

clear_step : (a b : ℕ) → bit_and (and_not (a / 2) (b / 2)) (b / 2) ≡ 0 → bit_and (and_not a b) b ≡ 0
clear_step a b h =
    ground (arith, bit_and_lowest (and_not a b) b, and_not_step a b, and_not-half a b)

-- Nothing of `b` is left in `a & ~b`.
pub bit_and-and_not : (a b : ℕ) → bit_and (and_not a b) b ≡ 0
bit_and-and_not =
    by_digits (λ a. (b : ℕ) → bit_and (and_not a b) b ≡ 0)
      (λ b. rw (zero-and_not b) (none-bit_and b)) (λ a p ih b. clear_step a b (ih (b / 2)))

-- What does not meet `b` is kept whole.
pub and_not_of_disjoint : (a b : ℕ) → bit_and a b ≡ 0 → and_not a b ≡ a
unfolding and_not
and_not_of_disjoint a b h = omega arith

within_step :
    (a b : ℕ)
    → bit_and (and_not (a / 2) (b / 2)) (a / 2) ≡ and_not (a / 2) (b / 2)
    → bit_and (and_not a b) a ≡ and_not a b
within_step a b h =
    ground (arith, bit_and_lowest (and_not a b) a, and_not_step a b, and_not-half a b)

-- `a & ~b` has bits of `a` only.
pub and_not-bit_and : (a b : ℕ) → bit_and (and_not a b) a ≡ and_not a b
and_not-bit_and =
    by_digits (λ a. (b : ℕ) → bit_and (and_not a b) a ≡ and_not a b) (λ b. rw (zero-and_not b) refl)
      (λ a p ih b. within_step a b (ih (b / 2)))

slide_step :
    (r m x : ℕ)
    → bit_and (r / 2) (and_not (m / 2) (x / 2)) ≡ and_not (bit_and (r / 2) (m / 2)) (x / 2)
    → bit_and r (and_not m x) ≡ and_not (bit_and r m) x
slide_step r m x h = ground (
  arith,
  bit_and_lowest r (and_not m x),
  and_not_step (bit_and r m) x,
  and_not_step m x,
  and_not-half m x,
  bit_and-half r m,
  bit_and-parity r m,
)

-- `a & (b & ~c)` is `(a & b) & ~c`.
pub bit_and-and_not_assoc : (r m x : ℕ) → bit_and r (and_not m x) ≡ and_not (bit_and r m) x
bit_and-and_not_assoc =
    by_digits (λ r. (m x : ℕ) → bit_and r (and_not m x) ≡ and_not (bit_and r m) x)
      (λ m x. rw (none-bit_and m, none-bit_and (and_not m x), zero-and_not x) refl)
      (λ r p ih m x. slide_step r m x (ih (m / 2) (x / 2)))
