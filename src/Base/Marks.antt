-- ===== src/Base/Marks.antt =====
-- `|` on masks, through the law for the lowest digit.
use Prim.Native.Nat.{
  ℕ, zero, suc, ◌+◌, ◌*◌, ◌/◌, ◌%◌, ◌≤◌, max, bit_and, bit_or, digits, bit_or-bitwise,
}
use mathlib.Core.Path.{◌≡◌}
use native.Mathlib.Omega.{arith}
use the_soverign_imperia_cit.Base.Bits.{by_digits, bit_and_lowest, bit_and-zero}

abbrev or_digits : ℕ → ℕ → ℕ → ℕ
or_digits fuel x y = digits (λ b. b) max fuel x y

none-bit_or : (y : ℕ) → bit_or 0 y ≡ y
none-bit_or y = bit_or-bitwise 0 y

or_digits-bit_or : (bound fuel x y : ℕ) → fuel ≤ bound → x ≤ fuel → or_digits fuel x y ≡ bit_or x y
or_digits-bit_or bound zero zero y hb hx = omega (arith, none-bit_or y)
or_digits-bit_or bound (suc fuel) zero y hb hx = omega (arith, none-bit_or y)
or_digits-bit_or bound zero (suc x) y hb hx = absurd (omega arith)
or_digits-bit_or zero (suc fuel) (suc x) y hb hx = absurd (omega arith)
or_digits-bit_or (suc bound) (suc fuel) (suc x) y hb hx =
    let half = suc x / 2 in
    omega (
      arith,
      or_digits-bit_or bound fuel half (y / 2) (omega arith) (omega arith),
      or_digits-bit_or bound x half (y / 2) (omega arith) (omega arith),
      bit_or-bitwise (suc x) y,
    )

bit_or_lowest : (x y : ℕ) → bit_or x y ≡ max (x % 2) (y % 2) + 2 * bit_or (x / 2) (y / 2)
bit_or_lowest zero y = omega (arith, none-bit_or (y / 2), none-bit_or y)
bit_or_lowest (suc x) y =
    let rest = or_digits-bit_or x x (suc x / 2) (y / 2) (omega arith) (omega arith) in
    omega (rest, bit_or-bitwise (suc x) y, arith)

bit_or-half : (x y : ℕ) → bit_or x y / 2 ≡ bit_or (x / 2) (y / 2)
bit_or-half x y = omega (arith, bit_or_lowest x y)

bit_or-parity : (x y : ℕ) → bit_or x y % 2 ≡ max (x % 2) (y % 2)
bit_or-parity x y = omega (arith, bit_or_lowest x y)

-- What was marked is there.
pub bit_and-bit_or : (y x : ℕ) → bit_and (bit_or x y) y ≡ y
bit_and-bit_or =
    by_digits (λ y. (x : ℕ) → bit_and (bit_or x y) y ≡ y) (λ x. bit_and-zero (bit_or x 0))
      (λ y p ih x.
        rw (bit_and_lowest (bit_or x y) y, bit_or-half x y, ih (x / 2))
          (omega (arith, bit_or-parity x y)))

-- A mark takes nothing away.
pub bit_and-bit_or-le : (z x y : ℕ) → bit_and x z ≤ bit_and (bit_or x y) z
bit_and-bit_or-le =
    by_digits (λ z. (x y : ℕ) → bit_and x z ≤ bit_and (bit_or x y) z)
      (λ x y. omega (arith, bit_and-zero x))
      (λ z p ih x y.
        rw (bit_and_lowest (bit_or x y) z, bit_or-half x y)
          (omega (arith, bit_and_lowest x z, bit_or-parity x y, ih (x / 2) (y / 2))))
