-- ===== src/Prelude/Bits.antt =====
-- Laws of `bit_and` and `bit_or` at variables: one digit at a time, then disjoint fields, masks on a
-- byte, and a table of the values below a bound.
use Prim.Native.Nat.{
  ℕ, zero, suc, ◌+◌, ◌*◌, ◌/◌, ◌%◌, ◌^◌, ◌≤◌, ◌<◌, max, min, bit_and, bit_or, digits,
  bit_or-bitwise, bit_and-bitwise, ◌-◌,
}
use mathlib.Core.Path.{◌≡◌, refl, ap, ◌∙◌}
use mathlib.Core.Bool.{Bool, true, ◌&&◌}
use native.Mathlib.Nat.{
  pow-suc, one-le-pow, add-mul-mod_self_right, mod-eq_of_lt, mod-lt, div-add-mod',
}
use native.Mathlib.Omega.{arith}
use php_sdsearch.Prelude.Tests.{◌==◌, ==_iff}

-- What both operations share: they go digit by digit, on fuel.
module _ (base : ℕ → ℕ) (op : ℕ → ℕ → ℕ) where
  spare_fuel : (n a b : ℕ) → a ≤ n → digits base op (suc n) a b ≡ digits base op n a b
  spare_fuel n zero b h = out_of_digits n
    where
      out_of_digits : (k : ℕ) → digits base op (suc k) zero b ≡ digits base op k zero b
      out_of_digits zero = refl
      out_of_digits (suc k) = refl
  spare_fuel zero (suc a) b h = absurd (omega arith)
  spare_fuel (suc n) (suc a) b h =
      let inner = spare_fuel n (suc a / 2) (b / 2) (omega arith) in
      ap (λ (t : ℕ). t * 2 + op (suc a % 2) (b % 2)) inner

  -- As much fuel as the number itself is enough.
  fuel_lem : (k n a b : ℕ) → n ≡ k + a → digits base op n a b ≡ digits base op a a b
  fuel_lem zero n a b h =
      let same : n ≡ a = omega arith in ap (λ (t : ℕ). digits base op t a b) same
  fuel_lem (suc k) zero a b h = absurd (omega arith)
  fuel_lem (suc k) (suc n) a b h = spare_fuel n a b (omega arith) ∙ fuel_lem k n a b (omega arith)

  digits-suc :
      (a b : ℕ)
      → digits base op (suc a) (suc a) b
        ≡ digits base op (suc a / 2) (suc a / 2) (b / 2) * 2 + op (suc a % 2) (b % 2)
  digits-suc a b =
      ap (λ (t : ℕ). t * 2 + op (suc a % 2) (b % 2))
        (fuel_lem (a - suc a / 2) a (suc a / 2) (b / 2) (omega arith))

or_nothing : (b : ℕ) → bit_or 0 b ≡ b
or_nothing = bit_or-bitwise 0

-- The lowest digit of an `or`, and the rest.
or_halves : (a b : ℕ) → bit_or a b ≡ bit_or (a / 2) (b / 2) * 2 + max (a % 2) (b % 2)
or_halves zero b = omega (arith, or_nothing b, or_nothing (b / 2))
or_halves (suc a) b =
    rw (bit_or-bitwise (suc a) b, bit_or-bitwise (suc a / 2) (b / 2)) (digits-suc (λ t. t) max a b)

double_shift : (q k : ℕ) → q * 2 ^ suc k ≡ 2 * (q * 2 ^ k)
double_shift q k = omega (arith, ap (λ (t : ℕ). q * t) (pow-suc 2 k))

-- `a | (q << k)` is a sum when `a` fits `k` bits.
pub bit_or-shift : (k a q : ℕ) → a < 2 ^ k → bit_or a (q * 2 ^ k) ≡ a + q * 2 ^ k
bit_or-shift zero zero q fits = omega (arith, or_nothing (q * 2 ^ zero))
bit_or-shift zero (suc a) q fits = absurd (omega arith)
bit_or-shift (suc k) a q fits = omega (
  arith,
  or_halves a (q * 2 ^ suc k),
  double_shift q k,
  pow-suc 2 k,
  ap (λ (t : ℕ). bit_or (a / 2) t) (halve q k),
  bit_or-shift k (a / 2) q (omega (arith, pow-suc 2 k)),
)
  where
    halve : (p j : ℕ) → p * 2 ^ suc j / 2 ≡ p * 2 ^ j
    halve p j = omega (arith, double_shift p j)

or_nothing_under : (n a : ℕ) → a ≤ n → bit_or a 0 ≡ a
or_nothing_under n zero h = or_nothing 0
or_nothing_under zero (suc a) h = absurd (omega arith)
or_nothing_under (suc n) (suc a) h =
    omega (arith, or_halves (suc a) 0, or_nothing_under n (suc a / 2) (omega arith))

-- `(q << k) | r` likewise.
pub bit_or_fields : (k q r : ℕ) → r < 2 ^ k → bit_or (q * 2 ^ k) r ≡ q * 2 ^ k + r
bit_or_fields zero q zero fits =
    omega (arith, or_nothing_under (q * 2 ^ zero) (q * 2 ^ zero) (omega arith))
bit_or_fields zero q (suc r) fits = absurd (omega arith)
bit_or_fields (suc k) q r fits = omega (
  arith,
  or_halves (q * 2 ^ suc k) r,
  double_shift q k,
  pow-suc 2 k,
  ap (λ (t : ℕ). bit_or t (r / 2)) (halve q k),
  bit_or_fields k q (r / 2) (omega (arith, pow-suc 2 k)),
)
  where
    halve : (p j : ℕ) → p * 2 ^ suc j / 2 ≡ p * 2 ^ j
    halve p j = omega (arith, double_shift p j)

-- `and` goes by digits as well.
pub zero-bit_and : (b : ℕ) → bit_and 0 b ≡ 0
zero-bit_and = bit_and-bitwise 0

and_halves : (a b : ℕ) → bit_and a b ≡ bit_and (a / 2) (b / 2) * 2 + min (a % 2) (b % 2)
and_halves zero b = omega (arith, zero-bit_and b, zero-bit_and (b / 2))
and_halves (suc a) b =
    rw (bit_and-bitwise (suc a) b, bit_and-bitwise (suc a / 2) (b / 2))
      (digits-suc (λ t. 0) min a b)

and_nothing : (n a : ℕ) → a ≤ n → bit_and a 0 ≡ 0
and_nothing n zero h = zero-bit_and 0
and_nothing zero (suc a) h = absurd (omega arith)
and_nothing (suc n) (suc a) h =
    omega (arith, and_halves (suc a) 0, and_nothing n (suc a / 2) (omega arith))

mod-double : (x j : ℕ) → x % 2 ^ suc j ≡ x / 2 % 2 ^ j * 2 + x % 2
mod-double x j =
    ap (λ (t : ℕ). t % 2 ^ suc j) split
    ∙ add-mul-mod_self_right (x / 2 % 2 ^ j * 2 + x % 2) (x / 2 / 2 ^ j) (2 ^ suc j)
    ∙ mod-eq_of_lt small
  where
    split : x ≡ (x / 2 % 2 ^ j * 2 + x % 2) + x / 2 / 2 ^ j * 2 ^ suc j
    split =
        omega (arith, div-add-mod' (x / 2) (2 ^ j), ap (λ (t : ℕ). x / 2 / 2 ^ j * t) (pow-suc 2 j))

    small : x / 2 % 2 ^ j * 2 + x % 2 < 2 ^ suc j
    small = omega (
      arith,
      pow-suc 2 j,
      one-le-pow j 2 (omega arith),
      mod-lt (x / 2) {m = 2 ^ j} (one-le-pow j 2 (omega arith)),
    )

-- A mask of the `k` lowest bits takes the remainder.
pub bit_and-mask : (k a : ℕ) → bit_and a (2 ^ k - 1) ≡ a % 2 ^ k
bit_and-mask zero a = omega (arith, and_nothing a a (omega arith))
bit_and-mask (suc k) a = omega (
  arith,
  and_halves a (2 ^ suc k - 1),
  pow-suc 2 k,
  one-le-pow k 2 (omega arith),
  ap (λ (t : ℕ). bit_and (a / 2) t) (half_mask k),
  bit_and-mask k (a / 2),
  mod-double a k,
)
  where
    half_mask : (j : ℕ) → (2 ^ suc j - 1) / 2 ≡ 2 ^ j - 1
    half_mask j = omega (arith, pow-suc 2 j, one-le-pow j 2 (omega arith))

-- A property of the numbers below `n`, as a table that is checked by evaluation.
unfoldable pub table : ℕ → (ℕ → Bool) → Bool
table zero p = true
table (suc n) p = p n && table n p

pub table_sound : (n : ℕ) (p : ℕ → Bool) (x : ℕ) → table n p ≡ true → x < n → p x ≡ true
unfolding table
table_sound zero p x h below = absurd (omega arith)
table_sound (suc n) p x h below = ground (arith, table_sound n p x)

pub table_eq :
    (n : ℕ) (f g : ℕ → ℕ) → table n (λ x. f x == g x) ≡ true → (x : ℕ) → x < n → f x ≡ g x
table_eq n f g h x below = (==_iff (f x) (g x)).0 (table_sound n (λ x. f x == g x) x h below)

-- The masks that the format's readers and writers use, on a byte.
pub and_0x7f : (b : ℕ) → b < 256 → bit_and b 0x7f ≡ b % 128
unfolding table
and_0x7f = table_eq 256 _ _ refl

pub and_0x80 : (b : ℕ) → b < 256 → bit_and b 0x80 ≡ b / 128 * 128
unfolding table
and_0x80 = table_eq 256 _ _ refl

pub or_0x80 : (b : ℕ) → b < 128 → bit_or b 0x80 ≡ b + 128
unfolding table
or_0x80 = table_eq 128 _ _ refl

pub and_0xe0 : (b : ℕ) → b < 256 → bit_and b 0xe0 ≡ b / 32 * 32
unfolding table
and_0xe0 = table_eq 256 _ _ refl

pub and_0xf0 : (b : ℕ) → b < 256 → bit_and b 0xf0 ≡ b / 16 * 16
unfolding table
and_0xf0 = table_eq 256 _ _ refl
