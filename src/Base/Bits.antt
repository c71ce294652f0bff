-- ===== src/Base/Bits.antt =====
-- `|` of disjoint fields and `^` on numbers of any width, from the recursion on binary digits.
use Prim.Native.Nat.{
  ℕ, zero, suc, ◌+◌, ◌*◌, ◌/◌, ◌%◌, ◌^◌, ◌≤◌, ◌<◌, max, differ, digits, bit_or, bit_xor,
  bit_or-bitwise, bit_xor-bitwise,
}
use mathlib.Core.Path.{◌≡◌, refl, ap}
use native.Mathlib.Nat.{pow-suc}
use native.Mathlib.Omega.{arith}

-- The count of digits may be any bound on the first number.
module _ (f : ℕ → ℕ → ℕ) where
  digits_bound :
      (u v fuel bound : ℕ)
      → u ≤ fuel
      → u ≤ bound
      → digits (λ y. y) f fuel u v ≡ digits (λ y. y) f bound u v
  digits_bound (suc u) v (suc fuel) (suc bound) p q =
      omega (arith, digits_bound (suc u / 2) (v / 2) fuel bound (omega arith) (omega arith))
  digits_bound (suc u) v zero bound p q = absurd (omega arith)
  digits_bound (suc u) v (suc fuel) zero p q = absurd (omega arith)
  digits_bound zero v zero zero p q = refl
  digits_bound zero v (suc fuel) zero p q = refl
  digits_bound zero v zero (suc bound) p q = refl
  digits_bound zero v (suc fuel) (suc bound) p q = refl

bit_or_step : (a b : ℕ) → bit_or a b ≡ bit_or (a / 2) (b / 2) * 2 + max (a % 2) (b % 2)
bit_or_step zero b = omega (arith, bit_or-bitwise 0 b, bit_or-bitwise 0 (b / 2))
bit_or_step (suc a) b = omega (
  arith,
  bit_or-bitwise (suc a) b,
  bit_or-bitwise (suc a / 2) (b / 2),
  digits_bound max (suc a / 2) (b / 2) a (suc a / 2) (omega arith) (omega arith),
)

differ-lt : (a b : ℕ) → a < 2 → b < 2 → differ a b ≡ (a + b) % 2
differ-lt zero zero h k = refl
differ-lt zero (suc zero) h k = refl
differ-lt (suc zero) zero h k = refl
differ-lt (suc zero) (suc zero) h k = refl
differ-lt zero (suc (suc b)) h k = absurd (omega arith)
differ-lt (suc zero) (suc (suc b)) h k = absurd (omega arith)
differ-lt (suc (suc a)) b h k = absurd (omega arith)

bit_xor_step : (a b : ℕ) → bit_xor a b ≡ bit_xor (a / 2) (b / 2) * 2 + (a % 2 + b % 2) % 2
bit_xor_step zero b = omega (arith, bit_xor-bitwise 0 b, bit_xor-bitwise 0 (b / 2))
bit_xor_step (suc a) b = omega (
  arith,
  bit_xor-bitwise (suc a) b,
  bit_xor-bitwise (suc a / 2) (b / 2),
  differ-lt (suc a % 2) (b % 2) (omega arith) (omega arith),
  digits_bound differ (suc a / 2) (b / 2) a (suc a / 2) (omega arith) (omega arith),
)

-- A field above `2 ^ k` and one below it share no digit, so `|` adds them.
bit_or-add : (k q r : ℕ) → r < 2 ^ k → bit_or r (q * 2 ^ k) ≡ q * 2 ^ k + r
bit_or-add zero q zero h = omega (arith, bit_or-bitwise 0 (q * 2 ^ 0))
bit_or-add zero q (suc r) h = absurd (omega arith)
bit_or-add (suc k) q r h =
    let twice : q * 2 ^ suc k ≡ 2 * (q * 2 ^ k) =
      omega (arith, ap (λ (t : ℕ). q * t) (pow-suc 2 k)) in
    omega (
      arith,
      twice,
      pow-suc 2 k,
      bit_or_step r (q * 2 ^ suc k),
      half_field twice,
      bit_or-add k q (r / 2) (omega (arith, pow-suc 2 k)),
    )
  where
    half_field :
        q * 2 ^ suc k ≡ 2 * (q * 2 ^ k)
        → bit_or (r / 2) (q * 2 ^ suc k / 2) ≡ bit_or (r / 2) (q * 2 ^ k)
    half_field e = ap (bit_or (r / 2)) (omega arith)

comm_below : (n a b : ℕ) → a ≤ n → b ≤ n → bit_or a b ≡ bit_or b a
comm_below zero zero zero p q = refl
comm_below zero zero (suc b) p q = absurd (omega arith)
comm_below zero (suc a) b p q = absurd (omega arith)
comm_below (suc n) a b p q = omega (
  arith,
  bit_or_step a b,
  bit_or_step b a,
  comm_below n (a / 2) (b / 2) (omega arith) (omega arith),
)

bit_or_comm : (a b : ℕ) → bit_or a b ≡ bit_or b a
bit_or_comm a b = comm_below (a + b) a b (omega arith) (omega arith)

-- `(high << 8) | low` on two bytes.
pub bit_or_byte_pair : (high low : ℕ) → low < 256 → bit_or (high * 256) low ≡ high * 256 + low
bit_or_byte_pair high low h = omega (arith, bit_or_comm (high * 256) low, bit_or-add 8 high low h)

-- Two passes of `^` by one mask cancel.
cancel_below : (n a k : ℕ) → a ≤ n → k ≤ n → bit_xor (bit_xor a k) k ≡ a
cancel_below zero zero zero p q = refl
cancel_below zero zero (suc k) p q = absurd (omega arith)
cancel_below zero (suc a) k p q = absurd (omega arith)
cancel_below (suc n) a k p q = omega (
  arith,
  bit_xor_step a k,
  bit_xor_step (bit_xor a k) k,
  ap (λ (t : ℕ). bit_xor t (k / 2)) halved,
  cancel_below n (a / 2) (k / 2) (omega arith) (omega arith),
)
  where
    halved : bit_xor a k / 2 ≡ bit_xor (a / 2) (k / 2)
    halved = omega (arith, bit_xor_step a k)

pub bit_xor_cancel : (a k : ℕ) → bit_xor (bit_xor a k) k ≡ a
bit_xor_cancel a k = cancel_below (a + k) a k (omega arith) (omega arith)

zero-bit_xor : (b : ℕ) → bit_xor 0 b ≡ b
zero-bit_xor b = bit_xor-bitwise 0 b

pub bit_xor-lt : (w a b : ℕ) → a < 2 ^ w → b < 2 ^ w → bit_xor a b < 2 ^ w
bit_xor-lt zero zero b p q = omega (arith, zero-bit_xor b)
bit_xor-lt zero (suc a) b p q = absurd (omega arith)
bit_xor-lt (suc w) a b p q = omega (
  arith,
  pow-suc 2 w,
  bit_xor_step a b,
  bit_xor-lt w (a / 2) (b / 2) (omega (arith, pow-suc 2 w)) (omega (arith, pow-suc 2 w)),
)
