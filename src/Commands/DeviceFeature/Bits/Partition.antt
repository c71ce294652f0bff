-- ===== src/Commands/DeviceFeature/Bits/Partition.antt =====
-- The named and the unnamed bits of a lock's mask are its set bits, each in one of the two lists.
use ttlock_ble.Base.{
  ℕ, zero, suc, ◌+◌, ◌/◌, ◌%◌, ◌^◌, ◌≤◌, ◌<◌, ◌≡◌, refl, sym, subst, ap, ◌∙◌, arith, Bool, true,
  false, not, ◌&&◌, ◌||◌, Bool-cases, ==_iff, ltb, leb, inl, inr, List, [], ◌∷◌, ◌==◌,
  if◌then◌else◌,
}
use ttlock_ble.Commands.DeviceFeature.{DeviceFeatures, supports}
use ttlock_ble.Commands.DeviceFeature.Bits.{
  supported, known, has_bit, halvings, bit_length, unnamed_from, unnamed_bits, is_in,
}
use ttlock_ble.Models.LockFeature.{LockFeature, bit, members}
use native.Mathlib.Nat.{pow-succ', zero-div, div-div-eq-div-mul}

kept_or_not :
    (same at_m at_b kept given : Bool)
    → (same ≡ true → at_b ≡ at_m)
    → kept ≡ (at_b && given)
    → (at_m && same || kept) ≡ (at_b && (same || given))
kept_or_not same at_m at_b kept given e h = ground arith

-- Of a list of features, those in the mask are kept.
has_bit-supported :
    (f : DeviceFeatures) (b : ℕ) (ms : List LockFeature)
    → has_bit b (supported f ms) ≡ (supports f b && has_bit b ms)
unfolding has_bit supported
has_bit-supported f b [] = ground arith
has_bit-supported f b (m ∷ ms) =
    split (supports f (bit m))
    ∙ kept_or_not (b == bit m) (supports f (bit m)) (supports f b) _ _
        (λ e. ap (supports f) ((==_iff b (bit m)).0 e)) (has_bit-supported f b ms)
  where
    split :
        (at_m : Bool)
        → has_bit b (if at_m then m ∷ supported f ms else supported f ms)
          ≡ (at_m && b == bit m || has_bit b (supported f ms))
    split true = refl
    split false = refl

named_or_kept :
    (same at_c at_b named_c named_b later beyond within : Bool)
    → (same ≡ true → (at_b ≡ at_c) × (named_b ≡ named_c))
    → later ≡ (at_b && not named_b && beyond)
    → within ≡ (same || beyond)
    → (at_c && not named_c && same || later) ≡ (at_b && not named_b && within)
named_or_kept same at_c at_b named_c named_b later beyond within e h w = ground arith

range_step :
    (b start left : ℕ)
    → (leb start b && ltb b (start + suc left))
      ≡ (b == start || leb (start + 1) b && ltb b (start + 1 + left))
range_step b start left = ground arith

empty_range : (b start : ℕ) (c : Bool) → false ≡ (c && (leb start b && ltb b (start + 0)))
empty_range b start c = ground arith

-- Of a range of bits, those in the mask without a name are kept.
is_in-unnamed_from :
    (f : DeviceFeatures) (b start left : ℕ)
    → is_in b (unnamed_from f start left)
      ≡ (supports f b && not (has_bit b members) && (leb start b && ltb b (start + left)))
unfolding is_in unnamed_from
is_in-unnamed_from f b start zero = empty_range b start (supports f b && not (has_bit b members))
is_in-unnamed_from f b start (suc left) =
    split (supports f start && not (has_bit start members))
    ∙ named_or_kept (b == start) (supports f start) (supports f b) (has_bit start members)
        (has_bit b members) _ _ _
        (λ e. (
          ap (supports f) ((==_iff b start).0 e),
          ap (λ (t : ℕ). has_bit t members) ((==_iff b start).0 e),
        ))
        (is_in-unnamed_from f b (start + 1) left) (range_step b start left)
  where
    split :
        (kept : Bool)
        → is_in b (
            if kept
            then start ∷ unnamed_from f (start + 1) left
            else unnamed_from f (start + 1) left)
          ≡ (kept && b == start || is_in b (unnamed_from f (start + 1) left))
    split true = refl
    split false = refl

no_bit : (n b : ℕ) → n ≡ 0 → ¬ (n / 2 ^ b % 2 ≡ 1)
no_bit n b z e = absurd (omega (arith, zero-div (2 ^ b), subst (λ (t : ℕ). t / 2 ^ b % 2 ≡ 1) z e))

two_lists :
    (at_b named in_known in_unnamed below : Bool)
    → (at_b ≡ true → below ≡ true)
    → in_known ≡ (at_b && named)
    → in_unnamed ≡ (at_b && not named && below)
    → (at_b ≡ (in_known || in_unnamed)) × ((in_known && in_unnamed) ≡ false)
two_lists at_b named in_known in_unnamed below e h w = ground arith

half_bit : (n b : ℕ) → n / 2 / 2 ^ b % 2 ≡ n / 2 ^ suc b % 2
half_bit n b =
    ap (λ (t : ℕ). t % 2)
      (div-div-eq-div-mul n 2 (2 ^ b) ∙ ap (λ (t : ℕ). n / t) (sym (pow-succ' 2 b)))

-- A set bit lies below the length.
halvings-set : (fuel n b : ℕ) → n ≤ fuel → n / 2 ^ b % 2 ≡ 1 → b < halvings fuel n
unfolding halvings
halvings-set zero n b h e = absurd (no_bit n b (omega arith) e)
halvings-set (suc fuel) n zero h e = elim (Bool-cases (n == 0)) [
  | inl z ↦ absurd (no_bit n 0 ((==_iff n 0).0 z) e)
  | inr z ↦ rw (halvings, z) (omega arith)
]
halvings-set (suc fuel) n (suc b) h e = elim (Bool-cases (n == 0)) [
  | inl z ↦ absurd (no_bit n (suc b) ((==_iff n 0).0 z) e)
  | inr z ↦
      rw (halvings, z) (omega (arith, halvings-set fuel (n / 2) b (omega arith) (half_bit n b ∙ e)))
]

in_range : (b n : ℕ) → b < n → (leb 0 b && ltb b (0 + n)) ≡ true
in_range b n h = ground arith

below :
    (f : DeviceFeatures) (b : ℕ)
    → supports f b ≡ true
    → (leb 0 b && ltb b (0 + bit_length f.mask)) ≡ true
unfolding supports bit_length
below f b e =
    in_range b (halvings f.mask f.mask)
      (halvings-set f.mask f.mask b (omega arith) ((==_iff (f.mask / 2 ^ b % 2) 1).0 e))

-- A bit of the mask is set if and only if it is in one of the two lists, and it is never in both.
pub known-unnamed_bits :
    (f : DeviceFeatures) (b : ℕ)
    → (supports f b ≡ (has_bit b (known f) || is_in b (unnamed_bits f)))
      × ((has_bit b (known f) && is_in b (unnamed_bits f)) ≡ false)
unfolding known unnamed_bits
known-unnamed_bits f b =
    two_lists (supports f b) (has_bit b members) _ _ _ (below f b) (has_bit-supported f b members)
      (is_in-unnamed_from f b 0 (bit_length f.mask))
