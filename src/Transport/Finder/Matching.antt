-- ===== src/Transport/Finder/Matching.antt =====
-- What it means for a detection to match a lock.
use ttlock_ble.Base.{
  ◌≡◌, refl, sym, ap, ◌∙◌, arith, ◌⊎◌, inl, inr, true, false, Bool-cases, [], ◌∷◌, ◌++◌,
}
use ttlock_ble.Base.Bytes.{equal, equal_iff}
use ttlock_ble.Text.{Text, upper}
use ttlock_ble.Transport.Finder.{Detection, is_match, is_within, starts_with, lower, or_name}

-- The device's name, or else the local name, or else the empty text.
abbrev name_seen : Detection → Text
name_seen d = or_name d.dev.name (or_name d.local_name [])

-- The text contains the part.
pub Contains : Text → Text → Type 0
Contains part t = (front back : Text) × (t ≡ front ++ (part ++ back))

-- The address is the target in capitals, or the name in small letters contains the suffix.
pub Matches : Text → Text → Detection → Type 0
Matches target suffix d = (upper d.dev.address ≡ target) ⊎ Contains suffix (lower (name_seen d))

starts_with-back : (part t : Text) → starts_with part t ≡ true → (back : Text) × (t ≡ part ++ back)
unfolding starts_with
starts_with-back [] t h = (t, refl)
starts_with-back (c ∷ cs) [] h = cc h
starts_with-back (c ∷ cs) (d ∷ ds) h =
    let (back, e) = starts_with-back cs ds (ground (arith, h)) in
    let same : c ≡ d = ground (arith, h) in
    (back, ap (λ l. d ∷ l) e ∙ ap (λ x. x ∷ (cs ++ back)) (sym same))

starts_with-append : (part back : Text) → starts_with part (part ++ back) ≡ true
unfolding starts_with
starts_with-append [] back = refl
starts_with-append (c ∷ cs) back = let h = starts_with-append cs back in ground (arith, h)

within-Contains : (part t : Text) → is_within part t ≡ true → Contains part t
unfolding is_within Contains
within-Contains part [] h = let (back, e) = starts_with-back part [] h in ([], back, e)
within-Contains part (c ∷ cs) h = elim (Bool-cases (starts_with part (c ∷ cs))) [
  | inl e ↦ let (back, split) = starts_with-back part (c ∷ cs) e in ([], back, split)
  | inr e ↦
      let (front, back, split) = within-Contains part cs (ground (arith, e, h)) in
      (c ∷ front, back, ap (λ l. c ∷ l) split)
]

append-is_within : (part front back : Text) → is_within part (front ++ (part ++ back)) ≡ true
unfolding is_within
append-is_within part [] back = at (part ++ back) (starts_with-append part back)
  where
    at : (t : Text) → starts_with part t ≡ true → is_within part t ≡ true
    at [] h = h
    at (c ∷ cs) h = ground (arith, h)
append-is_within part (c ∷ front) back =
    let h = append-is_within part front back in ground (arith, h)

pub is_match-Matches :
    (target suffix : Text) (d : Detection)
    → is_match target suffix d ≡ true
    → Matches target suffix d
unfolding is_match Matches
is_match-Matches target suffix d h = elim (Bool-cases (equal (upper d.dev.address) target)) [
  | inl e ↦ inl ((equal_iff (upper d.dev.address) target).0 e)
  | inr e ↦ inr (within-Contains suffix (lower (name_seen d)) (ground (arith, e, h)))
]

pub is_match-not_Matches :
    (target suffix : Text) (d : Detection)
    → is_match target suffix d ≡ false
    → ¬ Matches target suffix d
unfolding is_match Matches Contains
is_match-not_Matches target suffix d h (inl e) =
    let same = (equal_iff (upper d.dev.address) target).1 e in ground (arith, same, h)
is_match-not_Matches target suffix d h (inr (front, back, e)) =
    let inside : is_within suffix (lower (name_seen d)) ≡ true =
      ap (is_within suffix) e ∙ append-is_within suffix front back in
    ground (arith, inside, h)
