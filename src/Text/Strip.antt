-- ===== src/Text/Strip.antt =====
-- Texts without white space: `strip` leaves them alone.
use ttlock_ble.Base.{◌≡◌, refl, ap, sym, subst, ◌∙◌, false, [], ◌∷◌, All, All-append}
use mathlib.Core.List.{reverse, reverse-cons, reverse-reverse}
use ttlock_ble.Text.{Text, is_space, strip_left, strip}

unfoldable pub IsSolid : Text → Type 0
IsSolid = All (λ c. is_space c ≡ false)

reverse-IsSolid : (t : Text) → IsSolid t → IsSolid (reverse t)
unfolding IsSolid
reverse-IsSolid [] h = tt
reverse-IsSolid (c ∷ cs) (p, h) =
    subst IsSolid (sym (reverse-cons c cs))
      (All-append (λ c. is_space c ≡ false) (reverse cs) (c ∷ []) (reverse-IsSolid cs h) (p, tt))

strip_left-IsSolid : (t : Text) → IsSolid t → strip_left t ≡ t
unfolding IsSolid strip_left
strip_left-IsSolid [] h = refl
strip_left-IsSolid (c ∷ cs) (p, h) = rw p refl

pub strip-IsSolid : (t : Text) → IsSolid t → strip t ≡ t
strip-IsSolid t h =
    ap (λ u. reverse (strip_left (reverse u))) (strip_left-IsSolid t h)
    ∙ ap reverse (strip_left-IsSolid (reverse t) (reverse-IsSolid t h))
    ∙ reverse-reverse t
