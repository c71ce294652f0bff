-- ===== src/Text/Parsing/Split.antt =====
-- `text.split(sep)` undoes `sep.join(pieces)` when no piece contains the separator.
use ttlock_ble.Base.{
  ℕ, ◌≡◌, refl, ap, ◌∙◌, Bool, false, ◌||◌, List, [], ◌∷◌, ◌++◌, All, ◌==◌, arith,
}
use ttlock_ble.Text.{Text}
use ttlock_ble.Text.Parsing.{grow, split, contains}

-- `sep.join(pieces)`
unfoldable pub join : ℕ → List Text → Text
join sep [] = []
join sep (t ∷ []) = t
join sep (t ∷ u ∷ ts) = t ++ sep ∷ join sep (u ∷ ts)

neither : (a b : Bool) → (a || b) ≡ false → (a ≡ false) × (b ≡ false)
neither a b h = ground arith

split-piece : (sep : ℕ) (t : Text) → contains sep t ≡ false → split sep t ≡ t ∷ []
unfolding split contains grow
split-piece sep [] h = refl
split-piece sep (c ∷ t) h =
    let (other, rest) = neither (c == sep) (contains sep t) h in
    rw (other, split-piece sep t rest) refl

split-front :
    (sep : ℕ) (t rest : Text)
    → contains sep t ≡ false
    → split sep (t ++ sep ∷ rest) ≡ t ∷ split sep rest
unfolding split contains grow
split-front sep [] rest h = ground arith
split-front sep (c ∷ t) rest h =
    let (other, later) = neither (c == sep) (contains sep t) h in
    rw (other, split-front sep t rest later) refl

pub split-join :
    (sep : ℕ) (t : Text) (ts : List Text)
    → All (λ u. contains sep u ≡ false) (t ∷ ts)
    → split sep (join sep (t ∷ ts)) ≡ t ∷ ts
unfolding join
split-join sep t [] (h, _) = split-piece sep t h
split-join sep t (u ∷ ts) (h, hs) =
    split-front sep t (join sep (u ∷ ts)) h ∙ ap (λ us. t ∷ us) (split-join sep u ts hs)
