-- ===== src/Cloud/Signing.antt =====
-- The signature of a request does not depend on the order in which its parameters were given.
use mathlib.Core.List.{Permᴰ}
use ttlock_ble.Base.{
  ◌≡◌, refl, sym, ap, ◌∙◌, arith, inl, inr, true, false, Bool-cases, ◌||◌, [], ◌∷◌, ◌++◌,
}
use ttlock_ble.Base.Bytes.{equal_iff}
use ttlock_ble.Cloud.{
  Packages, Params, text_le, item_le, insert, sorted, sign_request, query_string,
}
use ttlock_ble.Text.{Text}
use ttlock_ble.Text.Base64.{b64encode}

text_le_total : (s t : Text) → (text_le s t || text_le t s) ≡ true
unfolding text_le
text_le_total [] t = refl
text_le_total (a ∷ s) [] = refl
text_le_total (a ∷ s) (b ∷ t) = ground (arith, text_le_total s t)

text_le_antisym : (s t : Text) → text_le s t ≡ true → text_le t s ≡ true → s ≡ t
unfolding text_le
text_le_antisym [] [] h k = refl
text_le_antisym [] (b ∷ t) h k = cc k
text_le_antisym (a ∷ s) [] h k = cc h
text_le_antisym (a ∷ s) (b ∷ t) h k = ground (arith, text_le_antisym s t, h, k)

text_le_trans : (s t u : Text) → text_le s t ≡ true → text_le t u ≡ true → text_le s u ≡ true
unfolding text_le
text_le_trans [] t u h k = refl
text_le_trans (a ∷ s) [] u h k = cc h
text_le_trans (a ∷ s) (b ∷ t) [] h k = cc k
text_le_trans (a ∷ s) (b ∷ t) (c ∷ u) h k = ground (arith, text_le_trans s t u, h, k)

abbrev Item : Type 0
Item = Text × Text

item_le_total : (x y : Item) → (item_le x y || item_le y x) ≡ true
unfolding item_le
item_le_total (k, v) (l, w) =
    ground (arith, text_le_total k l, text_le_total v w, equal_iff k l, equal_iff l k)

item_le_antisym : (x y : Item) → item_le x y ≡ true → item_le y x ≡ true → x ≡ y
unfolding item_le
item_le_antisym (k, v) (l, w) h h' =
    ground (arith, text_le_antisym k l, text_le_antisym v w, equal_iff k l, equal_iff l k, h, h')

item_le_trans : (x y z : Item) → item_le x y ≡ true → item_le y z ≡ true → item_le x z ≡ true
unfolding item_le
item_le_trans (k, v) (l, w) (m, u) h h' = ground (
  arith,
  text_le_trans k l m,
  text_le_trans v w u,
  text_le_antisym k l,
  text_le_antisym l m,
  equal_iff k l,
  equal_iff l m,
  equal_iff k m,
  h,
  h',
)

insert-before : (x y : Item) (l : Params) → item_le x y ≡ true → insert x (y ∷ l) ≡ x ∷ y ∷ l
unfolding insert
insert-before x y l h = rw h refl

insert-behind : (x y : Item) (l : Params) → item_le x y ≡ false → insert x (y ∷ l) ≡ y ∷ insert x l
unfolding insert
insert-behind x y l h = rw h refl

-- Two items in front of a list that they precede.
insert-both :
    (x y : Item) (l : Params)
    → insert x l ≡ x ∷ l
    → insert y l ≡ y ∷ l
    → insert x (insert y l) ≡ insert y (insert x l)
insert-both x y l hx hy = ap (insert x) hy ∙ ordered ∙ sym (ap (insert y) hx)
  where
    ordered : insert x (y ∷ l) ≡ insert y (x ∷ l)
    ordered = elim (Bool-cases (item_le x y)) [
      | inl e ↦ elim (Bool-cases (item_le y x)) [
        | inl f ↦
            ap (λ z. insert z (y ∷ l)) (item_le_antisym x y e f)
            ∙ ap (λ z. insert y (z ∷ l)) (sym (item_le_antisym x y e f))
        | inr f ↦ insert-before x y l e ∙ sym (insert-behind y x l f ∙ ap (λ m. x ∷ m) hy)
      ]
      | inr e ↦ elim (Bool-cases (item_le y x)) [
        | inl f ↦ insert-behind x y l e ∙ ap (λ m. y ∷ m) hx ∙ sym (insert-before y x l f)
        | inr f ↦ cc (sym (ap (λ b. b || item_le y x) e ∙ f), item_le_total x y)
      ]
    ]

not_before : (x y z : Item) → item_le x z ≡ true → item_le y z ≡ false → item_le y x ≡ false
not_before x y z e f = elim (Bool-cases (item_le y x)) [
  | inl h ↦ cc (item_le_trans y x z h e, f)
  | inr h ↦ h
]

-- Two items of which one stands before the head of the list, and the other behind it.
insert-apart :
    (x y z : Item) (l : Params)
    → item_le x z ≡ true
    → item_le y z ≡ false
    → insert x (insert y (z ∷ l)) ≡ insert y (insert x (z ∷ l))
insert-apart x y z l e f =
    ap (insert x) (insert-behind y z l f)
    ∙ insert-before x z (insert y l) e
    ∙ sym (ap (λ m. x ∷ m) (insert-behind y z l f))
    ∙ sym (insert-behind y x (z ∷ l) (not_before x y z e f))
    ∙ sym (ap (insert y) (insert-before x z l e))

insert-insert : (x y : Item) (l : Params) → insert x (insert y l) ≡ insert y (insert x l)
unfolding insert
insert-insert x y [] = insert-both x y [] refl refl
insert-insert x y (z ∷ l) = elim (Bool-cases (item_le x z)) [
  | inl e ↦ elim (Bool-cases (item_le y z)) [
    | inl f ↦ insert-both x y (z ∷ l) (insert-before x z l e) (insert-before y z l f)
    | inr f ↦ insert-apart x y z l e f
  ]
  | inr e ↦ elim (Bool-cases (item_le y z)) [
    | inl f ↦ sym (insert-apart y x z l f e)
    | inr f ↦
        ap (insert x) (insert-behind y z l f)
        ∙ insert-behind x z (insert y l) e
        ∙ ap (λ m. z ∷ m) (insert-insert x y l)
        ∙ sym (insert-behind y z (insert x l) f)
        ∙ sym (ap (insert y) (insert-behind x z l e))
  ]
]

-- The same items in any order are sorted alike.
sorted-Permᴰ : {l m : Params} → Permᴰ l m → sorted l ≡ sorted m
unfolding sorted
sorted-Permᴰ Permᴰ.nil = refl
sorted-Permᴰ (Permᴰ.cons {b = b} {l₁ = l} e p) =
    ap (λ x. insert x (sorted l)) e ∙ ap (insert b) (sorted-Permᴰ p)
sorted-Permᴰ (Permᴰ.swap {a} {b} {a'} {b'} {l} e f) =
    insert-insert a b (sorted l)
    ∙ ap (λ x. insert x (insert a (sorted l))) f
    ∙ ap (λ x. insert a' (insert x (sorted l))) e
sorted-Permᴰ (Permᴰ.trans p q) = sorted-Permᴰ p ∙ sorted-Permᴰ q

-- The signature depends on the parameters, and not on their order.
pub sign_request-reordered :
    (p : Packages) (app_id app_secret path : Text) {params params' : Params}
    → Permᴰ params params'
    → sign_request p app_id app_secret path params ≡ sign_request p app_id app_secret path params'
unfolding sign_request
sign_request-reordered p app_id app_secret path perm =
    ap (λ items. b64encode (p.hmac_sha256 app_secret (path ++ b'?' ∷ query_string items ++ app_id)))
      (sorted-Permᴰ perm)
