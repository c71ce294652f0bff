-- ===== src/Client/Lists/Listed.antt =====
-- The indexed lists against their specification: the answers of the queries 0, 1, ... in order.
use ttlock_ble.Base.{
  ◌↔◌, ℕ, zero, suc, ◌+◌, ◌<◌, ◌≡◌, refl, sym, subst, ap, ◌∙◌, arith, List, [], ◌∷◌, ◌++◌,
  append-nil, append_assoc, length, Option, none, some,
}
use ttlock_ble.Client.Act.{Act, Session, continue, pure}
use ttlock_ble.Client.Core.{Client, admin_handshake}
use ttlock_ble.Client.Lists.{
  indexed_rounds, query_card, query_fingerprint, get_cards, get_fingerprints,
}
use ttlock_ble.Commands.Card.{CardEntry}
use ttlock_ble.Commands.Fingerprint.{FingerprintEntry}
use ttlock_ble.Outcome.{Result, ok, raised}

-- The queries from this index on answer these entries, then the end of the list.
pub data Listed {A : Type 0} (query : ℕ → Act (Option A))
    : ℕ → Session → List A → Session → Type 0 where
  finished :
      {index : ℕ} {s s' : Session} → query index s ≡ (ok none, s') → Listed query index s [] s'
  another :
      {index : ℕ} {s s1 s' : Session} {entry : A} {entries : List A}
      → query index s ≡ (ok (some entry), s1)
      → Listed query (index + 1) s1 entries s'
      → Listed query index s (entry ∷ entries) s'

module _ {A : Type 0} (query : ℕ → Act (Option A)) where
  -- What the loop does with one answer.
  abbrev step_of : ℕ → ℕ → List A → Result (Option A) × Session → Result (List A) × Session
  step_of left index acc p =
      continue
        (λ answer. elim answer [
          | none ↦ pure acc
          | some entry ↦ indexed_rounds query left (index + 1) (acc ++ entry ∷ [])
        ])
        p

  -- Entries that continue the list, fewer than the rounds, and the answers they come from.
  pub IsListed : ℕ → ℕ → List A → Session → List A → Session → Type 0
  IsListed left index acc s all s' =
      (entries : List A) × (all ≡ acc ++ entries)
      × (length entries < left)
      × Listed query index s entries s'

  step_of-IsListed :
      (left index : ℕ) (acc all : List A) (s s' : Session) (p : Result (Option A) × Session)
      → ((entry : A) (s1 : Session)
          → indexed_rounds query left (index + 1) (acc ++ entry ∷ []) s1 ≡ (ok all, s')
          → IsListed left (index + 1) (acc ++ entry ∷ []) s1 all s')
      → query index s ≡ p
      → step_of left index acc p ≡ (ok all, s')
      → IsListed (suc left) index acc s all s'
  unfolding IsListed
  step_of-IsListed left index acc all s s' (raised x, s1) more q h = cc
  step_of-IsListed left index acc all s s' (ok none, s1) more q h =
      let e : all ≡ acc = cc in
      let same : s1 ≡ s' = cc in
      (
        [],
        e ∙ sym (append-nil acc),
        omega arith,
        finished (q ∙ ap (λ (x : Session). (ok none, x)) same),
      )
  step_of-IsListed left index acc all s s' (ok (some entry), s1) more q h =
      let (entries, whole, small, rest) = more entry s1 h in
      (entry ∷ entries, whole ∙ append_assoc acc (entry ∷ []) entries, omega arith, another q rest)

  -- A list that the loop returns continues the given entries with what the queries from the given
  -- index on answered, up to the end of the list, in fewer queries with an entry than rounds.
  pub indexed_rounds-IsListed :
      (left index : ℕ) (acc all : List A) (s s' : Session)
      → indexed_rounds query left index acc s ≡ (ok all, s')
      → IsListed left index acc s all s'
  unfolding indexed_rounds
  indexed_rounds-IsListed zero index acc all s s' e = cc
  indexed_rounds-IsListed (suc left) index acc all s s' e =
      step_of-IsListed left index acc all s s' (query index s)
        (λ entry s1. indexed_rounds-IsListed left (index + 1) (acc ++ entry ∷ []) all s1 s') refl e

  -- Conversely, the loop returns every list that the queries answer in fewer rounds than are left.
  pub Listed-indexed_rounds :
      (left index : ℕ) (acc entries : List A) (s s' : Session)
      → length entries < left
      → Listed query index s entries s'
      → indexed_rounds query left index acc s ≡ (ok (acc ++ entries), s')
  unfolding indexed_rounds
  Listed-indexed_rounds zero index acc entries s s' h l = absurd (omega arith)
  Listed-indexed_rounds (suc left) index acc _ s s' h (finished q) =
      ap (step_of left index acc) q ∙ ap (λ (l : List A). (ok l, s')) (sym (append-nil acc))
  Listed-indexed_rounds (suc left) index acc _ s s' h
        (another {s1 = s1} {entry = entry} {entries = entries} q l) =
      ap (step_of left index acc) q
      ∙ Listed-indexed_rounds left (index + 1) (acc ++ entry ∷ []) entries s1 s' (omega arith) l
      ∙ ap (λ (l : List A). (ok l, s')) (append_assoc acc (entry ∷ []) entries)

  indexed_rounds-Listed :
      (left index : ℕ) (acc all : List A) (s s' : Session)
      → (indexed_rounds query left index acc s ≡ (ok all, s')) ↔ IsListed left index acc s all s'
  unfolding IsListed
  indexed_rounds-Listed left index acc all s s' = (
    indexed_rounds-IsListed left index acc all s s',
    λ (entries, e, few, listed).
        Listed-indexed_rounds left index acc entries s s' few listed
        ∙ ap (λ (l : List A). (ok l, s')) (sym e),
  )

  -- After the admin handshake the queries from index 0 on answer this list, of fewer than 300
  -- entries.
  pub IsRead : Act (Unit {0}) → Session → List A → Session → Type 0
  IsRead handshake s all s' =
      (s1 : Session) × (handshake s ≡ (ok tt, s1)) × (length all < 300) × Listed query 0 s1 all s'

  read_list : Act (Unit {0}) → Act (List A)
  read_list handshake s = continue (λ _. indexed_rounds query 300 0 []) (handshake s)

  read_list-IsRead :
      (handshake : Act (Unit {0})) (all : List A) (s s' : Session)
      → (read_list handshake s ≡ (ok all, s')) ↔ IsRead handshake s all s'
  unfolding read_list IsRead IsListed
  read_list-IsRead handshake all s s' = (
    at (handshake s) refl,
    λ (s1, shaken, few, listed).
        ap (continue (λ _. indexed_rounds query 300 0 [])) shaken
        ∙ (indexed_rounds-Listed 300 0 [] all s1 s').1 (all, refl, few, listed),
  )
    where
      at :
          (p : Result (Unit {0}) × Session)
          → handshake s ≡ p
          → continue (λ _. indexed_rounds query 300 0 []) p ≡ (ok all, s')
          → (s1 : Session) × (handshake s ≡ (ok tt, s1))
            × (length all < 300)
            × Listed query 0 s1 all s'
      at (raised e, s1) q h = cc h
      at (ok _, s1) q h =
          let (entries, e, few, listed) = (indexed_rounds-Listed 300 0 [] all s1 s').0 h in
          (
            s1,
            q,
            subst (λ (l : List A). length l < 300) (sym e) few,
            subst (λ (l : List A). Listed query 0 s1 l s') (sym e) listed,
          )

-- `get_cards` returns a list if and only if, after the admin handshake, the card queries for the
-- indices 0, 1, ... answer its entries and then the end, with fewer than 300 entries; and so does
-- `get_fingerprints` with the fingerprint queries.
pub get_cards-Listed :
    (c : Client) (s s' : Session)
    → ((cards : List CardEntry)
        → (get_cards c s ≡ (ok cards, s')) ↔ IsRead (query_card c) (admin_handshake c) s cards s')
      × ((fingerprints : List FingerprintEntry)
          → (get_fingerprints c s ≡ (ok fingerprints, s'))
            ↔ IsRead (query_fingerprint c) (admin_handshake c) s fingerprints s')
unfolding get_cards get_fingerprints read_list
get_cards-Listed c s s' = (
  λ cards. read_list-IsRead (query_card c) (admin_handshake c) cards s s',
  λ fingerprints. read_list-IsRead (query_fingerprint c) (admin_handshake c) fingerprints s s',
)
