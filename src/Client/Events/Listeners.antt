-- ===== src/Client/Events/Listeners.antt =====
-- The listeners of a client: each is registered once and called once for an event.
use ttlock_ble.Base.{
  ℕ, ◌≡◌, refl, sym, ap, ◌∙◌, arith, true, false, Bool-cases, inl, inr, ◌⊎◌, ◌||◌, List, [], ◌∷◌,
  ◌++◌, map, ◌==◌, ==_iff,
}
use ttlock_ble.Base.Bytes.{Bytes}
use ttlock_ble.Client.Core.{Client, opened}
use ttlock_ble.Client.Events.{
  is_registered, add_event_listener, remove_event_listener, guarded, after_listener, deliver,
  deliver_opened, dispatch_event,
}
use ttlock_ble.Frame.{Frame}
use ttlock_ble.Models.LockEvent.{LockEvent, from_payload}
use ttlock_ble.Outcome.{Result, ok, raised, Exn}

-- No listener stands twice.
unfoldable pub AreDistinct : List ℕ → Type 0
AreDistinct [] = Unit
AreDistinct (l ∷ ls) = (is_registered l ls ≡ false) × AreDistinct ls

is_registered-append :
    (x y : ℕ) (ls : List ℕ) → is_registered x (ls ++ y ∷ []) ≡ (is_registered x ls || x == y)
unfolding is_registered
is_registered-append x y [] = ground arith
is_registered-append x y (l ∷ ls) = let h = is_registered-append x y ls in ground (arith, h)

append-AreDistinct :
    (y : ℕ) (ls : List ℕ) → is_registered y ls ≡ false → AreDistinct ls → AreDistinct (ls ++ y ∷ [])
unfolding AreDistinct is_registered
append-AreDistinct y [] h d = (refl, tt)
append-AreDistinct y (l ∷ ls) h (n, d) =
    let e = is_registered-append l y ls in
    (ground (arith, e), append-AreDistinct y ls (ground arith) d)

add_event_listener-AreDistinct :
    (y : ℕ) (ls : List ℕ) → AreDistinct ls → AreDistinct (add_event_listener y ls)
unfolding add_event_listener
add_event_listener-AreDistinct y ls d = elim (Bool-cases (is_registered y ls)) [
  | inl old ↦ rw old d
  | inr new ↦ rw new (append-AreDistinct y ls new d)
]

remove-append :
    (y : ℕ) (ls : List ℕ) → is_registered y ls ≡ false → remove_event_listener y (ls ++ y ∷ []) ≡ ls
unfolding is_registered remove_event_listener
remove-append y [] h = ground arith
remove-append y (l ∷ ls) h = let e = remove-append y ls in ground (arith, e)

-- Removing keeps the others and the order: no other name appears, and the rest stays distinct.
removed-unregistered :
    (x y : ℕ) (ls : List ℕ)
    → is_registered x ls ≡ false
    → is_registered x (remove_event_listener y ls) ≡ false
unfolding is_registered remove_event_listener
removed-unregistered x y [] h = refl
removed-unregistered x y (l ∷ ls) h = let e = removed-unregistered x y ls in ground (arith, e)

remove-AreDistinct :
    (y : ℕ) (ls : List ℕ)
    → AreDistinct ls
    → AreDistinct (remove_event_listener y ls)
      × (is_registered y (remove_event_listener y ls) ≡ false)
unfolding remove_event_listener AreDistinct is_registered
remove-AreDistinct y [] d = (tt, refl)
remove-AreDistinct y (l ∷ ls) (n, d) = elim (Bool-cases (y == l)) [
  | inl same ↦
      let e : l ≡ y = sym ((==_iff y l).0 same) in
      rw same (d, ap (λ (x : ℕ). is_registered x ls) (sym e) ∙ n)
  | inr other ↦
      let (rest, gone) = remove-AreDistinct y ls d in
      rw other ((removed-unregistered l y ls n, rest), ground arith)
]

-- On a list without doubles: adding leaves no doubles, removing leaves none and takes the listener
-- out, and removing a listener that was just added to a list without it gives the list back.
pub listeners-AreDistinct :
    (y : ℕ) (ls : List ℕ)
    → AreDistinct ls
    → AreDistinct (add_event_listener y ls)
      × AreDistinct (remove_event_listener y ls)
      × (is_registered y (remove_event_listener y ls) ≡ false)
      × ((is_registered y ls ≡ true) ⊎ (remove_event_listener y (add_event_listener y ls) ≡ ls))
unfolding add_event_listener
listeners-AreDistinct y ls d =
    let (rest, gone) = remove-AreDistinct y ls d in
    (
      add_event_listener-AreDistinct y ls d,
      rest,
      gone,
      elim (Bool-cases (is_registered y ls)) [
        | inl old ↦ inl old
        | inr new ↦ inr (rw new (remove-append y ls new))
      ],
    )

module _ (react : ℕ → LockEvent → Result (Unit {0})) where
  deliver-map :
      (event : LockEvent) (ls : List ℕ) → deliver react event ls ≡ (ok tt, map (λ l. (l, event)) ls)
  unfolding deliver guarded after_listener
  deliver-map event [] = refl
  deliver-map event (l ∷ ls) = by (react l event) (deliver-map event ls)
    where
      by :
          (r : Result (Unit {0}))
          → deliver react event ls ≡ (ok tt, map (λ l. (l, event)) ls)
          → after_listener (l, event) (guarded r) (deliver react event ls)
            ≡ (ok tt, map (λ l. (l, event)) (l ∷ ls))
      by (ok _) rest = ap (after_listener (l, event) (ok tt)) rest
      by (raised e) rest = ap (after_listener (l, event) (ok tt)) rest

  -- No exception of a listener escapes; the calls are these.
  pub IsDelivered : Client → List ℕ → Frame → Result (Unit {0}) × List (ℕ × LockEvent) → Type 0
  IsDelivered c ls frame (r, calls) =
      (r ≡ ok tt)
      × (((echo : ℕ) × (status : ℕ) × (content : Bytes) × (opened c frame
              ≡ ok (echo, status, content))
            × (calls ≡ map (λ l. (l, from_payload echo status content)) ls))
          ⊎ ((e : Exn) × (opened c frame ≡ raised e) × (calls ≡ [])))

  opened-IsDelivered :
      (c : Client) (ls : List ℕ) (frame : Frame) (r : Result (ℕ × ℕ × Bytes))
      → opened c frame ≡ r
      → IsDelivered c ls frame (deliver_opened react r ls)
  unfolding deliver_opened IsDelivered
  opened-IsDelivered c ls frame (ok (echo, status, content)) q =
      let e = deliver-map (from_payload echo status content) ls in
      (ap (λ p. p.0) e, inl (echo, status, content, q, ap (λ p. p.1) e))
  opened-IsDelivered c ls frame (raised x) q = (refl, inr (x, q, refl))

  unheard-IsDelivered :
      (c : Client) (frame : Frame) (r : Result (ℕ × ℕ × Bytes))
      → opened c frame ≡ r
      → IsDelivered c [] frame (ok tt, [])
  unfolding IsDelivered
  unheard-IsDelivered c frame (ok (echo, status, content)) q =
      (refl, inl (echo, status, content, q, refl))
  unheard-IsDelivered c frame (raised x) q = (refl, inr (x, q, refl))

  -- Whatever the listeners raise, a pushed frame whose envelope opens is handed to every one of them,
  -- in the order of registration, with the event that its envelope describes, and one that does not
  -- open to none; nothing escapes to the caller.
  pub dispatch_event-delivers :
      (c : Client) (ls : List ℕ) (frame : Frame)
      → IsDelivered c ls frame (dispatch_event react c ls frame)
  unfolding dispatch_event
  dispatch_event-delivers c [] frame = unheard-IsDelivered c frame (opened c frame) refl
  dispatch_event-delivers c (l ∷ ls) frame =
      opened-IsDelivered c (l ∷ ls) frame (opened c frame) refl
