-- ===== src/Transport/Link/Released.antt =====
-- The clients of bleak that a link has established: the one that it holds, those that were released,
-- and those whose release raised.
use ttlock_ble.Base.{
  ℕ, ◌≡◌, refl, sym, ap, ◌∙◌, arith, not, ◌&&◌, Bool-cases, List, [], ◌∷◌, ◌++◌, append-nil, Option,
  none, some, ◌==◌, if◌then◌else◌, inl, inr,
}
use ttlock_ble.Outcome.{Result, ok, raised}
use ttlock_ble.Transport.Link.{
  Link, Call, established, notify_started, notify_stopped, released, release_raised, stop_at,
  disconnect_from, establish_client, ConnectTurn, DisconnectTurn, is_connected, stop_notify,
  release, disconnect, discover, subscribe, resolve, establish, after_resolve, after_release,
  connect,
}

unfoldable pub without : ℕ → List ℕ → List ℕ
without c [] = []
without c (x ∷ xs) = let rest = without c xs in if c == x then rest else x ∷ rest

unfoldable pub after_call : List ℕ → Call → List ℕ
unfolding without
after_call held (established c) = c ∷ held
after_call held (released c) = without c held
after_call held (release_raised c) = without c held
after_call held (notify_started c char) = held
after_call held (notify_stopped c char) = held

unfoldable pub after_calls : List ℕ → List Call → List ℕ
unfolding after_call
after_calls held [] = held
after_calls held (call ∷ calls) = after_calls (after_call held call) calls

-- The clients that were established and that nothing tried to release.
unfoldable pub untried : List Call → List ℕ
unfolding after_calls
untried calls = after_calls [] calls

unfoldable pub held_client : Option ℕ → List ℕ
held_client none = []
held_client (some c) = c ∷ []

-- The clients that nothing tried to release are the one that the link holds.
unfoldable pub IsTidy : Link → Type 0
IsTidy l = untried l.calls ≡ held_client l.client

after_calls-snoc :
    (held : List ℕ) (calls : List Call) (call : Call)
    → after_calls held (calls ++ call ∷ []) ≡ after_call (after_calls held calls) call
unfolding after_calls
after_calls-snoc held [] call = refl
after_calls-snoc held (x ∷ calls) call = after_calls-snoc (after_call held x) calls call

untried-snoc :
    (calls : List Call) (call : Call)
    → untried (calls ++ call ∷ []) ≡ after_call (untried calls) call
unfolding untried
untried-snoc calls call = after_calls-snoc [] calls call

without_self : (c : ℕ) → without c (c ∷ []) ≡ []
unfolding without
without_self c = ground arith

stop_notify-untried :
    (c : ℕ) (turn : DisconnectTurn) (l : Link)
    → untried (stop_notify c turn l).calls ≡ untried l.calls
unfolding stop_notify stop_at after_call
stop_notify-untried c turn l = at l.notify_char
  where
    at : (o : Option ℕ) → untried (stop_at o c turn l).calls ≡ untried l.calls
    at none = refl
    at (some char) = elim (Bool-cases (l.up && not turn.stop_fails)) [
      | inl e ↦ rw e (untried-snoc l.calls (notify_stopped c char))
      | inr e ↦ rw e refl
    ]

-- A link without a client, of which every client was released or had a release that raised.
pub IsFree : Link → Type 0
IsFree l = (untried l.calls ≡ []) × (l.client ≡ none)

-- The clients whose release raised.
unfoldable pub leaked : List Call → List ℕ
leaked [] = []
leaked (release_raised c ∷ calls) = c ∷ leaked calls
leaked (established c ∷ calls) = leaked calls
leaked (notify_started c char ∷ calls) = leaked calls
leaked (notify_stopped c char ∷ calls) = leaked calls
leaked (released c ∷ calls) = leaked calls

leaked-append : (calls later : List Call) → leaked (calls ++ later) ≡ leaked calls ++ leaked later
unfolding leaked
leaked-append [] later = refl
leaked-append (release_raised c ∷ calls) later = ap (λ l. c ∷ l) (leaked-append calls later)
leaked-append (established c ∷ calls) later = leaked-append calls later
leaked-append (notify_started c char ∷ calls) later = leaked-append calls later
leaked-append (notify_stopped c char ∷ calls) later = leaked-append calls later
leaked-append (released c ∷ calls) later = leaked-append calls later

stop_notify-leaked :
    (c : ℕ) (turn : DisconnectTurn) (l : Link)
    → leaked (stop_notify c turn l).calls ≡ leaked l.calls
unfolding stop_notify stop_at leaked
stop_notify-leaked c turn l = at l.notify_char
  where
    at : (o : Option ℕ) → leaked (stop_at o c turn l).calls ≡ leaked l.calls
    at none = refl
    at (some char) = elim (Bool-cases (l.up && not turn.stop_fails)) [
      | inl e ↦ rw e (leaked-append l.calls (notify_stopped c char ∷ []) ∙ append-nil _)
      | inr e ↦ rw e refl
    ]

-- What a disconnect leaves: no client to release, and the one that was held has leaked exactly when
-- its release raised.
unfoldable pub IsDisconnected : DisconnectTurn → Link → Link → Type 0
IsDisconnected turn before after =
    IsFree after
    × (leaked after.calls
        ≡ leaked before.calls ++ (if turn.release_fails then held_client before.client else []))

release-untried :
    (c : ℕ) (turn : DisconnectTurn) (l : Link)
    → untried l.calls ≡ c ∷ []
    → IsFree (release c turn l).1
unfolding release IsFree after_call
release-untried c turn l h = elim (Bool-cases turn.release_fails) [
  | inl e ↦ rw e (untried-snoc l.calls (release_raised c) ∙ ap (without c) h ∙ without_self c, refl)
  | inr e ↦ rw e (untried-snoc l.calls (released c) ∙ ap (without c) h ∙ without_self c, refl)
]

release-leaked :
    (c : ℕ) (turn : DisconnectTurn) (l : Link)
    → leaked (release c turn l).1.calls
      ≡ leaked l.calls ++ (if turn.release_fails then c ∷ [] else [])
unfolding release leaked
release-leaked c turn l = elim (Bool-cases turn.release_fails) [
  | inl e ↦ rw e (leaked-append l.calls (release_raised c ∷ []))
  | inr e ↦ rw e (leaked-append l.calls (released c ∷ []))
]

pub disconnect-IsDisconnected :
    (turn : DisconnectTurn) (l : Link) → IsTidy l → IsDisconnected turn l (disconnect turn l).1
unfolding disconnect IsTidy IsFree IsDisconnected held_client disconnect_from
disconnect-IsDisconnected turn l h = at l.client refl
  where
    at :
        (o : Option ℕ)
        → l.client ≡ o
        → IsFree (disconnect_from o turn l).1
          × (leaked (disconnect_from o turn l).1.calls
              ≡ leaked l.calls ++ (if turn.release_fails then held_client l.client else []))
    at none e = (
      (h ∙ ap held_client e, e),
      elim (Bool-cases turn.release_fails) [
        | inl f ↦ rw (f, e) (sym (append-nil _))
        | inr f ↦ rw f (sym (append-nil _))
      ],
    )
    at (some c) e = (
      release-untried c turn (stop_notify c turn l)
          (stop_notify-untried c turn l ∙ h ∙ ap held_client e),
      release-leaked c turn (stop_notify c turn l) ∙ rw (stop_notify-leaked c turn l, e) refl,
    )

pub IsFree-IsTidy : (l : Link) → IsFree l → IsTidy l
unfolding IsFree IsTidy held_client
IsFree-IsTidy l (h, e) = h ∙ ap held_client (sym e)

subscribe-IsTidy :
    (chars : Option (ℕ × ℕ)) (c : ℕ) (turn : ConnectTurn) (l : Link)
    → IsTidy l
    → IsTidy (subscribe chars c turn l).1
unfolding subscribe IsTidy after_call
subscribe-IsTidy none c turn l h = h
subscribe-IsTidy (some (w, n)) c turn l h = elim (Bool-cases turn.notify_fails) [
  | inl e ↦ rw e h
  | inr e ↦ rw e (untried-snoc l.calls (notify_started c n) ∙ h)
]

establish-IsTidy :
    (device : Option ℕ) (turn : ConnectTurn) (l : Link)
    → IsFree l
    → IsTidy (establish device turn l).1
unfolding establish establish_client IsFree IsTidy after_call held_client
establish-IsTidy none turn l h = IsFree-IsTidy l h
establish-IsTidy (some d) turn l h = at turn.established_client
  where
    at : (o : Option ℕ) → IsTidy (establish_client o turn l).1
    at none = IsFree-IsTidy l h
    at (some c) =
        subscribe-IsTidy (discover turn.services) c turn _
          (untried-snoc l.calls (established c) ∙ ap (λ held. c ∷ held) h.0)

resolve-IsFree :
    (device : Option ℕ) (turn : ConnectTurn) (l : Link)
    → IsFree l
    → IsFree (resolve device turn l).1
unfolding resolve IsFree
resolve-IsFree (some d) turn l h = h
resolve-IsFree none turn l h = at turn.searched
  where
    at :
        (r : Result (Option ℕ))
        → IsFree
            (elim r as (λ _. Result (Unit {0}) × Link) [
              | raised e ↦ (raised e, l)
              | ok found ↦ (ok tt, record l { device = found })
            ]).1
    at (raised e) = h
    at (ok found) = h

after_resolve-IsTidy :
    (turn : ConnectTurn) (p : Result (Unit {0}) × Link)
    → IsFree p.1
    → IsTidy (after_resolve turn p).1
unfolding after_resolve
after_resolve-IsTidy turn (raised e, l) h = IsFree-IsTidy l h
after_resolve-IsTidy turn (ok _, l) h = establish-IsTidy l.device turn l h

after_release-IsTidy :
    (turn : ConnectTurn) (p : Result (Unit {0}) × Link)
    → IsFree p.1
    → IsTidy (after_release turn p).1
unfolding after_release
after_release-IsTidy turn (raised e, l) h = IsFree-IsTidy l h
after_release-IsTidy turn (ok _, l) h =
    after_resolve-IsTidy turn (resolve l.device turn l) (resolve-IsFree l.device turn l h)

pub connect-IsTidy : (turn : ConnectTurn) (l : Link) → IsTidy l → IsTidy (connect turn l).1
unfolding connect IsDisconnected
connect-IsTidy turn l h = elim (Bool-cases (is_connected l)) [
  | inl e ↦ rw e h
  | inr e ↦ rw e (
      after_release-IsTidy turn (disconnect turn.disconnecting l)
        (disconnect-IsDisconnected turn.disconnecting l h).0)
]
