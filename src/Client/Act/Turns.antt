-- ===== src/Client/Act/Turns.antt =====
-- Every exchange that gets a reply has used up a turn of the environment.
use ttlock_ble.Base.{ℕ, suc, ◌<◌, ◌≡◌, refl, sym, subst, arith, ◌+◌, Bool, List, [], ◌∷◌, length}
use ttlock_ble.Base.Bytes.{Bytes}
use ttlock_ble.Client.Act.{Session, continue, lift, transport_exchange}
use ttlock_ble.Client.Core.{
  Client, answers, frame_of, decrypt_response, exchange_command, round_trip,
}
use ttlock_ble.Frame.{Frame}
use ttlock_ble.Outcome.{Result, ok, raised, Exn, tt_lock_error}
use ttlock_ble.Transport.{BleTransport, Turn, exchange, after_send, send, await_reply}

-- An act that returns leaves fewer turns than there were.
unfoldable pub Spends : {A : Type 0} → ℕ → Result A × Session → Type 0
Spends n (ok a, s) = length s.turns < n
Spends n (raised e, s) = Unit

module _ (is_response : Frame → ℕ → Bool) where
  after_send-silent :
      (command : ℕ) (p : Result (Unit {0}) × BleTransport)
      → (e : Exn) × ((after_send is_response command [] p).0 ≡ raised e)
  unfolding after_send await_reply
  after_send-silent command (ok _, t) = (tt_lock_error, refl)
  after_send-silent command (raised e, t) = (e, refl)

  spent :
      (t : BleTransport) (turns : List Turn) (r : Result Frame)
      → Spends (suc (length turns)) (r, record { transport = t; turns = turns })
  unfolding Spends
  spent t turns (ok f) = omega arith
  spent t turns (raised e) = tt

  not_spent : (s : Session) (r : Result Frame) (e : Exn) → r ≡ raised e → Spends 0 (r, s)
  unfolding Spends
  not_spent s r e h = subst (λ x. Spends 0 (x, s)) (sym h) tt

  exchange-Spends :
      (t : BleTransport) (turns : List Turn) (f : Frame)
      → Spends
          (length turns)
          (transport_exchange is_response f (record { transport = t; turns = turns }))
  unfolding transport_exchange exchange
  exchange-Spends t [] f =
      let (e, h) =
        after_send-silent f.command
          (send (record t { waiting_for_response = t.waiting_for_response + 1 }) [] f) in
      not_spent _ _ e h
  exchange-Spends t (turn ∷ turns) f = spent _ turns _

pub Spends-then :
    {A B : Type 0} (n : ℕ) (p : Result A × Session) (f : A → Result B)
    → Spends n p
    → Spends n (continue (λ a. lift (f a)) p)
unfolding Spends
Spends-then n (raised e, s) f h = tt
Spends-then {B = B} n (ok a, s) f h = go (f a)
  where
    go : (r : Result B) → Spends n (r, s)
    go (ok b) = h
    go (raised e) = tt

pub round_trip-Spends :
    (c : Client) (command : ℕ) (payload : Bytes) (s : Session)
    → Spends (length s.turns) (round_trip c command payload s)
unfolding round_trip exchange_command Spends
round_trip-Spends c command payload s =
    Spends-then (length s.turns) (exchange_command c command payload s) (decrypt_response c)
      (framed (frame_of c command payload))
  where
    framed :
        (r : Result Frame)
        → Spends (length s.turns) (continue (transport_exchange (answers c)) (r, s))
    framed (raised e) = tt
    framed (ok f) = exchange-Spends (answers c) s.transport s.turns f
