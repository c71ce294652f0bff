-- ===== src/Client/Act.antt =====
-- A method of the client: it may raise, and it changes the link. What happened before a raise
-- stays, so the session comes back beside the exception.
pub mod Turns
use ttlock_ble.Base.{List, [], ◌∷◌}
use ttlock_ble.Frame.{Frame}
use ttlock_ble.Outcome.{Result, ok, raised, Exn}
use ttlock_ble.Transport.{BleTransport, Turn, silent, exchange}
use ttlock_ble.Base.{ℕ, Bool}

-- The link, and what the environment does in each exchange to come. After those, nothing is heard.
pub record Session : Type 0 where
  pub transport : BleTransport
  pub turns : List Turn

abbrev pub Act : Type 0 → Type 0
Act A = Session → Result A × Session

abbrev pub continue : {A B : Type 0} → (A → Act B) → Result A × Session → Result B × Session
continue f (ok a, s) = f a s
continue f (raised e, s) = (raised e, s)

infixl 5 ◌>>=◌ ◌>>◌
abbrev pub ◌>>=◌ : {A B : Type 0} → Act A → (A → Act B) → Act B
◌>>=◌ m f s = continue f (m s)

abbrev pub ◌>>◌ : {B : Type 0} → Act (Unit {0}) → Act B → Act B
m >> k = m >>= λ _. k

abbrev pub pure : {A : Type 0} → A → Act A
pure a s = (ok a, s)

abbrev pub raise : {A : Type 0} → Exn → Act A
raise e s = (raised e, s)

abbrev pub lift : {A : Type 0} → Result A → Act A
lift r s = (r, s)

-- `except ... as error: raise ...`, for exceptions that a handler maps.
abbrev pub fold {ℓ} : {A : Type ℓ} → (Exn → Exn) → Result A → Result A
fold h (ok a) = ok a
fold h (raised e) = raised (h e)

pub next_turn : List Turn → Turn
next_turn [] = silent
next_turn (turn ∷ turns) = turn

later_turns : List Turn → List Turn
later_turns [] = []
later_turns (turn ∷ turns) = turns

-- `self._transport.exchange(frame)` with the default timeout.
unfoldable pub transport_exchange : (Frame → ℕ → Bool) → Frame → Act Frame
unfolding next_turn later_turns
transport_exchange is_response frame s =
    let (r, t) = exchange is_response s.transport (next_turn s.turns) frame in
    (r, record { transport = t; turns = later_turns s.turns })
