-- ===== src/Client/Events.antt =====
-- The push events of `TTLockClient`: its listeners and `_dispatch_event`.
pub mod Listeners
use ttlock_ble.Base.{ℕ, Bool, false, ◌||◌, List, [], ◌∷◌, ◌++◌, ◌==◌, if◌then◌else◌}
use ttlock_ble.Base.Bytes.{Bytes}
use ttlock_ble.Client.Core.{Client, opened}
use ttlock_ble.Frame.{Frame}
use ttlock_ble.Models.LockEvent.{LockEvent, from_payload}
use ttlock_ble.Outcome.{Result, ok, raised}

-- `listener in self._event_listeners`; a listener is named by a number.
unfoldable pub is_registered : ℕ → List ℕ → Bool
is_registered listener [] = false
is_registered listener (other ∷ listeners) = listener == other || is_registered listener listeners

unfoldable pub add_event_listener : ℕ → List ℕ → List ℕ
unfolding is_registered
add_event_listener listener listeners =
    if is_registered listener listeners then listeners else listeners ++ listener ∷ []

-- `list.remove` takes the first one out; a missing one is no error here.
unfoldable pub remove_event_listener : ℕ → List ℕ → List ℕ
remove_event_listener listener [] = []
remove_event_listener listener (other ∷ listeners) =
    if listener == other then listeners else other ∷ remove_event_listener listener listeners

-- A call of a listener, under the `try` of its own: what it raises is logged.
guarded : Result (Unit {0}) → Result (Unit {0})
guarded (ok _) = ok tt
guarded (raised e) = ok tt

-- The calls behind one of which this is the outcome: an exception ends the loop.
after_listener :
    ℕ × LockEvent
    → Result (Unit {0})
    → Result (Unit {0}) × List (ℕ × LockEvent)
    → Result (Unit {0}) × List (ℕ × LockEvent)
after_listener call (raised e) rest = (raised e, call ∷ [])
after_listener call (ok _) (r, calls) = (r, call ∷ calls)

module _ (react : ℕ → LockEvent → Result (Unit {0})) where
  -- The loop over the listeners; `react` says what each does with an event.
  deliver : LockEvent → List ℕ → Result (Unit {0}) × List (ℕ × LockEvent)
  unfolding guarded after_listener
  deliver event [] = (ok tt, [])
  deliver event (listener ∷ listeners) =
      after_listener (listener, event) (guarded (react listener event)) (deliver event listeners)

  deliver_opened : Result (ℕ × ℕ × Bytes) → List ℕ → Result (Unit {0}) × List (ℕ × LockEvent)
  unfolding deliver
  deliver_opened (ok (echo, status, content)) listeners =
      deliver (from_payload echo status content) listeners
  deliver_opened (raised e) listeners = (ok tt, [])

  -- `_dispatch_event`: what it raises, and the calls of listeners that it makes. Without a listener
  -- the frame is not opened.
  unfoldable pub dispatch_event : Client → List ℕ → Frame → Result (Unit {0}) × List (ℕ × LockEvent)
  unfolding opened deliver_opened
  dispatch_event c [] frame = (ok tt, [])
  dispatch_event c (listener ∷ listeners) frame =
      deliver_opened (opened c frame) (listener ∷ listeners)
