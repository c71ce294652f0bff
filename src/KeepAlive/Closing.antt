-- ===== src/KeepAlive/Closing.antt =====
-- A keep-alive window comes to its end, after a bounded number of pokes.
use ttlock_ble.Base.{
  ℕ, ◌+◌, ◌-◌, ◌*◌, ◌/◌, ◌≤◌, ◌≡◌, refl, arith, Bool, true, false, List, [], ◌∷◌, length, All, ltb,
  ltb→lt, le→ltb, ◌&&◌,
}
use ttlock_ble.KeepAlive.{
  Beat, Window, open_window, closed_window, broken_window, after_poke, one_round, run_rounds, run,
  keep_alive_interval,
}
use ttlock_ble.Outcome.{Result, ok, raised}

-- The window is over, with at most so many pokes.
unfoldable pub IsOver : ℕ → Window → Type 0
IsOver most (open_window n) = ⊥
IsOver most (closed_window n) = n ≤ most
IsOver most (broken_window e n) = n ≤ most

-- The sleep of a round lasts its interval.
unfoldable pub Sleeps : Beat → Type 0
Sleeps b = keep_alive_interval ≤ b.asleep

after_poke-IsOver :
    (most pokes : ℕ) (more : Unit {0} → Window) (r : Result (Unit {0}))
    → pokes ≤ most
    → IsOver most (more tt)
    → IsOver most (after_poke more pokes r)
unfolding after_poke IsOver
after_poke-IsOver most pokes more (ok _) h m = m
after_poke-IsOver most pokes more (raised e) h m = ground (arith, h)

one_round-IsOver :
    (most pokes : ℕ) (goes_on still_connected : Bool) (more : Unit {0} → Window)
    (r : Result (Unit {0}))
    → pokes ≤ most
    → (goes_on ≡ true → (pokes + 1 ≤ most) × IsOver most (more tt))
    → IsOver most (one_round goes_on still_connected pokes more r)
unfolding one_round IsOver
one_round-IsOver most pokes false still_connected more r p h = p
one_round-IsOver most pokes true false more r p h = p
one_round-IsOver most pokes true true more r p h =
    after_poke-IsOver most (pokes + 1) more r (h refl).0 (h refl).1

left_operand : (a b : Bool) → (a && b) ≡ true → a ≡ true
left_operand a b h = ground arith

run_rounds-IsOver :
    (deadline now pokes most : ℕ) (beats : List Beat)
    → All Sleeps beats
    → deadline ≤ now + 2000 * length beats
    → pokes + (deadline - now + 1999) / 2000 ≤ most
    → IsOver most (run_rounds deadline now pokes beats)
unfolding run_rounds IsOver Sleeps
run_rounds-IsOver deadline now pokes most [] h long p =
    rw (le→ltb now deadline (omega arith)) (omega arith)
run_rounds-IsOver deadline now pokes most (b ∷ bs) (s, h) long p =
    one_round-IsOver most pokes (ltb now deadline && b.connected) b.still_connected _ b.poke
      (omega arith)
      (λ e.
        let open_still = ltb→lt now deadline (left_operand _ _ e) in
        (
          omega (arith, open_still),
          run_rounds-IsOver deadline (now + b.asleep + b.poking) (pokes + 1) most bs h (omega arith)
              (omega (arith, open_still)),
        ))

-- With sleeps of two seconds or more, a window is over after as many rounds as it has intervals,
-- however long the pokes take and whatever they raise, and it poked the lock no more often than
-- that.
pub run-IsOver :
    (window now : ℕ) (beats : List Beat)
    → All Sleeps beats
    → window ≤ keep_alive_interval * length beats
    → IsOver ((window + 1999) / keep_alive_interval) (run window now beats)
unfolding run
run-IsOver window now beats h long =
    run_rounds-IsOver (now + window) now 0 ((window + 1999) / 2000) beats h (omega arith)
      (omega arith)
