-- ===== src/Transport/Finder/Polls.antt =====
-- The polls of a scan come to an end, with the first device that matches among what they saw.
use ttlock_ble.Base.{
  ℕ, suc, ◌+◌, ◌-◌, ◌*◌, ◌/◌, ◌≤◌, ◌≡◌, refl, sym, ap, subst, ◌∙◌, arith, inl, inr, true, false,
  Bool-cases, List, [], ◌∷◌, ◌++◌, append-nil, append_assoc, Option, none, some, length, take, All,
  All-append, ltb→lt, le→ltb,
}
use ttlock_ble.Text.{Text}
use ttlock_ble.Transport.Finder.{
  Device, Detection, Poll, is_match, on_detection, detect, scans_on, poll_rounds, first_of,
}
use ttlock_ble.Transport.Finder.Matching.{Matches, is_match-Matches, is_match-not_Matches}

abbrev pub scan_poll_interval : ℕ
scan_poll_interval = 500

-- Each sleep of the polls lasts its interval.
unfoldable pub Dozes : Poll → Type 0
Dozes p = scan_poll_interval ≤ p.asleep

-- What the scanner detects during some polls.
unfoldable pub detected_in : List Poll → List Detection
detected_in [] = []
detected_in (p ∷ ps) = p.detected ++ detected_in ps

module _ (target suffix : Text) where
  -- The device of the first detection that matches, or none of them does.
  unfoldable pub Picks : List Detection → Option Device → Type 0
  Picks seen none = All (λ d. ¬ Matches target suffix d) seen
  Picks seen (some dev) =
      (before after : List Detection) × (d : Detection) × (seen ≡ before ++ d ∷ after)
      × All (λ other. ¬ Matches target suffix other) before
      × Matches target suffix d
      × (d.dev ≡ dev)

  on_detection-Picks :
      (seen : List Detection) (found : List Device) (d : Detection)
      → Picks seen (first_of found)
      → Picks (seen ++ d ∷ []) (first_of (on_detection target suffix found d))
  unfolding Picks first_of on_detection
  on_detection-Picks seen [] d h = elim (Bool-cases (is_match target suffix d)) [
    | inl e ↦ rw e (seen, [], d, refl, h, is_match-Matches target suffix d e, refl)
    | inr e ↦ rw e (
        All-append (λ other. ¬ Matches target suffix other) seen (d ∷ []) h
          (is_match-not_Matches target suffix d e, tt))
  ]
  on_detection-Picks seen (dev ∷ found) d (before, after, x, split, others, named, same) = (
    before,
    after ++ d ∷ [],
    x,
    ap (λ l. l ++ d ∷ []) split ∙ append_assoc before (x ∷ after) (d ∷ []),
    others,
    named,
    same,
  )

  pub detect-Picks :
      (ds seen : List Detection) (found : List Device)
      → Picks seen (first_of found)
      → Picks (seen ++ ds) (first_of (detect target suffix found ds))
  unfolding detect
  detect-Picks [] seen found h = subst (λ l. Picks l (first_of found)) (sym (append-nil seen)) h
  detect-Picks (d ∷ ds) seen found h =
      subst (λ l. Picks l (first_of (detect target suffix found (d ∷ ds))))
        (append_assoc seen (d ∷ []) ds)
        (detect-Picks ds (seen ++ d ∷ []) (on_detection target suffix found d)
          (on_detection-Picks seen found d h))

  -- The loop ends within its time, with the first match among what it has seen.
  unfoldable pub Ends : ℕ → ℕ → List Detection → List Poll → Option (List Device) → Type 0
  Ends deadline now seen polls outcome =
      (k : ℕ) × (found : List Device) × (outcome ≡ some found)
      × Picks (seen ++ detected_in (take k polls)) (first_of found)
      × (k ≤ (deadline - now + 499) / scan_poll_interval)

  Ends-here :
      (deadline now : ℕ) (seen : List Detection) (polls : List Poll) (found : List Device)
      → Picks seen (first_of found)
      → Ends deadline now seen polls (some found)
  unfolding Ends detected_in
  Ends-here deadline now seen polls found h =
      (0, found, refl, subst (λ l. Picks l (first_of found)) (sym (append-nil seen)) h, omega arith)

  in_time :
      (deadline now : ℕ) (found : List Device)
      → scans_on deadline now found ≡ true
      → suc now ≤ deadline
  unfolding scans_on
  in_time deadline now [] h = ltb→lt now deadline h
  in_time deadline now (dev ∷ found) h = cc h

  out_of_time :
      (deadline now : ℕ) (found : List Device)
      → deadline ≤ now
      → scans_on deadline now found ≡ false
  unfolding scans_on
  out_of_time deadline now [] h = le→ltb now deadline h
  out_of_time deadline now (dev ∷ found) h = refl

  pub poll_rounds-Ends :
      (polls : List Poll) (deadline now : ℕ) (seen : List Detection) (found : List Device)
      → All Dozes polls
      → deadline ≤ now + scan_poll_interval * length polls
      → Picks seen (first_of found)
      → Ends deadline now seen polls (poll_rounds target suffix deadline now found polls)
  unfolding poll_rounds Dozes Ends detected_in
  poll_rounds-Ends [] deadline now seen found h long p =
      rw (out_of_time deadline now found (omega arith)) (Ends-here deadline now seen [] found p)
  poll_rounds-Ends (poll ∷ polls) deadline now seen found (s, h) long p =
      elim (Bool-cases (scans_on deadline now found)) [
        | inl e ↦
            let early = in_time deadline now found e in
            let (k, last, ends, picks, bound) =
              poll_rounds-Ends polls deadline (now + poll.asleep) (seen ++ poll.detected)
                (detect target suffix found poll.detected) h (omega arith)
                (detect-Picks poll.detected seen found p) in
            rw e (
              suc k,
              last,
              ends,
              subst (λ l. Picks l (first_of last))
                  (append_assoc seen poll.detected (detected_in (take k polls))) picks,
              omega (arith, early, bound, s),
            )
        | inr e ↦ rw e (Ends-here deadline now seen (poll ∷ polls) found p)
      ]
