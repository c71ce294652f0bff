-- ===== src/Transport/Finder/First.antt =====
-- The scan for a lock comes to an end, with the first device that matches.
use ttlock_ble.Base.{
  ℕ, ◌+◌, ◌*◌, ◌/◌, ◌≤◌, ◌≡◌, refl, ap, arith, Bool, true, false, List, [], ◌∷◌, ◌++◌, Option, none,
  some, length, take, All,
}
use ttlock_ble.Base.Bytes.{Bytes}
use ttlock_ble.Outcome.{Result, ok, raised, Exn, value_error}
use ttlock_ble.Text.{Text, upper}
use ttlock_ble.Text.Parsing.{hex_value}
use ttlock_ble.Transport.Finder.{
  Device, Detection, Poll, detect, first_of, end_scan, suffix_of, scan, fromhex, without_colons,
  find_lock_device, put_octet, is_blank,
}
use ttlock_ble.Transport.Finder.Polls.{
  scan_poll_interval, Dozes, detected_in, Picks, detect-Picks, Ends, poll_rounds-Ends,
}

-- The result of a scan within this time that saw these detections: the device of the first one that
-- matches, or `None` when none of them does.
pub IsScanned :
    Text → ℕ → Poll → List Poll → List Detection → Bytes → Option (Option Device) → Type 0
IsScanned target scan_timeout starting polls leaving octets outcome =
    (k : ℕ) × (found : Option Device) × (outcome ≡ some found)
    × Picks target (suffix_of octets) (starting.detected ++ detected_in (take k polls) ++ leaving)
        found
    × (k ≤ (scan_timeout + 499) / scan_poll_interval)

end_scan-IsScanned :
    (target : Text) (scan_timeout now : ℕ) (starting : Poll) (polls : List Poll)
    (leaving : List Detection) (octets : Bytes) (outcome : Option (List Device))
    → Ends target
        (suffix_of octets)
        (now + scan_timeout)
        (now + starting.asleep)
        starting.detected
        polls
        outcome
    → IsScanned target scan_timeout starting polls leaving octets
        (end_scan target (suffix_of octets) leaving outcome)
unfolding Ends IsScanned end_scan
end_scan-IsScanned target scan_timeout now starting polls leaving octets outcome
      (k, found, ends, picks, bound) =
    (
      k,
      first_of (detect target (suffix_of octets) found leaving),
      ap (end_scan target (suffix_of octets) leaving) ends,
      detect-Picks target (suffix_of octets) leaving _ found picks,
      omega (arith, bound),
    )

scan-IsScanned :
    (target : Text) (scan_timeout now : ℕ) (starting : Poll) (polls : List Poll)
    (leaving : List Detection) (octets : Bytes)
    → All Dozes polls
    → scan_timeout ≤ scan_poll_interval * length polls
    → IsScanned target scan_timeout starting polls leaving octets
        (scan target scan_timeout now starting polls leaving octets)
unfolding scan Picks first_of
scan-IsScanned target scan_timeout now starting polls leaving octets h long =
    end_scan-IsScanned target scan_timeout now starting polls leaving octets _ (
      poll_rounds-Ends target (suffix_of octets) polls (now + scan_timeout) (now + starting.asleep)
        starting.detected (detect target (suffix_of octets) [] starting.detected) h (omega arith)
        (detect-Picks target (suffix_of octets) starting.detected [] [] tt))

-- What a search for an address gives: `ValueError` for an address that is not of octets, and else
-- what its scan gives.
pub IsSearched :
    Text → ℕ → Poll → List Poll → List Detection → Result (Option (Option Device)) → Type 0
IsSearched mac scan_timeout starting polls leaving (raised e) =
    (e ≡ value_error) × (fromhex none (without_colons (upper mac)) ≡ raised e)
IsSearched mac scan_timeout starting polls leaving (ok outcome) =
    (octets : Bytes) × (fromhex none (without_colons (upper mac)) ≡ ok octets)
    × IsScanned (upper mac) scan_timeout starting polls leaving octets outcome

put_octet-raises :
    (b : ℕ) (r : Result Bytes) (e : Exn)
    → (r ≡ raised e → e ≡ value_error)
    → put_octet b r ≡ raised e
    → e ≡ value_error
unfolding put_octet
put_octet-raises b (raised x) e h k = h k
put_octet-raises b (ok bs) e h k = cc k

fromhex-raises :
    (high : Option ℕ) (t : Text) (e : Exn) → fromhex high t ≡ raised e → e ≡ value_error
unfolding fromhex
fromhex-raises none [] e h = cc h
fromhex-raises (some high) [] e h = cc h
fromhex-raises none (c ∷ cs) e h =
    at (is_blank c) (hex_value c) (fromhex-raises none cs e) (λ d. fromhex-raises (some d) cs e) h
  where
    at :
        (b : Bool) (digit : Option ℕ)
        → (fromhex none cs ≡ raised e → e ≡ value_error)
        → ((d : ℕ) → fromhex (some d) cs ≡ raised e → e ≡ value_error)
        → elim b [
          | true ↦ fromhex none cs
          | false ↦ elim digit [ none ↦ raised value_error | some d ↦ fromhex (some d) cs ]
        ]
          ≡ raised e
        → e ≡ value_error
    at true digit blank later k = blank k
    at false none blank later k = cc k
    at false (some d) blank later k = later d k
fromhex-raises (some high) (c ∷ cs) e h = at (hex_value c) (fromhex-raises none cs e) h
  where
    at :
        (digit : Option ℕ)
        → (fromhex none cs ≡ raised e → e ≡ value_error)
        → elim digit [
          | none ↦ raised value_error
          | some d ↦ put_octet (high * 16 + d) (fromhex none cs)
        ]
          ≡ raised e
        → e ≡ value_error
    at none later k = cc k
    at (some d) later k = put_octet-raises (high * 16 + d) (fromhex none cs) e later k

-- With sleeps of half a second or more, the search ends after as many polls as its time has
-- intervals, with the first device detected that matches, or with none of those that were detected;
-- an address that is not of octets raises `ValueError`.
pub find_lock_device-IsSearched :
    (mac : Text) (scan_timeout now : ℕ) (starting : Poll) (polls : List Poll)
    (leaving : List Detection)
    → All Dozes polls
    → scan_timeout ≤ scan_poll_interval * length polls
    → IsSearched mac scan_timeout starting polls leaving
        (find_lock_device mac scan_timeout now starting polls leaving)
unfolding find_lock_device IsSearched
find_lock_device-IsSearched mac scan_timeout now starting polls leaving h long =
    searched (fromhex none (without_colons (upper mac))) refl
  where
    searched :
        (r : Result Bytes)
        → fromhex none (without_colons (upper mac)) ≡ r
        → IsSearched mac scan_timeout starting polls leaving (elim r [
          | raised e ↦ raised e
          | ok octets ↦ ok (scan (upper mac) scan_timeout now starting polls leaving octets)
        ])
    searched (raised e) d = (fromhex-raises none (without_colons (upper mac)) e d, d)
    searched (ok octets) d = (
      octets,
      d,
      scan-IsScanned (upper mac) scan_timeout now starting polls leaving octets h long,
    )
