-- ===== src/Transport/Finder.antt =====
-- ttlock_ble/ble/device_finder.py: the scan for the device of a lock, over what the scanner of bleak
-- reports. Times are in milliseconds.
pub mod Matching
pub mod Polls
pub mod First
use ttlock_ble.Base.{
  ℕ, ◌+◌, ◌-◌, ◌*◌, Bool, true, false, ◌&&◌, ◌||◌, List, [], ◌∷◌, ◌++◌, Option, none, some, length,
  drop, ltb, leb, ◌==◌, if◌then◌else◌,
}
use mathlib.Core.List.{reverse}
use ttlock_ble.Base.Bytes.{Bytes, equal}
use ttlock_ble.Outcome.{Result, ok, raised, value_error}
use ttlock_ble.Text.{Text, upper, hex_octet}
use ttlock_ble.Text.Parsing.{hex_value}

-- A `BLEDevice`, by the handle of the operating system.
pub record Device : Type 0 where
  pub handle : ℕ
  pub address : Text
  pub name : Option Text

-- A call of `_on_detection`: the device, and the local name that it advertises.
pub record Detection : Type 0 where
  pub dev : Device
  pub local_name : Option Text

-- A sleep of the poll: what the scanner detects during it, and how long it takes.
pub record Poll : Type 0 where
  pub detected : List Detection
  pub asleep : ℕ

-- `text.lower()` on ASCII.
unfoldable pub lower : Text → Text
lower [] = []
lower (c ∷ cs) = (if leb b'A' c && leb c b'Z' then c + 32 else c) ∷ lower cs

-- `text.replace(":", "")`
unfoldable pub without_colons : Text → Text
without_colons [] = []
without_colons (c ∷ cs) = let rest = without_colons cs in if c == b':' then rest else c ∷ rest

is_blank : ℕ → Bool
is_blank c = leb 9 c && leb c 13 || c == 32

put_octet : ℕ → Result Bytes → Result Bytes
put_octet b (raised e) = raised e
put_octet b (ok bs) = ok (b ∷ bs)

-- `bytes.fromhex(text)`, with the first digit of the octet that is begun.
fromhex : Option ℕ → Text → Result Bytes
unfolding hex_value put_octet is_blank
fromhex none [] = ok []
fromhex (some high) [] = raised value_error
fromhex none (c ∷ cs) = elim (is_blank c) [
  | true ↦ fromhex none cs
  | false ↦ elim (hex_value c) [ none ↦ raised value_error | some d ↦ fromhex (some d) cs ]
]
fromhex (some high) (c ∷ cs) = elim (hex_value c) [
  | none ↦ raised value_error
  | some d ↦ put_octet (high * 16 + d) (fromhex none cs)
]

-- `octets.hex()`
hex_of : Bytes → Text
unfolding hex_octet
hex_of [] = []
hex_of (b ∷ bs) = hex_octet b ++ hex_of bs

-- `octets[-3:][::-1].hex()`
suffix_of : Bytes → Text
unfolding hex_of
suffix_of octets = hex_of (reverse (drop (length octets - 3) octets))

starts_with : Text → Text → Bool
starts_with [] t = true
starts_with (c ∷ cs) [] = false
starts_with (c ∷ cs) (d ∷ ds) = c == d && starts_with cs ds

-- `part in text`
unfoldable pub is_within : Text → Text → Bool
unfolding starts_with
is_within part [] = starts_with part []
is_within part (c ∷ cs) = starts_with part (c ∷ cs) || is_within part cs

-- `name or ...`
or_name : Option Text → Text → Text
or_name none t = t
or_name (some []) t = t
or_name (some (c ∷ cs)) t = c ∷ cs

-- `mac_match`
unfoldable pub is_match : Text → Text → Detection → Bool
unfolding equal upper is_within lower or_name
is_match target suffix d =
    let name = or_name d.dev.name (or_name d.local_name []) in
    equal (upper d.dev.address) target || is_within suffix (lower name)

-- `_on_detection`, on the devices in `match`.
unfoldable pub on_detection : Text → Text → List Device → Detection → List Device
unfolding is_match
on_detection target suffix [] d = if is_match target suffix d then d.dev ∷ [] else []
on_detection target suffix (dev ∷ found) d = dev ∷ found

unfoldable pub detect : Text → Text → List Device → List Detection → List Device
unfolding on_detection
detect target suffix found [] = found
detect target suffix found (d ∷ ds) = detect target suffix (on_detection target suffix found d) ds

-- `not match and loop.time() < deadline`
unfoldable pub scans_on : ℕ → ℕ → List Device → Bool
scans_on deadline now [] = ltb now deadline
scans_on deadline now (dev ∷ found) = false

-- The loop of the polls, with `none` while it has not come to its end.
unfoldable pub poll_rounds : Text → Text → ℕ → ℕ → List Device → List Poll → Option (List Device)
unfolding scans_on detect
poll_rounds target suffix deadline now found [] =
    if scans_on deadline now found then none else some found
poll_rounds target suffix deadline now found (p ∷ ps) =
    let later =
      poll_rounds target suffix deadline (now + p.asleep) (detect target suffix found p.detected)
        ps in
    if scans_on deadline now found then later else some found

-- `match[0] if match else None`
unfoldable pub first_of : List Device → Option Device
first_of [] = none
first_of (dev ∷ found) = some dev

-- The end of the scan; `leaving` is detected while the scanner stops.
unfoldable pub end_scan :
    Text → Text → List Detection → Option (List Device) → Option (Option Device)
unfolding detect first_of
end_scan target suffix leaving none = none
end_scan target suffix leaving (some found) = some (first_of (detect target suffix found leaving))

-- The scan for a target whose octets are known; `starting` is the start of the scanner.
unfoldable pub scan :
    Text → ℕ → ℕ → Poll → List Poll → List Detection → Bytes → Option (Option Device)
unfolding poll_rounds detect end_scan suffix_of
scan target scan_timeout now starting polls leaving octets =
    let suffix = suffix_of octets in
    end_scan target suffix leaving (
      poll_rounds target suffix (now + scan_timeout) (now + starting.asleep)
        (detect target suffix [] starting.detected) polls)

-- `find_lock_device`; the inner `none` is a scan that goes on after these polls, the innermost one
-- is `None`.
unfoldable pub find_lock_device :
    Text → ℕ → ℕ → Poll → List Poll → List Detection → Result (Option (Option Device))
unfolding scan fromhex without_colons upper
find_lock_device mac scan_timeout now starting polls leaving =
    elim (fromhex none (without_colons (upper mac))) [
      | raised e ↦ raised e
      | ok octets ↦ ok (scan (upper mac) scan_timeout now starting polls leaving octets)
    ]
