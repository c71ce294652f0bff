-- ===== src/Examples/Scan.antt =====
-- Tests and an application for the scan that finds the device of a lock.
use ttlock_ble.Base.{◌≡◌, refl, arith, List, [], ◌∷◌, none, some, All}
use ttlock_ble.Outcome.{ok, raised, value_error}
use ttlock_ble.Text.{Text, codes}
use ttlock_ble.Transport.Finder.{Device, Detection, Poll, find_lock_device}
use ttlock_ble.Transport.Finder.First.{IsSearched, find_lock_device-IsSearched}
use ttlock_ble.Transport.Finder.Polls.{Dozes}

abbrev neighbour : Device
neighbour = record {
  handle = 1;
  address = codes "11:22:33:44:55:66";
  name = some (codes "S534_665544");
}

-- A device whose address the operating system hides.
abbrev lock_device : Device
lock_device = record { handle = 2; address = codes "0A1B-77"; name = some [] }

abbrev mac : Text
mac = codes "b5:30:02:bd:22:1d"

abbrev seen_neighbour : Detection
seen_neighbour = record { dev = neighbour; local_name = none }

abbrev seen_lock : Detection
seen_lock = record { dev = lock_device; local_name = some (codes "S534_1D22BD") }

abbrev starting : Poll
starting = record { detected = seen_neighbour ∷ []; asleep = 120 }

abbrev polls : List Poll
polls =
    record { detected = []; asleep = 500 }
    ∷ record { detected = seen_lock ∷ seen_neighbour ∷ []; asleep = 501 }
    ∷ record { detected = []; asleep = 500 }
    ∷ []

found_by_name : find_lock_device mac 1400 7000 starting polls [] ≡ ok (some (some lock_device))
unfolding find_lock_device
found_by_name = refl

-- Nothing but a neighbour is seen, and the time is over after two polls.
found_nothing :
    find_lock_device mac 900 7000 starting
      (record { detected = []; asleep = 500 } ∷ record { detected = []; asleep = 500 } ∷ [])
      []
    ≡ ok (some none)
unfolding find_lock_device
found_nothing = refl

refused_address :
    find_lock_device (codes "b5:30:0") 1400 7000 starting polls [] ≡ raised value_error
unfolding find_lock_device
refused_address = refl

-- An address without octets has the empty suffix, which every name contains.
nameless_neighbour : find_lock_device [] 1400 7000 starting polls [] ≡ ok (some (some neighbour))
unfolding find_lock_device
nameless_neighbour = refl

polls-Dozes : All Dozes polls
unfolding Dozes
polls-Dozes = omega arith

find_lock_device-IsSearched_example :
    IsSearched mac 1400 starting polls [] (find_lock_device mac 1400 7000 starting polls [])
find_lock_device-IsSearched_example =
    find_lock_device-IsSearched mac 1400 7000 starting polls [] polls-Dozes (omega arith)
