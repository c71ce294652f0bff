-- ===== src/Examples/Store.antt =====
-- Tests and applications for key strings, passwords, the key cache and the runs of the command line.
use ttlock_ble.Base.{◌≡◌, ◌<◌, refl, arith, [], ◌∷◌, some, map, length}
use ttlock_ble.Base.Bytes.{Bytes}
use ttlock_ble.Cli.{stored, load_keys, find_key}
use ttlock_ble.Cli.Runs.{Run, Surroundings}
use ttlock_ble.Cli.Store.{load_keys-stored, IsFound, find_key-IsFound}
use ttlock_ble.Client.Lifecycle.{new_lifecycle}
use ttlock_ble.Crypto.{xor_all, decode_table_at}
use ttlock_ble.Crypto.Keys.{hex_key_to_bytes, decode_password}
use ttlock_ble.Crypto.Keys.Formats.{hex_key_to_bytes-forms}
use ttlock_ble.Crypto.Keys.Octets.{hexes}
use ttlock_ble.Crypto.Keys.Passwords.{cloud_field, decode_password-cloud_field}
use ttlock_ble.Examples.{session}
use ttlock_ble.Examples.Accounts.{key, plain_repr}
use ttlock_ble.Examples.Connection.{arrival, failing_teardown}
use ttlock_ble.KeepAlive.{ended}
use ttlock_ble.Outcome.{ok}
use ttlock_ble.Text.{codes, hex_octet, strip_left, decimal}
use ttlock_ble.Text.Base64.{b64encode}
use ttlock_ble.Text.Parsing.{contains, split, hex_int_of}
use ttlock_ble.Text.Parsing.Split.{join}

abbrev some_key : Bytes
some_key =
    0 ∷ 17 ∷ 34 ∷ 51 ∷ 68 ∷ 85 ∷ 102 ∷ 119 ∷ 136 ∷ 153 ∷ 170 ∷ 187 ∷ 204 ∷ 221 ∷ 238 ∷ 255 ∷ []

hex_key_to_bytes-forms_example :
    (hex_key_to_bytes (hexes some_key) ≡ ok some_key)
    × (hex_key_to_bytes (join b',' (map hex_octet some_key)) ≡ ok some_key)
    × (hex_key_to_bytes (join b'.' (map hex_octet some_key)) ≡ ok some_key)
hex_key_to_bytes-forms_example = hex_key_to_bytes-forms some_key refl (omega arith)

dotted_key :
    hex_key_to_bytes (codes " 0.11.22.33.44.55.66.77.88.99.aa.bb.CC.dd.ee.ff") ≡ ok some_key
unfolding hex_key_to_bytes strip_left contains split hex_int_of
dotted_key = refl

-- The password 1234.
abbrev password : Bytes
password = 49 ∷ 50 ∷ 51 ∷ 52 ∷ []

field_is_long : 10 < length (cloud_field password 7)
unfolding cloud_field b64encode decimal xor_all decode_table_at
field_is_long = omega arith

decode_password-cloud_field_example : decode_password (cloud_field password 7) ≡ ok password
decode_password-cloud_field_example =
    decode_password-cloud_field 49 (50 ∷ 51 ∷ 52 ∷ []) 7 (omega arith) (omega arith) field_is_long

load_keys-stored_example :
    load_keys plain_repr (some (stored (key ∷ []))) ≡ ok (map some (key ∷ []))
load_keys-stored_example = load_keys-stored plain_repr (key ∷ [])

find_key-IsFound_example :
    IsFound (codes "c0:ff:ee:22:1d:aa") (key ∷ []) (find_key (codes "c0:ff:ee:22:1d:aa") (key ∷ []))
find_key-IsFound_example = find_key-IsFound (codes "c0:ff:ee:22:1d:aa") (key ∷ [])

found_by_mac : find_key (codes "c0:ff:ee:22:1d:aa") (key ∷ []) ≡ ok key
unfolding find_key decimal
found_by_mac = refl

abbrev surroundings : Surroundings
surroundings = record { arriving = arrival; events = ended 0 ∷ []; leaving = failing_teardown }

abbrev before : Run
before = record { life = new_lifecycle (some 5) 25000; session = session }
