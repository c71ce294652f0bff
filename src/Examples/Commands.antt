-- ===== src/Examples/Commands.antt =====
-- Tests and applications for the client's commands and their payloads.
use ttlock_ble.Base.{
  ℕ, ◌≡◌, ◌⊎◌, refl, arith, Bool, true, false, ◌↔◌, ◌%◌, List, [], ◌∷◌, Option, none, some, ◌==◌,
  if◌then◌else◌,
}
use ttlock_ble.Base.Bytes.{Bytes, equal, from_bytes}
use ttlock_ble.Client.Act.{Session, transport_exchange}
use ttlock_ble.Client.Contract.{Keeps, unlock-Keeps}
use ttlock_ble.Client.Contract.Gate.{AllRefuse, gated-Refuse, gated-Keep}
use ttlock_ble.Client.Control.{unlock, lock}
use ttlock_ble.Client.Core.{
  Client, admin_handshake, round_trip, frame_of, answers, decrypt_response,
}
use ttlock_ble.Client.Events.{
  is_registered, add_event_listener, remove_event_listener, dispatch_event,
}
use ttlock_ble.Client.Events.Listeners.{
  IsDelivered, AreDistinct, listeners-AreDistinct, dispatch_event-delivers,
}
use ttlock_ble.Client.Lists.{
  query_passcode, passcode_rounds, get_cards, get_fingerprints, query_card, query_fingerprint,
}
use ttlock_ble.Commands.Card.{CardEntry}
use ttlock_ble.Commands.Fingerprint.{FingerprintEntry}
use ttlock_ble.Client.Lists.Followed.{
  Followed, found_in, IsFollowed, passcode_rounds-Followed, Followed-passcode_rounds,
}
use ttlock_ble.Client.Lists.Listed.{IsRead, get_cards-Listed}
use ttlock_ble.Client.Log.{get_operation_log}
use ttlock_ble.Client.Log.Entries.{AreEntries}
use ttlock_ble.Client.Log.Returned.{Returns, get_operation_log-AreEntries}
use ttlock_ble.Client.Settings.{
  get_auto_lock_time, get_auto_lock_limits, clear_passcodes, get_lock_sound, set_lock_sound,
  get_device_features,
}
use ttlock_ble.Commands.AutoLock.{search, modify, payload_auto_lock_set, parse_auto_lock_response}
use ttlock_ble.Commands.AutoLock.Replies.{IsOut, payload_auto_lock_set-search}
use ttlock_ble.Crypto.{aes_encrypt, table_crc, aes_decrypt}
use ttlock_ble.Crypto.Toy.{toy_cipher, toy_laws}
use ttlock_ble.Encoding.{response_success}
use ttlock_ble.Examples.{client, link, session, query_frame}
use ttlock_ble.Models.Advertisement.{LockAdvertisement, from_manufacturer_data}
use ttlock_ble.Models.Advertisement.Total.{IsTold, from_manufacturer_data-total}
use ttlock_ble.Models.LockEvent.{LockEvent}
use ttlock_ble.Frame.{build, parse}
use ttlock_ble.Outcome.{Result, ok, raised, runtime_error, value_error}
use ttlock_ble.Transport.{notified, resumed, exchange, send, chunks_of, on_notify}
use ttlock_ble.Commands.PasscodeList.{payload_passcode_list, parse_passcode_list_response}
use ttlock_ble.Reassembler.{feed}
use ttlock_ble.Text.{codes, pos, int_of, is_decimal}

numeric_key : int_of (codes "12345") ≡ ok (pos 12345)
unfolding int_of
numeric_key = refl

numeric_admin : int_of (codes "123456") ≡ ok (pos 123456)
unfolding int_of
numeric_admin = refl

unlock-Keeps_example : Keeps (unlock client) × Keeps (lock client)
unlock-Keeps_example =
    unlock-Keeps client toy_laws refl (omega arith) (pos 12345) numeric_key (omega arith)

gated-Keep_example :
    Keeps (get_auto_lock_time client)
    × Keeps (get_auto_lock_limits client)
    × Keeps (clear_passcodes client)
    × Keeps (get_lock_sound client)
    × ((enabled : Bool) → Keeps (set_lock_sound client enabled))
    × Keeps (get_device_features client)
gated-Keep_example =
    gated-Keep client toy_laws refl (omega arith) (pos 12345) numeric_key 123456 numeric_admin
      (omega arith)

-- The same client without an admin password.
abbrev guest : Client
guest = record client { key = record client.key { admin_ps = [] } }

not_admin : is_decimal guest.key.admin_ps ≡ false
unfolding is_decimal
not_admin = refl

gated-Refuse_example : AllRefuse guest
gated-Refuse_example = gated-Refuse guest not_admin

get_operation_log-AreEntries_example :
    Returns (AreEntries (some 5)) (get_operation_log client (some 5) 0xffff session).0
get_operation_log-AreEntries_example = get_operation_log-AreEntries client (some 5) 0xffff session

get_cards-Listed_example :
    ((cards : List CardEntry)
      → (get_cards client session ≡ (ok cards, session))
        ↔ IsRead (query_card client) (admin_handshake client) session cards session)
    × ((fingerprints : List FingerprintEntry)
        → (get_fingerprints client session ≡ (ok fingerprints, session))
          ↔ IsRead (query_fingerprint client) (admin_handshake client) session fingerprints session)
get_cards-Listed_example = get_cards-Listed client session session

distinct_pair : AreDistinct (4 ∷ 7 ∷ [])
unfolding AreDistinct is_registered
distinct_pair = (refl, (refl, tt))

listeners-AreDistinct_example :
    AreDistinct (add_event_listener 9 (4 ∷ 7 ∷ []))
    × AreDistinct (remove_event_listener 9 (4 ∷ 7 ∷ []))
    × (is_registered 9 (remove_event_listener 9 (4 ∷ 7 ∷ [])) ≡ false)
    × ((is_registered 9 (4 ∷ 7 ∷ []) ≡ true)
        ⊎ (remove_event_listener 9 (add_event_listener 9 (4 ∷ 7 ∷ [])) ≡ 4 ∷ 7 ∷ []))
listeners-AreDistinct_example = listeners-AreDistinct 9 (4 ∷ 7 ∷ []) distinct_pair

-- Every other listener raises.
abbrev nervous : ℕ → LockEvent → Result (Unit {0})
nervous listener event = if listener % 2 == 0 then raised runtime_error else ok tt

dispatch_event-delivers_example :
    IsDelivered nervous client
      (4 ∷ 7 ∷ [])
      query_frame
      (dispatch_event nervous client (4 ∷ 7 ∷ []) query_frame)
dispatch_event-delivers_example = dispatch_event-delivers nervous client (4 ∷ 7 ∷ []) query_frame

payload_auto_lock_set-search_example :
    ((high : ℕ) × (low : ℕ) × (payload_auto_lock_set (pos 300) ≡ ok (modify ∷ high ∷ low ∷ []))
      × (parse_auto_lock_response (0x36 ∷ response_success ∷ 80 ∷ search ∷ high ∷ low ∷ [])
          ≡ ok (pos 300, 80)))
    ⊎ ((payload_auto_lock_set (pos 300) ≡ raised value_error) × IsOut (pos 300))
payload_auto_lock_set-search_example = payload_auto_lock_set-search (pos 300) 0x36 80 []

abbrev beacon : Bytes
beacon = 2 ∷ 1 ∷ 90 ∷ 0 ∷ 0 ∷ 0 ∷ 0 ∷ 1 ∷ 2 ∷ 3 ∷ 4 ∷ 5 ∷ 6 ∷ []

from_manufacturer_data-total_example :
    (found : Option LockAdvertisement) × (from_manufacturer_data 0x0305 beacon ≡ ok found)
    × IsTold found
from_manufacturer_data-total_example = from_manufacturer_data-total 0x0305 beacon

-- The lock's answer to the passcode query: no entry, and the cursor 0.
abbrev reply_wire : Bytes
reply_wire =
    127 ∷ 90 ∷ 5 ∷ 3 ∷ 2 ∷ 1 ∷ 2 ∷ 0 ∷ 1 ∷ 84 ∷ 170 ∷ 16 ∷ 93 ∷ 91 ∷ 90 ∷ 90 ∷ 90 ∷ 90 ∷ 80 ∷ 80
    ∷ 80 ∷ 80 ∷ 80 ∷ 80 ∷ 80 ∷ 80 ∷ 80 ∷ 80 ∷ 128 ∷ 13 ∷ 10 ∷ []

abbrev one_reply : Session
one_reply = record {
  transport = record link { inbox = []; waiting_for_response = 0 };
  turns = record { writes = []; moments = notified reply_wire ∷ resumed ∷ resumed ∷ [] } ∷ [];
}

-- The link after that answer.
abbrev after_reply : Session
after_reply = (query_passcode client 0 one_reply).1

reply_read : query_passcode client 0 one_reply ≡ (ok (none, 0), after_reply)
unfolding query_passcode payload_passcode_list round_trip frame_of aes_encrypt toy_cipher
    transport_exchange exchange send build table_crc chunks_of on_notify answers aes_decrypt
    decrypt_response parse_passcode_list_response parse equal feed from_bytes
reply_read = refl

none_listed : passcode_rounds client 300 0 [] one_reply ≡ (ok [], after_reply)
unfolding found_in
none_listed =
    Followed-passcode_rounds client 300 1 0 [] (none ∷ []) one_reply after_reply (omega arith)
      (Followed.last reply_read)

passcode_rounds-Followed_example :
    (passcode_rounds client 300 0 [] one_reply ≡ (ok [], after_reply))
    ↔ IsFollowed client 300 0 [] one_reply [] after_reply
passcode_rounds-Followed_example = passcode_rounds-Followed client 300 0 [] [] one_reply after_reply
