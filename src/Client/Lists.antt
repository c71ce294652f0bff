-- ===== src/Client/Lists.antt =====
-- The lists that `TTLockClient` reads entry by entry: passcodes, fingerprints and cards.
pub mod Listed
pub mod Followed
use ttlock_ble.Base.{ℕ, zero, suc, ◌+◌, true, false, List, [], ◌∷◌, ◌++◌, Option, none, some, ◌==◌}
use ttlock_ble.Client.Act.{Act, ◌>>=◌, ◌>>◌, pure, raise, lift, fold}
use ttlock_ble.Client.Core.{Client, round_trip, admin_handshake}
use ttlock_ble.Commands.Card.{CardEntry, payload_card_list, parse_card_list_response}
use ttlock_ble.Commands.Fingerprint.{
  FingerprintEntry, payload_fingerprint_list, parse_fingerprint_list_response,
}
use ttlock_ble.Commands.PasscodeList.{
  PasscodeEntry, payload_passcode_list, parse_passcode_list_response,
}
use ttlock_ble.Opcodes.{cmd_get_passcodes, cmd_manage_fingerprint, cmd_manage_ic_card}
use ttlock_ble.Outcome.{tt_lock_error, fold_parse_error}

abbrev pub max_passcode_entries : ℕ
max_passcode_entries = 300

abbrev pub max_fingerprint_entries : ℕ
max_fingerprint_entries = 300

abbrev pub max_card_entries : ℕ
max_card_entries = 300

unfoldable pub append_found : {A : Type 0} → List A → Option A → List A
append_found entries none = entries
append_found entries (some entry) = entries ++ entry ∷ []

-- One query of the passcode list.
unfoldable pub query_passcode : Client → ℕ → Act (Option PasscodeEntry × ℕ)
query_passcode c sequence = do
  payload ← lift (payload_passcode_list sequence)
  plain ← round_trip c cmd_get_passcodes payload
  lift (fold fold_parse_error (parse_passcode_list_response plain))

-- The rounds that are left, the cursor and the entries so far.
unfoldable pub passcode_rounds : Client → ℕ → ℕ → List PasscodeEntry → Act (List PasscodeEntry)
unfolding query_passcode append_found
passcode_rounds c zero sequence entries = raise tt_lock_error
passcode_rounds c (suc attempts) sequence entries = do
  (entry, next_sequence) ← query_passcode c sequence
  elim (next_sequence == 0) [
    | true ↦ pure (append_found entries entry)
    | false ↦ passcode_rounds c attempts next_sequence (append_found entries entry)
  ]

unfoldable pub get_passcodes : Client → Act (List PasscodeEntry)
get_passcodes c = do admin_handshake c; passcode_rounds c max_passcode_entries 0 []

-- The indexed lists share their loop: `query index` is one round trip and its parsed answer.
module _ {A : Type 0} (query : ℕ → Act (Option A)) where
  unfoldable pub indexed_rounds : ℕ → ℕ → List A → Act (List A)
  indexed_rounds zero index entries = raise tt_lock_error
  indexed_rounds (suc left) index entries = do
    answer ← query index
    elim answer [
      | none ↦ pure entries
      | some entry ↦ indexed_rounds left (index + 1) (entries ++ entry ∷ [])
    ]

unfoldable pub query_fingerprint : Client → ℕ → Act (Option FingerprintEntry)
query_fingerprint c index = do
  payload ← lift (payload_fingerprint_list index)
  plain ← round_trip c cmd_manage_fingerprint payload
  lift (fold fold_parse_error (parse_fingerprint_list_response plain))

unfoldable pub get_fingerprints : Client → Act (List FingerprintEntry)
get_fingerprints c = do
  admin_handshake c
  indexed_rounds (query_fingerprint c) max_fingerprint_entries 0 []

unfoldable pub query_card : Client → ℕ → Act (Option CardEntry)
query_card c index = do
  payload ← lift (payload_card_list index)
  plain ← round_trip c cmd_manage_ic_card payload
  lift (fold fold_parse_error (parse_card_list_response plain))

unfoldable pub get_cards : Client → Act (List CardEntry)
get_cards c = do admin_handshake c; indexed_rounds (query_card c) max_card_entries 0 []
