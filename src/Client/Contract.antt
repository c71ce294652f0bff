-- ===== src/Client/Contract.antt =====
-- The error contract of the commands: which exceptions leave a command of a healthy client.
pub mod Gate
use ttlock_ble.Base.{
  ℕ, ◌/◌, ◌^◌, ◌<◌, ◌≡◌, refl, sym, ap, ◌∙◌, subst, arith, ◌⊎◌, inl, inr, Bool, Bool-cases, true,
  false, List, [], ◌∷◌, ◌++◌, length, All, All-append, if◌then◌else◌, ◌==◌,
}
use ttlock_ble.Base.Bytes.{Bytes, IsByte}
use ttlock_ble.Client.Act.{
  Act, Session, continue, ◌>>=◌, lift, fold, pure, raise, next_turn, transport_exchange,
}
use ttlock_ble.Client.Control.{unlock, lock}
use ttlock_ble.Client.Core.{
  Client, VirtualKey, answers, frame_of, decrypt_response, exchange_command, round_trip,
  require_success, check_user_time, admin_handshake, control_lock,
}
use ttlock_ble.Commands.Control.{payload_unlock}
use ttlock_ble.Commands.Control.Layout.{payload_unlock-layout}
use ttlock_ble.Commands.Raises.{IsParseError, RaisesOnly, user_time-raises, admin-raises}
use ttlock_ble.Commands.Session.{
  default_start, default_end, payload_check_user_time, payload_check_admin, payload_check_random,
  parse_check_user_time_response, parse_check_admin_response,
}
use ttlock_ble.Commands.Session.Layout.{
  word, word-IsByte, flag_bytes, payload_check_user_time-layout, payload_check_admin-layout,
  payload_check_random-layout,
}
use ttlock_ble.Crypto.{CipherLaws, aes_encrypt, aes_decrypt}
use ttlock_ble.Crypto.Aes.{aes_decrypt-encrypt, aes_raises}
use ttlock_ble.Encoding.{parse_response_status, response_success}
use ttlock_ble.Frame.{Frame, build}
use ttlock_ble.Frame.RoundTrip.{build-body}
use ttlock_ble.Models.LockVersion.{for_lock, encrypt_data}
use ttlock_ble.Opcodes.{
  cmd_unlock, cmd_lock, cmd_check_user_time, cmd_check_admin, cmd_check_random,
}
use ttlock_ble.Outcome.{
  Result, ok, raised, Exn, value_error, runtime_error, tt_lock_error, assertion_error,
  fold_parse_error, fold_value_error,
}
use ttlock_ble.Text.{ℤ, pos, int_of, is_decimal, low_word, add_ℕ}
use ttlock_ble.Transport.{BleTransport, Turn, exchange}
use ttlock_ble.Transport.Exchange.{SendRaises, IsExchanged, exchange-answers}

-- `TTLockError`, or the failed assertion of a link that is not connected.
IsContract : Exn → Type 0
IsContract e = (e ≡ tt_lock_error) ⊎ (e ≡ assertion_error)

-- The act raises nothing else, from any state of the link and whatever the lock does.
pub Keeps : {A : Type 0} → Act A → Type 0
Keeps m = (s : Session) → RaisesOnly IsContract (m s).0

continue-Keeps :
    {A B : Type 0} (p : Result A × Session) (f : A → Act B)
    → RaisesOnly IsContract p.0
    → ((a : A) → Keeps (f a))
    → RaisesOnly IsContract (continue f p).0
unfolding Keeps RaisesOnly
continue-Keeps (ok a, s) f h k = k a s
continue-Keeps (raised e, s) f h k = h

>>=-Keeps :
    {A B : Type 0} (m : Act A) (f : A → Act B) → Keeps m → ((a : A) → Keeps (f a)) → Keeps (m >>= f)
unfolding Keeps
>>=-Keeps m f h k s = continue-Keeps (m s) f (h s) k

fold_parse-Keeps :
    {A : Type 0} (r : Result A) → RaisesOnly IsParseError r → Keeps (lift (fold fold_parse_error r))
unfolding Keeps RaisesOnly IsParseError IsContract fold_parse_error
fold_parse-Keeps (ok a) h s = tt
fold_parse-Keeps (raised e) (inl v) s = ground (arith, v)
fold_parse-Keeps (raised e) (inr v) s = ground (arith, v)

fold_value-Keeps :
    {A : Type 0} (r : Result A)
    → ((e : Exn) → r ≡ raised e → e ≡ value_error)
    → Keeps (lift (fold fold_value_error r))
unfolding Keeps RaisesOnly IsContract fold_value_error
fold_value-Keeps (ok a) h s = tt
fold_value-Keeps (raised e) h s = inl (ap fold_value_error (h e refl))

parse_response_status-raises :
    (p : Bytes) (e : Exn) → parse_response_status p ≡ raised e → e ≡ value_error
unfolding parse_response_status
parse_response_status-raises (echo ∷ status ∷ content) e h = cc
parse_response_status-raises _ e h = cc

require_success-Keeps : (plain : Bytes) → Keeps (require_success plain)
unfolding require_success Keeps RaisesOnly IsContract
require_success-Keeps plain =
    >>=-Keeps _ _
      (fold_value-Keeps (parse_response_status plain) (parse_response_status-raises plain))
      (λ (echo, status, content) s. judged (status == response_success) s)
  where
    judged :
        (b : Bool) (s : Session)
        → RaisesOnly IsContract ((if b then pure tt else raise {A = Unit {0}} tt_lock_error) s).0
    judged true s = tt
    judged false s = inl refl

exchanged-IsContract :
    (is_response : Frame → ℕ → Bool) (f : Frame) (r : Result Frame)
    → IsExchanged is_response f r
    → RaisesOnly IsContract r
unfolding IsExchanged SendRaises RaisesOnly IsContract
exchanged-IsContract is_response f (ok reply) h = tt
exchanged-IsContract is_response f (raised e) (inl h) = inl h
exchanged-IsContract is_response f (raised e) (inr (inl h)) = inr h
exchanged-IsContract is_response f (raised e) (inr (inr h)) = absurd (cc (build-body f, h))

transport_exchange-Keeps :
    (is_response : Frame → ℕ → Bool) (f : Frame) → Keeps (transport_exchange is_response f)
unfolding transport_exchange Keeps
transport_exchange-Keeps is_response f s =
    exchanged-IsContract is_response f _
      (exchange-answers is_response s.transport (next_turn s.turns) f).0

window-IsByte :
    (flag uid : ℕ)
    → All IsByte
        ((0 ∷ 1 ∷ 31 ∷ 14 ∷ 0 ∷ 99 ∷ 11 ∷ 30 ∷ 14 ∷ 0 ∷ []) ++ (flag_bytes flag ++ word uid))
unfolding flag_bytes word
window-IsByte flag uid = omega arith

admin-IsByte : (secret flag uid : ℕ) → All IsByte (word secret ++ (flag_bytes flag ++ word uid))
unfolding flag_bytes word
admin-IsByte secret flag uid = omega arith

module _ (c : Client) (laws : CipherLaws c.cipher) (key_fits : length c.key.aes_key ≡ 16) where
  sealed :
      (command : ℕ) (payload : Bytes)
      → All IsByte payload
      → (f : Frame) × (frame_of c command payload ≡ ok f)
  unfolding frame_of for_lock encrypt_data
  sealed command payload h =
      let (q, e, _, _, _) = aes_decrypt-encrypt c.cipher laws c.key.aes_key payload key_fits h in
      (
        record (for_lock c.key.lock_version command payload) { encrypt = 0xaa; payload = q },
        rw e refl,
      )

  -- One round trip with a payload of bytes.
  round_trip-Keeps :
      (command : ℕ) (payload : Bytes) → All IsByte payload → Keeps (round_trip c command payload)
  unfolding round_trip exchange_command decrypt_response Keeps
  round_trip-Keeps command payload h s =
      let (f, e) = sealed command payload h in
      continue-Keeps (exchange_command c command payload s) _
        (subst (λ r. RaisesOnly IsContract (continue (transport_exchange (answers c)) (r, s)).0)
          (sym e) (transport_exchange-Keeps (answers c) f s))
        (λ resp.
          fold_value-Keeps (aes_decrypt c.cipher resp.payload c.key.aes_key)
            (aes_raises c.cipher laws c.key.aes_key resp.payload).1)

  -- A key of 16 bytes, a 32-bit uid and a numeric unlock key.
  module _ (uid_fits : c.key.uid < 2 ^ 32) (k : ℤ)
      (unlock_key : int_of c.key.unlock_key ≡ ok k) where
    built-Keeps :
        {A : Type 0} (r : Result Bytes) (payload : Bytes) (m : Bytes → Act A)
        → r ≡ ok payload
        → Keeps (m payload)
        → Keeps (lift r >>= m)
    unfolding Keeps
    built-Keeps r payload m e h s =
        subst (λ r. RaisesOnly IsContract (continue m (r, s)).0) (sym e) (h s)

    check_user_time-Keeps : Keeps (check_user_time c)
    unfolding check_user_time
    check_user_time-Keeps =
        built-Keeps _ _ _ (payload_check_user_time-layout c.key.uid c.key.lock_flag_pos uid_fits) (
          >>=-Keeps _ _
            (round_trip-Keeps cmd_check_user_time _ (window-IsByte c.key.lock_flag_pos c.key.uid))
            (λ plain. fold_parse-Keeps _ (user_time-raises plain)))

    control_lock-Keeps :
        (opcode ps : ℕ) → c.now_ms / 1000 < 2 ^ 32 → Keeps (control_lock c opcode ps)
    unfolding control_lock
    control_lock-Keeps opcode ps clock =
        built-Keeps _ _ _ (payload_unlock-layout c.now_ms ps c.key.unlock_key k unlock_key clock) (
          >>=-Keeps _ _
            (round_trip-Keeps opcode _
              (All-append IsByte (word (low_word (add_ℕ ps k))) _ (word-IsByte _) (word-IsByte _)))
            require_success-Keeps)

    -- With a 16-byte key, a 32-bit uid, a numeric unlock key and a clock before the year 2106,
    -- unlocking and locking raise nothing but `TTLockError`, or the failed assertion of a link that
    -- is not connected, whatever the lock sends and whenever the link fails.
    pub unlock-Keeps : c.now_ms / 1000 < 2 ^ 32 → Keeps (unlock c) × Keeps (lock c)
    unfolding unlock lock
    unlock-Keeps clock = (
      >>=-Keeps _ _ check_user_time-Keeps (λ ps. control_lock-Keeps cmd_unlock ps clock),
      >>=-Keeps _ _ check_user_time-Keeps (λ ps. control_lock-Keeps cmd_lock ps clock),
    )
