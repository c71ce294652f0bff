-- ===== src/Transport/Exchange.antt =====
-- What `exchange` leaves behind and returns, on every path.
use ttlock_ble.Base.{
  Option, none, some, ℕ, suc, ◌+◌, ◌≡◌, refl, subst, ◌∙◌, arith, ◌⊎◌, inl, inr, Bool, true, false,
  List, [], ◌∷◌, ◌++◌, length, if◌then◌else◌,
}
use ttlock_ble.Base.Bytes.{Bytes}
use ttlock_ble.Frame.{Frame, build}
use ttlock_ble.Outcome.{Result, ok, raised, Exn, tt_lock_error, assertion_error}
use ttlock_ble.Transport.{
  BleTransport, WriteTurn, WriteError, bleak_write_error, write_timeout, os_write_error, send_error,
  Turn, Moment, on_notify, on_notify_all, chunks_of, write_one, write_all, send_wire, send,
  after_send, await_reply, exchange,
}
use ttlock_ble.Transport.Routing.{Routed, IsAnswer, await_reply-routes}

on_notify-count :
    (t : BleTransport) (chunk : Bytes)
    → (on_notify t chunk).waiting_for_response ≡ t.waiting_for_response
unfolding on_notify
on_notify-count t chunk = ground arith

on_notify_all-count :
    (t : BleTransport) (chunks : List Bytes)
    → (on_notify_all t chunks).waiting_for_response ≡ t.waiting_for_response
unfolding on_notify_all
on_notify_all-count t [] = refl
on_notify_all-count t (chunk ∷ chunks) =
    on_notify_all-count (on_notify t chunk) chunks ∙ on_notify-count t chunk

-- After a step that sends, the count is as before, and an exception is one of these.
IsSent : (Exn → Type 0) → ℕ → Result (Unit {0}) × BleTransport → Type 0
IsSent P n (ok _, t) = t.waiting_for_response ≡ n
IsSent P n (raised e, t) = (t.waiting_for_response ≡ n) × P e

write_one-IsSent :
    (t : BleTransport) (w : WriteTurn) (chunk : Bytes)
    → IsSent (λ e. e ≡ tt_lock_error) t.waiting_for_response (write_one t w chunk)
unfolding write_one IsSent send_error
write_one-IsSent t w chunk = at w.failure
  where
    at :
        (failure : Option WriteError)
        → IsSent
            (λ e. e ≡ tt_lock_error)
            t.waiting_for_response
            (write_one t (record w { failure = failure }) chunk)
    at none = on_notify_all-count t w.heard
    at (some bleak_write_error) = (on_notify_all-count t w.heard, refl)
    at (some write_timeout) = (on_notify_all-count t w.heard, refl)
    at (some os_write_error) = (on_notify_all-count t w.heard, refl)

after_write-IsSent :
    (n : ℕ) (ws : List WriteTurn) (chunks : List Bytes) (p : Result (Unit {0}) × BleTransport)
    → IsSent (λ e. e ≡ tt_lock_error) n p
    → ((t : BleTransport)
        → IsSent (λ e. e ≡ tt_lock_error) t.waiting_for_response (write_all t ws chunks))
    → IsSent
        (λ e. e ≡ tt_lock_error)
        n
        (elim p.0 [ ok _ ↦ write_all p.1 ws chunks | raised e ↦ (raised e, p.1) ])
unfolding IsSent
after_write-IsSent n ws chunks (ok _, t) h more =
    subst (λ (m : ℕ). IsSent (λ e. e ≡ tt_lock_error) m (write_all t ws chunks)) h (more t)
after_write-IsSent n ws chunks (raised e, t) h more = h

write_all-IsSent :
    (t : BleTransport) (ws : List WriteTurn) (chunks : List Bytes)
    → IsSent (λ e. e ≡ tt_lock_error) t.waiting_for_response (write_all t ws chunks)
unfolding write_all IsSent
write_all-IsSent t ws [] = refl
write_all-IsSent t [] (chunk ∷ chunks) =
    write_all-IsSent (record t { written = t.written ++ chunk ∷ [] }) [] chunks
write_all-IsSent t (w ∷ ws) (chunk ∷ chunks) =
    after_write-IsSent t.waiting_for_response ws chunks (write_one t w chunk)
      (write_one-IsSent t w chunk) (λ t'. write_all-IsSent t' ws chunks)

-- What `send` can raise for a frame.
unfoldable pub SendRaises : Frame → Exn → Type 0
SendRaises frame e = (e ≡ tt_lock_error) ⊎ ((e ≡ assertion_error) ⊎ (build frame ≡ raised e))

IsSent-weaken :
    (P Q : Exn → Type 0) (n : ℕ) (p : Result (Unit {0}) × BleTransport)
    → ((e : Exn) → P e → Q e)
    → IsSent P n p
    → IsSent Q n p
unfolding IsSent
IsSent-weaken P Q n (ok _, t) f h = h
IsSent-weaken P Q n (raised e, t) f (h, p) = (h, f e p)

send_wire-IsSent :
    (t : BleTransport) (ws : List WriteTurn) (frame : Frame) (wire : Result Bytes)
    → build frame ≡ wire
    → IsSent (SendRaises frame) t.waiting_for_response (send_wire t ws frame wire)
unfolding send_wire IsSent SendRaises
send_wire-IsSent t ws frame (raised e) b = (refl, inr (inr b))
send_wire-IsSent t ws frame (ok wire) b =
    IsSent-weaken (λ e. e ≡ tt_lock_error) (SendRaises frame) t.waiting_for_response _
      (λ e h. inl h)
      (write_all-IsSent (record t { sent = t.sent ++ frame ∷ [] }) ws
        (chunks_of (length wire) wire))

send-IsSent :
    (t : BleTransport) (ws : List WriteTurn) (frame : Frame)
    → IsSent (SendRaises frame) t.waiting_for_response (send t ws frame)
unfolding send IsSent SendRaises
send-IsSent t ws frame = go t.linked
  where
    go :
        (b : Bool)
        → IsSent
            (SendRaises frame)
            t.waiting_for_response
            (if b then send_wire t ws frame (build frame) else (raised assertion_error, t))
    go true = send_wire-IsSent t ws frame (build frame) refl
    go false = (refl, inr (inl refl))

module _ (is_response : Frame → ℕ → Bool) where
  -- A reply that the predicate accepts, or an exception of sending or of the missed deadline.
  unfoldable pub IsExchanged : Frame → Result Frame → Type 0
  IsExchanged frame (ok reply) = is_response reply frame.command ≡ true
  IsExchanged frame (raised e) = SendRaises frame e

  answer-IsExchanged :
      (frame : Frame) (r : Result Frame)
      → IsAnswer is_response frame.command r
      → IsExchanged frame r
  unfolding IsAnswer IsExchanged SendRaises
  answer-IsExchanged frame (ok reply) h = h
  answer-IsExchanged frame (raised e) h = inl h

  after_send-IsExchanged :
      (n : ℕ) (ms : List Moment) (frame : Frame) (p : Result (Unit {0}) × BleTransport)
      → IsSent (SendRaises frame) (suc n) p
      → IsExchanged frame (after_send is_response frame.command ms p).0
        × ((after_send is_response frame.command ms p).1.waiting_for_response ≡ suc n)
  unfolding after_send IsSent IsExchanged Routed
  after_send-IsExchanged n ms frame (ok _, t) h =
      let (_, _, _, _, _, _, _, _, _, count, answer) =
        await_reply-routes is_response frame.command ms t (omega arith) in
      (answer-IsExchanged frame (await_reply is_response frame.command ms t).0 answer, count ∙ h)
  after_send-IsExchanged n ms frame (raised e, t) (h, p) = (p, h)

  -- Whatever happens on the link, `exchange` leaves the count of waiting commands as it was, and it
  -- returns a frame that the predicate accepts for the command sent, or raises `TTLockError`, the
  -- failed assertion of a link that is not connected, or what building the frame raised.
  pub exchange-answers :
      (t : BleTransport) (turn : Turn) (frame : Frame)
      → IsExchanged frame (exchange is_response t turn frame).0
        × ((exchange is_response t turn frame).1.waiting_for_response ≡ t.waiting_for_response)
  unfolding exchange
  exchange-answers t turn frame =
      let n = t.waiting_for_response in
      let up : n + 1 ≡ suc n = omega arith in
      let started = record t { waiting_for_response = n + 1 } in
      let sent =
        subst (λ (m : ℕ). IsSent (SendRaises frame) m (send started turn.writes frame)) up
          (send-IsSent started turn.writes frame) in
      let (r, count) = after_send-IsExchanged n turn.moments frame _ sent in
      (r, omega (arith, count))
