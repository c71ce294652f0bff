-- ===== src/Transport/Answering.antt =====
-- An await that is woken often enough finds the reply.
use ttlock_ble.Base.{
  ℕ, suc, ◌<◌, ◌≡◌, refl, sym, ap, ◌∙◌, arith, true, false, List, [], ◌∷◌, ◌++◌, map, append-nil,
  append_assoc, length, All, Bool,
}
use ttlock_ble.Base.Bytes.{Bytes}
use ttlock_ble.Frame.{Frame}
use ttlock_ble.Outcome.{ok}
use ttlock_ble.Reassembler.{feed, feed_all}
use ttlock_ble.Transport.{BleTransport, Moment, notified, resumed, go_on, look_at, await_reply}
use ttlock_ble.Transport.Routing.{on_notify-waiting}

-- How often the await is woken.
unfoldable pub wakes : List Moment → ℕ
wakes [] = 0
wakes (notified chunk ∷ ms) = wakes ms
wakes (resumed ∷ ms) = suc (wakes ms)

module _ (is_response : Frame → ℕ → Bool) where
  -- The frames before the reply are not accepted, and the reply is.
  unfoldable pub IsReply : ℕ → List Frame → Frame → Type 0
  IsReply command passed reply =
      All (λ f. is_response f command ≡ false) passed × (is_response reply command ≡ true)

  inbox-finds :
      (command : ℕ) (ms : List Moment) (t : BleTransport) (passed rest : List Frame) (reply : Frame)
      → 0 < t.waiting_for_response
      → t.inbox ≡ passed ++ (reply ∷ rest)
      → IsReply command passed reply
      → length passed < wakes ms
      → (await_reply is_response command ms t).0 ≡ ok reply
  unfolding await_reply wakes IsReply go_on look_at
  inbox-finds command [] t passed rest reply h e r few = absurd (omega arith)
  inbox-finds command (notified chunk ∷ ms) t passed rest reply h e r few =
      let frames = (feed t.reassembler chunk).0 in
      let t1 = record t { reassembler = (feed t.reassembler chunk).1; inbox = t.inbox ++ frames } in
      ap (λ x. (await_reply is_response command ms x).0) (on_notify-waiting t chunk h)
      ∙ inbox-finds command ms t1 passed (rest ++ frames) reply h
          (ap (λ (l : List Frame). l ++ frames) e ∙ append_assoc passed (reply ∷ rest) frames) r few
  inbox-finds command (resumed ∷ ms) t [] rest reply h e (others, accepted) few =
      rw (e, accepted) refl
  inbox-finds command (resumed ∷ ms) t (f ∷ passed) rest reply h e ((passes, others), accepted)
        few =
      let t1 = record t { inbox = passed ++ (reply ∷ rest); pushed = t.pushed ++ f ∷ [] } in
      let rest_finds =
        inbox-finds command ms t1 passed rest reply h refl (others, accepted)
          (omega (arith, few)) in
      rw (e, passes) rest_finds

  -- An await hears some chunks and then goes through further moments. When one of the frames of the
  -- inbox and of those chunks is a reply, and the await is woken more often than there are frames
  -- before the first reply, it returns that reply.
  pub await_reply-finds :
      (command : ℕ) (chunks : List Bytes) (ms : List Moment) (t : BleTransport)
      (passed rest : List Frame) (reply : Frame)
      → 0 < t.waiting_for_response
      → t.inbox ++ (feed_all t.reassembler chunks).0 ≡ passed ++ (reply ∷ rest)
      → IsReply command passed reply
      → length passed < wakes ms
      → (await_reply is_response command (map notified chunks ++ ms) t).0 ≡ ok reply
  unfolding await_reply feed_all
  await_reply-finds command [] ms t passed rest reply h e r few =
      inbox-finds command ms t passed rest reply h (sym (append-nil t.inbox) ∙ e) r few
  await_reply-finds command (chunk ∷ chunks) ms t passed rest reply h e r few =
      let (frames, fresh) = feed t.reassembler chunk in
      let t1 = record t { reassembler = fresh; inbox = t.inbox ++ frames } in
      ap (λ x. (await_reply is_response command (map notified chunks ++ ms) x).0)
        (on_notify-waiting t chunk h)
      ∙ await_reply-finds command chunks ms t1 passed rest reply h
          (append_assoc t.inbox frames (feed_all fresh chunks).0 ∙ e) r few
