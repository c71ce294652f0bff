-- ===== src/Transport/Routing.antt =====
-- Where the frames go that arrive during an exchange.
use ttlock_ble.Base.{
  ℕ, ◌<◌, ◌≡◌, refl, sym, subst, ap, ◌∙◌, Bool, Bool-cases, inl, inr, true, false, List, [], ◌∷◌,
  ◌++◌, append-nil, append_assoc, All, lt→ltb,
}
use ttlock_ble.Base.Bytes.{Bytes}
use ttlock_ble.Frame.{Frame}
use ttlock_ble.Outcome.{Result, ok, raised, tt_lock_error}
use ttlock_ble.Reassembler.{feed, feed_all}
use ttlock_ble.Transport.{
  BleTransport, Moment, notified, resumed, on_notify, go_on, look_at, await_reply,
}

-- The chunks of these moments, in order.
pub heard_in : List Moment → List Bytes
heard_in [] = []
heard_in (notified chunk ∷ ms) = chunk ∷ heard_in ms
heard_in (resumed ∷ ms) = heard_in ms

-- The frames that wait after the skipped ones: the reply, if there is one, before the inbox.
unfoldable pub remaining : Result Frame → List Frame → List Frame
remaining (ok reply) inbox = reply ∷ inbox
remaining (raised e) inbox = inbox

pub on_notify-waiting :
    (t : BleTransport) (chunk : Bytes)
    → 0 < t.waiting_for_response
    → on_notify t chunk ≡ record t {
      reassembler = (feed t.reassembler chunk).1;
      inbox = t.inbox ++ (feed t.reassembler chunk).0;
    }
unfolding on_notify
on_notify-waiting t chunk h = rw (lt→ltb _ _ h)

module _ (is_response : Frame → ℕ → Bool) where
  -- A reply is one that the predicate accepts, and the only exception is `TTLockError`.
  unfoldable pub IsAnswer : ℕ → Result Frame → Type 0
  IsAnswer command (ok reply) = is_response reply command ≡ true
  IsAnswer command (raised e) = e ≡ tt_lock_error

  -- An await without a reply lasts to the last moment, and one with a reply ends when a wake-up
  -- finds the reply.
  unfoldable pub Stops : Result Frame → List Moment → List Moment → Type 0
  Stops (ok reply) before after = (earlier : List Moment) × (before ≡ earlier ++ resumed ∷ [])
  Stops (raised e) before after = after ≡ []

  -- What an await from one link to another has done with the frames: it went through the moments up
  -- to where it stops; the frames of the inbox and of the chunks heard in them are, in order, the
  -- skipped ones, the reply and the new inbox; the skipped ones are no replies and were pushed in
  -- order.
  unfoldable pub Routed : ℕ → List Moment → BleTransport → Result Frame × BleTransport → Type 0
  Routed command ms t (r, t') =
      (before : List Moment) × (after : List Moment) × (skipped : List Frame) × (ms
        ≡ before ++ after)
      × Stops r before after
      × (t'.reassembler ≡ (feed_all t.reassembler (heard_in before)).1)
      × (t.inbox ++ (feed_all t.reassembler (heard_in before)).0 ≡ skipped ++ remaining r t'.inbox)
      × (t'.pushed ≡ t.pushed ++ skipped)
      × All (λ f. is_response f command ≡ false) skipped
      × (t'.waiting_for_response ≡ t.waiting_for_response)
      × IsAnswer command r

  Stops-later :
      (m : Moment) (r : Result Frame) (before after : List Moment)
      → Stops r before after
      → Stops r (m ∷ before) after
  unfolding Stops
  Stops-later m (ok reply) before after (earlier, e) = (m ∷ earlier, ap (λ l. m ∷ l) e)
  Stops-later m (raised e) before after h = h

  -- A wake-up that finds nothing.
  idle-routes :
      (command : ℕ) (ms : List Moment) (t : BleTransport) (out : Result Frame × BleTransport)
      → Routed command ms t out
      → Routed command (resumed ∷ ms) t out
  unfolding Routed heard_in
  idle-routes command ms t (r, t')
        (before, after, skipped, split, stops, fed, kept, out, others, count, answer) =
      (
        resumed ∷ before,
        after,
        skipped,
        ap (λ (l : List Moment). resumed ∷ l) split,
        Stops-later resumed r before after stops,
        fed,
        kept,
        out,
        others,
        count,
        answer,
      )

  -- A wake-up that takes a frame which is no reply.
  pass-routes :
      (command : ℕ) (ms : List Moment) (t : BleTransport) (candidate : Frame) (rest : List Frame)
      (out : Result Frame × BleTransport)
      → t.inbox ≡ candidate ∷ rest
      → is_response candidate command ≡ false
      → Routed command ms (record t { inbox = rest; pushed = t.pushed ++ candidate ∷ [] }) out
      → Routed command (resumed ∷ ms) t out
  unfolding Routed heard_in
  pass-routes command ms t candidate rest (r, t') e passed
        (before, after, skipped, split, stops, fed, kept, out, others, count, answer) =
      let arrived = (feed_all t.reassembler (heard_in before)).0 in
      (
        resumed ∷ before,
        after,
        candidate ∷ skipped,
        ap (λ (l : List Moment). resumed ∷ l) split,
        Stops-later resumed r before after stops,
        fed,
        ap (λ (l : List Frame). l ++ arrived) e ∙ ap (λ (l : List Frame). candidate ∷ l) kept,
        out ∙ append_assoc t.pushed (candidate ∷ []) skipped,
        (passed, others),
        count,
        answer,
      )

  look-routes :
      (command : ℕ) (ms : List Moment) (more : BleTransport → Result Frame × BleTransport)
      (t : BleTransport)
      → 0 < t.waiting_for_response
      → (box : List Frame) → t.inbox ≡ box
      → ((t' : BleTransport) → 0 < t'.waiting_for_response → Routed command ms t' (more t'))
      → Routed command (resumed ∷ ms) t (go_on more (look_at is_response command box t))
  unfolding look_at go_on remaining IsAnswer Routed feed_all Stops heard_in
  look-routes command ms more t h [] e routes = idle-routes command ms t (more t) (routes t h)
  look-routes command ms more t h (candidate ∷ rest) e routes =
      elim (Bool-cases (is_response candidate command)) [
        | inl accepted ↦ rw accepted (
          resumed ∷ [],
          ms,
          [],
          refl,
          ([], refl),
          refl,
          append-nil t.inbox ∙ e,
          sym (append-nil t.pushed),
          tt,
          refl,
          accepted,
        )
        | inr passed ↦
            let t1 = record t { inbox = rest; pushed = t.pushed ++ candidate ∷ [] } in
            rw passed (pass-routes command ms t candidate rest (more t1) e passed (routes t1 h))
      ]

  hear-routes :
      (command : ℕ) (chunk : Bytes) (ms : List Moment) (t : BleTransport)
      (out : Result Frame × BleTransport)
      → Routed command ms
          (record t {
            reassembler = (feed t.reassembler chunk).1;
            inbox = t.inbox ++ (feed t.reassembler chunk).0;
          })
          out
      → Routed command (notified chunk ∷ ms) t out
  unfolding remaining IsAnswer Routed feed_all heard_in
  hear-routes command chunk ms t (r, t')
        (before, after, skipped, split, stops, fed, kept, pushes, passed, count, answer) =
      let (frames, fresh) = feed t.reassembler chunk in
      (
        notified chunk ∷ before,
        after,
        skipped,
        ap (λ (l : List Moment). notified chunk ∷ l) split,
        Stops-later (notified chunk) r before after stops,
        fed,
        sym (append_assoc t.inbox frames (feed_all fresh (heard_in before)).0) ∙ kept,
        pushes,
        passed,
        count,
        answer,
      )

  -- While a reply is awaited no frame is lost, doubled or reordered: of the frames in the inbox and
  -- in all chunks heard up to the end of the await, those before the reply are not accepted and go to
  -- the push handler, the reply is the first that is accepted, and the others stay in the inbox. The
  -- await ends at the wake-up that finds the reply, or after the last moment in `TTLockError`.
  pub await_reply-routes :
      (command : ℕ) (ms : List Moment) (t : BleTransport)
      → 0 < t.waiting_for_response
      → Routed command ms t (await_reply is_response command ms t)
  unfolding await_reply heard_in remaining IsAnswer Routed feed_all Stops
  await_reply-routes command [] t h =
      ([], [], [], refl, refl, refl, append-nil t.inbox, sym (append-nil t.pushed), tt, refl, refl)
  await_reply-routes command (notified chunk ∷ ms) t h =
      let e = on_notify-waiting t chunk h in
      let routes =
        await_reply-routes command ms (on_notify t chunk)
          (subst (λ (x : BleTransport). 0 < x.waiting_for_response) (sym e) h) in
      let out = await_reply is_response command ms (on_notify t chunk) in
      hear-routes command chunk ms t out
        (subst (λ (x : BleTransport). Routed command ms x out) e routes)
  await_reply-routes command (resumed ∷ ms) t h =
      look-routes command ms (λ t'. await_reply is_response command ms t') t h t.inbox refl
        (await_reply-routes command ms)
