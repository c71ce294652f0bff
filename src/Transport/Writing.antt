-- ===== src/Transport/Writing.antt =====
-- The chunks of one frame on the wire, and what a link without failures writes.
use ttlock_ble.Base.{
  none, ℕ, zero, suc, ◌≤◌, ◌≡◌, refl, sym, ap, ◌∙◌, arith, true, List, [], ◌∷◌, ◌++◌, append-nil,
  append_assoc, length, take, drop, if◌then◌else◌, All, length-take, length-drop,
}
use ttlock_ble.Base.Bytes.{Bytes}
use ttlock_ble.Frame.{Frame, build}
use ttlock_ble.Outcome.{ok, raised, assertion_error}
use ttlock_ble.Transport.{
  BleTransport, WriteTurn, on_notify, on_notify_all, ble_write_chunk, chunks_of, write_one,
  write_all, send_wire, send,
}

-- The chunks one after the other.
pub join_chunks : List Bytes → Bytes
join_chunks [] = []
join_chunks (chunk ∷ chunks) = chunk ++ join_chunks chunks

-- A chunk that `write_gatt_char` takes: no empty one, and at most 20 bytes.
pub IsChunk : Bytes → Type 0
IsChunk chunk = (1 ≤ length chunk) × (length chunk ≤ ble_write_chunk)

take-drop : (n : ℕ) (xs : Bytes) → take n xs ++ drop n xs ≡ xs
take-drop zero xs = refl
take-drop (suc n) [] = refl
take-drop (suc n) (x ∷ xs) = rw (take-drop n xs)

chunks_of-All :
    (fuel : ℕ) (wire : Bytes)
    → length wire ≤ fuel
    → (join_chunks (chunks_of fuel wire) ≡ wire) × All IsChunk (chunks_of fuel wire)
unfolding join_chunks chunks_of IsChunk
chunks_of-All zero [] h = (refl, tt)
chunks_of-All zero (b ∷ bs) h = absurd (omega arith)
chunks_of-All (suc fuel) [] h = (refl, tt)
chunks_of-All (suc fuel) (b ∷ bs) h =
    let short : length (drop 19 bs) ≤ fuel = omega (arith, length-drop 19 bs) in
    let (joined, sized) = chunks_of-All fuel (drop 19 bs) short in
    (
      rw joined (ap (λ (xs : Bytes). b ∷ xs) (take-drop 19 bs)),
      ((omega arith, omega (arith, length-take 19 bs)), sized),
    )

abbrev pub IsQuiet : List WriteTurn → Type 0
IsQuiet ws = All (λ w. WriteTurn.failure w ≡ none) ws

on_notify-written : (t : BleTransport) (chunk : Bytes) → (on_notify t chunk).written ≡ t.written
unfolding on_notify
on_notify-written t chunk = ground arith

on_notify_all-written :
    (t : BleTransport) (chunks : List Bytes) → (on_notify_all t chunks).written ≡ t.written
unfolding on_notify_all
on_notify_all-written t [] = refl
on_notify_all-written t (chunk ∷ chunks) =
    on_notify_all-written (on_notify t chunk) chunks ∙ on_notify-written t chunk

write_all-quiet :
    (t : BleTransport) (ws : List WriteTurn) (chunks : List Bytes)
    → IsQuiet ws
    → ((write_all t ws chunks).0 ≡ ok tt)
      × ((write_all t ws chunks).1.written ≡ t.written ++ chunks)
unfolding write_all write_one
write_all-quiet t ws [] q = (refl, sym (append-nil t.written))
write_all-quiet t [] (chunk ∷ chunks) q =
    let (r, w) = write_all-quiet (record t { written = t.written ++ chunk ∷ [] }) [] chunks tt in
    (r, w ∙ append_assoc t.written (chunk ∷ []) chunks)
write_all-quiet t (w ∷ ws) (chunk ∷ chunks) (e, q) =
    let t' = on_notify_all t w.heard in
    let (r, out) = write_all-quiet (record t' { written = t'.written ++ chunk ∷ [] }) ws chunks q in
    rw e (
      r,
      out
          ∙ append_assoc t'.written (chunk ∷ []) chunks
          ∙ ap (λ (l : List Bytes). l ++ chunk ∷ chunks) (on_notify_all-written t w.heard),
    )

send-linked :
    (t : BleTransport) (ws : List WriteTurn) (frame : Frame) (wire : Bytes)
    → t.linked ≡ true
    → build frame ≡ ok wire
    → send t ws frame
      ≡ write_all (record t { sent = t.sent ++ frame ∷ [] }) ws (chunks_of (length wire) wire)
unfolding send send_wire
send-linked t ws frame wire linked built =
    ap (λ b. if b then send_wire t ws frame (build frame) else (raised assertion_error, t)) linked
    ∙ ap (send_wire t ws frame) built

-- On a connected link whose writes succeed, `send` of a frame that can be built returns, and what
-- it has written are chunks of one to 20 bytes that together are the frame's bytes.
pub send-writes :
    (t : BleTransport) (ws : List WriteTurn) (frame : Frame) (wire : Bytes)
    → t.linked ≡ true
    → IsQuiet ws
    → build frame ≡ ok wire
    → ((send t ws frame).0 ≡ ok tt)
      × ((chunks : List Bytes) × ((send t ws frame).1.written ≡ t.written ++ chunks)
          × (join_chunks chunks ≡ wire)
          × All IsChunk chunks)
send-writes t ws frame wire linked quiet built =
    let (r, w) =
      write_all-quiet (record t { sent = t.sent ++ frame ∷ [] }) ws (chunks_of (length wire) wire)
        quiet in
    let (joined, sized) = chunks_of-All (length wire) wire (omega arith) in
    let e = send-linked t ws frame wire linked built in
    (
      ap (λ p. p.0) e ∙ r,
      (chunks_of (length wire) wire, ap (λ p. p.1.written) e ∙ w, joined, sized),
    )
