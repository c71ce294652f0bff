-- ===== src/Reassembler/Stream.antt =====
-- The frames do not depend on how the bytes were cut into notifications.
use ttlock_ble.Base.{
  ℕ, zero, suc, ◌+◌, ◌<◌, ◌≡◌, refl, sym, ap, ◌∙◌, arith, List, [], ◌∷◌, ◌++◌, append-nil,
  append_assoc, length, length-append,
}
use ttlock_ble.Base.Bytes.{Bytes}
use ttlock_ble.Frame.{Frame}
use ttlock_ble.Reassembler.{
  Round, stop, skip, emit, round, drain, drain_all, FrameReassembler, new_reassembler, feed,
  feed_all,
}
use ttlock_ble.Reassembler.Step.{Extends, Shrinks, round-append, round-stop}

-- The frames of `a`, in front of what comes of the rest.
abbrev pub before : List Frame → List Frame × Bytes → List Frame × Bytes
before frames p = (frames ++ p.0, p.1)

-- One round of the loop, as an equation about `drain`.
unfoldable pub drain_by : ℕ → Round → List Frame × Bytes
drain_by fuel (stop rest) = ([], rest)
drain_by fuel (skip rest) = drain fuel rest
drain_by fuel (emit frame rest) = before (frame ∷ []) (drain fuel rest)

pub drain-suc : (fuel : ℕ) (a : Bytes) → drain (suc fuel) a ≡ drain_by fuel (round a)
drain-suc fuel a = by_round (round a) refl
  where
    by_round : (r : Round) → round a ≡ r → drain (suc fuel) a ≡ drain_by fuel r
    by_round (stop rest) e = unfold drain drain_by in rw (e, drain)
    by_round (skip rest) e = unfold drain drain_by in rw (e, drain)
    by_round (emit frame rest) e = unfold drain drain_by in rw (e, drain)

drain_by_agree :
    (n m k : ℕ) (r : Round)
    → Shrinks k r
    → ((rest : Bytes) → length rest < k → drain n rest ≡ drain m rest)
    → drain_by n r ≡ drain_by m r
unfolding drain_by
drain_by_agree n m k (stop rest) h ih = refl
drain_by_agree n m k (skip rest) h ih = ih rest h
drain_by_agree n m k (emit frame rest) h ih = ap (before (frame ∷ [])) (ih rest h)

-- Fuel above the length of the buffer is as good as any other.
drain_fuel : (n m : ℕ) (a : Bytes) → length a < n → length a < m → drain n a ≡ drain m a
drain_fuel zero m a p q = absurd (omega arith)
drain_fuel (suc n) zero a p q = absurd (omega arith)
drain_fuel (suc n) (suc m) a p q =
    drain-suc n a
    ∙ drain_by_agree n m (length a) (round a) (round-append a []).1
        (λ rest h. drain_fuel n m rest (omega arith) (omega arith))
    ∙ sym (drain-suc m a)

-- The loop ends by itself: more fuel than the buffer is long changes nothing.
drain-drain_all : (n : ℕ) (a : Bytes) → length a < n → drain n a ≡ drain_all a
drain-drain_all n a h = drain_fuel n (suc (length a)) a h (omega arith)

-- Buffers with the same round have the same frames.
same_round : (a b : Bytes) → round a ≡ round b → drain_all a ≡ drain_all b
same_round a b e =
    let k = length a + length b in
    sym (drain-drain_all (suc k) a (omega arith))
    ∙ drain-suc k a
    ∙ ap (drain_by k) e
    ∙ sym (drain-suc k b)
    ∙ drain-drain_all (suc k) b (omega arith)

drain_all-skip : (a r : Bytes) → round a ≡ skip r → length r < length a → drain_all a ≡ drain_all r
unfolding drain_by
drain_all-skip a r e h =
    drain-suc (length a) a ∙ ap (drain_by (length a)) e ∙ drain-drain_all (length a) r h

pub drain_all-emit :
    (a r : Bytes) (f : Frame)
    → round a ≡ emit f r
    → length r < length a
    → drain_all a ≡ before (f ∷ []) (drain_all r)
unfolding drain_by
drain_all-emit a r f e h =
    drain-suc (length a) a
    ∙ ap (drain_by (length a)) e
    ∙ ap (before (f ∷ [])) (drain-drain_all (length a) r h)

shorter : (r a b : Bytes) → length r < length a → length (r ++ b) < length (a ++ b)
shorter r a b h = omega (arith, length-append {0} r b, length-append {0} a b)

drain-append_fuel :
    (n : ℕ) (a b : Bytes)
    → length a < n
    → drain_all (a ++ b) ≡ before (drain n a).0 (drain_all ((drain n a).1 ++ b))
unfolding drain_by
drain-append_fuel zero a b h = absurd (omega arith)
drain-append_fuel (suc n) a b h =
    by_round (round a) refl (round-append a b).1 (round-append a b).0
      (λ rest p. drain-append_fuel n rest b (omega arith))
    ∙ ap (λ (p : List Frame × Bytes). before p.0 (drain_all (p.1 ++ b))) (sym (drain-suc n a))
  where
    by_round :
        (r : Round)
        → round a ≡ r
        → Shrinks (length a) r
        → Extends r b (round (a ++ b))
        → ((rest : Bytes)
            → length rest < length a
            → drain_all (rest ++ b) ≡ before (drain n rest).0 (drain_all ((drain n rest).1 ++ b)))
        → drain_all (a ++ b) ≡ before (drain_by n r).0 (drain_all ((drain_by n r).1 ++ b))
    by_round (stop rest) e s x ih = same_round (a ++ b) (rest ++ b) (round-stop a b rest e)
    by_round (skip rest) e s x ih =
        drain_all-skip (a ++ b) (rest ++ b) x (shorter rest a b s) ∙ ih rest s
    by_round (emit frame rest) e s x ih =
        drain_all-emit (a ++ b) (rest ++ b) frame x (shorter rest a b s)
        ∙ ap (before (frame ∷ [])) (ih rest s)

drain_all-append :
    (a b : Bytes) → drain_all (a ++ b) ≡ before (drain_all a).0 (drain_all ((drain_all a).1 ++ b))
drain_all-append a b = drain-append_fuel (suc (length a)) a b (omega arith)

append-eq_self {ℓ} : {A : Type ℓ} (xs ys : List A) → xs ≡ xs ++ ys → ys ≡ []
append-eq_self xs [] e = refl
append-eq_self xs (y ∷ ys) e =
    absurd (omega (arith, length-append xs (y ∷ ys), ap {B = ℕ} length e))

-- The buffer holds nothing that could still be taken out.
abbrev pub IsSettled : FrameReassembler → Type 0
IsSettled r = drain_all r.buf ≡ ([], r.buf)

new_reassembler-IsSettled : IsSettled new_reassembler
unfolding drain
new_reassembler-IsSettled = refl

drain_all-settles : (a : Bytes) → drain_all (drain_all a).1 ≡ ([], (drain_all a).1)
drain_all-settles a =
    let p = drain_all a in
    let again : p ≡ before p.0 (drain_all p.1) =
      ap drain_all (sym (append-nil a))
      ∙ drain_all-append a []
      ∙ ap (λ (t : Bytes). before p.0 (drain_all t)) (append-nil p.1) in
    λ i. (
      append-eq_self p.0 (drain_all p.1).0 (ap (λ (q : List Frame × Bytes). q.0) again) i,
      sym (ap (λ (q : List Frame × Bytes). q.1) again) i,
    )

feed-IsSettled : (r : FrameReassembler) (chunk : Bytes) → IsSettled (feed r chunk).1
unfolding feed
feed-IsSettled r chunk = drain_all-settles (r.buf ++ chunk)

abbrev pub join : List Bytes → Bytes
join [] = []
join (chunk ∷ chunks) = chunk ++ join chunks

feed_all-join_settled :
    (r : FrameReassembler) (chunks : List Bytes)
    → IsSettled r
    → feed_all r chunks ≡ feed r (join chunks)
unfolding feed_all
feed_all-join_settled r [] h =
    let same : drain_all (r.buf ++ []) ≡ ([], r.buf) = ap drain_all (append-nil r.buf) ∙ h in
    λ i. (
      sym (ap (λ (q : List Frame × Bytes). q.0) same) i,
      record { buf = sym (ap (λ (q : List Frame × Bytes). q.1) same) i },
    )
feed_all-join_settled r (chunk ∷ chunks) h =
    let (frames, r') = feed r chunk in
    let whole : drain_all (r.buf ++ (chunk ++ join chunks))
        ≡ before frames (drain_all (r'.buf ++ join chunks)) =
      ap drain_all (sym (append_assoc r.buf chunk (join chunks)))
      ∙ drain_all-append (r.buf ++ chunk) (join chunks) in
    let rest = feed_all-join_settled r' chunks (feed-IsSettled r chunk) in
    ap (λ (q : List Frame × FrameReassembler). (frames ++ q.0, q.1)) rest
    ∙ ap (λ (q : List Frame × Bytes). (q.0, record { buf = q.1 })) (sym whole)

-- However the bytes of a connection are cut into notifications, the same frames come out, and the
-- same bytes stay in the buffer, as if all had arrived at once.
pub feed_all-join :
    (chunks : List Bytes) → feed_all new_reassembler chunks ≡ feed new_reassembler (join chunks)
feed_all-join chunks = feed_all-join_settled new_reassembler chunks new_reassembler-IsSettled
