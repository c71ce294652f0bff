-- ===== src/Reassembler/Bound.antt =====
-- The buffer stays small: the wait for a declared length is bounded by the length byte.
use ttlock_ble.Base.{
  ℕ, zero, suc, ◌+◌, ◌-◌, ◌≤◌, ◌<◌, ◌≡◌, refl, arith, Bool, true, false, [], ◌∷◌, ◌++◌, inl, inr,
  Option, none, some, length, length-drop, take, drop, get_elem?, All, All-append, All-drop,
  Bool-cases, ltb, ltb→lt,
}
use ttlock_ble.Base.Bytes.{Bytes, IsByte, equal}
use ttlock_ble.Frame.{Frame, parse, trailer}
use ttlock_ble.Outcome.{Result, ok, raised}
use ttlock_ble.Reassembler.{
  Round, stop, skip, emit, declared_frame_len, find_header, is_missync, take_frame, try_frame,
  at_header, round, drain, FrameReassembler, feed,
}
use ttlock_ble.Reassembler.Step.{round-append, round-none, round-some, Shrinks}
use ttlock_ble.Reassembler.Stream.{drain_by, drain-suc}

-- Every byte fits, and what a round leaves for good is below 270 bytes.
abbrev Small : Round → Type 0
Small (stop r) = All IsByte r × (length r < 270)
Small (skip r) = All IsByte r
Small (emit f r) = All IsByte r

get_elem?-IsByte : (a : Bytes) (i n : ℕ) → All IsByte a → get_elem? a i ≡ some n → n < 256
get_elem?-IsByte [] i n h e = absurd (ground arith)
get_elem?-IsByte (x ∷ a) zero n h e = ground arith
get_elem?-IsByte (x ∷ a) (suc i) n h e = get_elem?-IsByte a i n h.1 e

get_elem?-eq-none : (a : Bytes) (i : ℕ) → get_elem? a i ≡ none → length a ≤ i
get_elem?-eq-none [] i e = omega arith
get_elem?-eq-none (x ∷ a) zero e = absurd (ground arith)
get_elem?-eq-none (x ∷ a) (suc i) e = omega (arith, get_elem?-eq-none a i e)

take_frame-Small : (size : ℕ) (a : Bytes) → All IsByte a → Small (take_frame size a)
unfolding take_frame
take_frame-Small size a h =
    cases (equal (take (size - (size - 2)) (drop (size - 2) a)) trailer) (parse (take (size - 2) a))
      refl refl
  where
    cases :
        (t : Bool) (p : Result Frame)
        → equal (take (size - (size - 2)) (drop (size - 2) a)) trailer ≡ t
        → parse (take (size - 2) a) ≡ p
        → Small (take_frame size a)
    cases false p et ep = rw et (All-drop IsByte 2 a h)
    cases true (ok f) et ep = rw et (rw ep (All-drop IsByte size a h))
    cases true (raised e) et ep = rw et (rw ep (All-drop IsByte size a h))

at_header-Small : (a : Bytes) → All IsByte a → Small (at_header a)
unfolding at_header
at_header-Small a h = elim (Bool-cases (is_missync a)) [
  | inl old ↦ rw (old, at_header) (All-drop IsByte 2 a h)
  | inr new ↦ rw (new, at_header) (declared (get_elem? a 11) refl)
]
  where
    declared : (o : Option ℕ) → get_elem? a 11 ≡ o → Small (try_frame (declared_frame_len a) a)
    declared none e = rw (e, declared_frame_len) (h, omega (arith, get_elem?-eq-none a 11 e))
    declared (some d) e =
        rw (e, declared_frame_len)
          (elim (Bool-cases (ltb (length a) (12 + d + 1 + 2))) [
            | inl short ↦
                rw (short, try_frame)
                  (h, omega (arith, get_elem?-IsByte a 11 d h e, ltb→lt _ _ short))
            | inr enough ↦ rw (enough, try_frame) (take_frame-Small (12 + d + 1 + 2) a h)
          ])

round-Small : (a : Bytes) → All IsByte a → Small (round a)
round-Small a h = found (find_header a) refl
  where
    found : (o : Option ℕ) → find_header a ≡ o → Small (round a)
    found none e =
        rw (round-none a e)
          (All-drop IsByte (length a - 1) a h, omega (arith, length-drop {0} (length a - 1) a))
    found (some i) e = rw (round-some a i e) (at_header-Small (drop i a) (All-drop IsByte i a h))

drain-Small :
    (n : ℕ) (a : Bytes)
    → length a < n
    → All IsByte a
    → All IsByte (drain n a).1 × (length (drain n a).1 < 270)
unfolding drain_by
drain-Small zero a p h = absurd (omega arith)
drain-Small (suc n) a p h = rw (drain-suc n a) (
    by_round (round a) (round-append a []).1 (round-Small a h)
      (λ rest q k. drain-Small n rest (omega arith) k))
  where
    by_round :
        (r : Round)
        → Shrinks (length a) r
        → Small r
        → ((rest : Bytes)
            → length rest < length a
            → All IsByte rest
            → All IsByte (drain n rest).1 × (length (drain n rest).1 < 270))
        → All IsByte (drain_by n r).1 × (length (drain_by n r).1 < 270)
    by_round (stop rest) s k ih = k
    by_round (skip rest) s k ih = ih rest s k
    by_round (emit f rest) s k ih = ih rest s k

-- After any notification the buffer holds bytes, and fewer than 270: a corrupt length byte cannot
-- make it wait for more.
pub feed-bounds :
    (r : FrameReassembler) (chunk : Bytes)
    → All IsByte r.buf
    → All IsByte chunk
    → All IsByte (feed r chunk).1.buf × (length (feed r chunk).1.buf < 270)
unfolding feed
feed-bounds r chunk h k =
    drain-Small (suc (length (r.buf ++ chunk))) (r.buf ++ chunk) (omega arith)
      (All-append IsByte r.buf chunk h k)
