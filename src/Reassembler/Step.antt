-- ===== src/Reassembler/Step.antt =====
-- One round of the loop: it does not depend on the bytes that come later, and it shrinks the buffer.
use ttlock_ble.Base.{
  ℕ, zero, suc, ◌+◌, ◌-◌, ◌≤◌, ◌<◌, ◌≡◌, refl, sym, ap, ◌∙◌, arith, Bool, true, false, ◌&&◌, [],
  ◌∷◌, ◌++◌, Option, none, some, inl, inr, Bool-cases, Option-cases, length, length-append,
  length-drop, take, drop, slice, get_elem?, take-append, drop-append, ltb, ◌==◌, if◌then◌else◌,
  le→ltb, ltb→le,
}
use ttlock_ble.Base.Bytes.{Bytes, equal}
use ttlock_ble.Frame.{Frame, parse, trailer}
use ttlock_ble.Outcome.{Result, ok, raised}
use ttlock_ble.Reassembler.{
  Round, succ_of, stop, skip, emit, declared_frame_len, find_header, take_frame, try_frame,
  at_header, from_found, round,
}

-- What the round on more bytes must be, if the shorter buffer was enough to go on.
abbrev pub Extends : Round → Bytes → Round → Type 0
Extends (stop r) b longer = Unit
Extends (skip r) b longer = longer ≡ skip (r ++ b)
Extends (emit f r) b longer = longer ≡ emit f (r ++ b)

abbrev pub Shrinks : ℕ → Round → Type 0
Shrinks n (stop r) = length r ≤ n
Shrinks n (skip r) = length r < n
Shrinks n (emit f r) = length r < n

Shrinks-mono : (n m : ℕ) (r : Round) → n ≤ m → Shrinks n r → Shrinks m r
Shrinks-mono n m (stop r) h k = omega arith
Shrinks-mono n m (skip r) h k = omega arith
Shrinks-mono n m (emit f r) h k = omega arith

find_header-append :
    (a b : Bytes) (i : ℕ)
    → find_header a ≡ some i
    → (find_header (a ++ b) ≡ some i) × (i + 2 ≤ length a)
unfolding find_header
find_header-append [] b i h = absurd (ground arith)
find_header-append (x ∷ []) b i h = absurd (ground arith)
find_header-append (x ∷ y ∷ rest) b i h = elim (Option-cases (find_header (y ∷ rest))) [
  | inl e ↦ ground arith
  | inr (j, e) ↦ ground (arith, find_header-append (y ∷ rest) b j e)
]

get_elem?-append_some :
    (a b : Bytes) (i n : ℕ) → get_elem? a i ≡ some n → get_elem? (a ++ b) i ≡ some n
get_elem?-append_some [] b i n h = absurd (ground arith)
get_elem?-append_some (x ∷ a) b zero n h = h
get_elem?-append_some (x ∷ a) b (suc i) n h = get_elem?-append_some a b i n h

take_frame-append :
    (size : ℕ) (a b : Bytes)
    → 2 ≤ size
    → size ≤ length a
    → Extends (take_frame size a) b (take_frame size (a ++ b))
      × Shrinks (length a) (take_frame size a)
unfolding take_frame
take_frame-append size a b lo h =
    let front : take (size - 2) (a ++ b) ≡ take (size - 2) a =
      take-append (size - 2) a b (omega arith) in
    let behind : drop (size - 2) (a ++ b) ≡ drop (size - 2) a ++ b =
      drop-append (size - 2) a b (omega arith) in
    let mark : slice (size - 2) size (a ++ b) ≡ slice (size - 2) size a =
      ap (take (size - (size - 2))) behind
      ∙ take-append (size - (size - 2)) (drop (size - 2) a) b
          (omega (arith, length-drop {0} (size - 2) a)) in
    cases (equal (slice (size - 2) size a) trailer) (parse (take (size - 2) a)) refl refl front mark
  where
    cases :
        (t : Bool) (p : Result Frame)
        → equal (slice (size - 2) size a) trailer ≡ t
        → parse (take (size - 2) a) ≡ p
        → take (size - 2) (a ++ b) ≡ take (size - 2) a
        → slice (size - 2) size (a ++ b) ≡ slice (size - 2) size a
        → Extends (take_frame size a) b (take_frame size (a ++ b))
          × Shrinks (length a) (take_frame size a)
    cases false p et ep front mark =
        rw (mark, et)
          (ap skip (drop-append 2 a b (omega arith)), omega (arith, length-drop {0} 2 a))
    cases true (ok f) et ep front mark =
        rw (mark, et)
          (rw (front, ep)
            (ap (emit f) (drop-append size a b h), omega (arith, length-drop {0} size a)))
    cases true (raised e) et ep front mark =
        rw (mark, et)
          (rw (front, ep) (ap skip (drop-append size a b h), omega (arith, length-drop {0} size a)))

try_frame-append :
    (size : ℕ) (a b : Bytes)
    → 2 ≤ size
    → Extends (try_frame (some size) a) b (try_frame (some size) (a ++ b))
      × Shrinks (length a) (try_frame (some size) a)
unfolding try_frame
try_frame-append size a b lo = elim (Bool-cases (ltb (length a) size)) [
  | inl short ↦ rw short (tt, omega arith)
  | inr enough ↦
      rw
        (
          enough,
          le→ltb (length (a ++ b)) size (omega (arith, length-append {0} a b, ltb→le _ _ enough)),
        )
        (take_frame-append size a b lo (ltb→le _ _ enough))
]

declared_frame_len-append :
    (a b : Bytes) (size : ℕ)
    → declared_frame_len a ≡ some size
    → (declared_frame_len (a ++ b) ≡ some size) × (2 ≤ size)
unfolding declared_frame_len
declared_frame_len-append a b size h = elim (Option-cases (get_elem? a 11)) [
  | inl e ↦ absurd (ground arith)
  | inr (n, e) ↦ ground (arith, get_elem?-append_some a b 11 n e)
]

at_header-append :
    (a b : Bytes) → Extends (at_header a) b (at_header (a ++ b)) × Shrinks (length a) (at_header a)
unfolding at_header
at_header-append [] b = (tt, omega arith)
at_header-append (x ∷ []) b = (tt, omega arith)
at_header-append (x ∷ y ∷ []) b = (tt, omega arith)
at_header-append (x ∷ y ∷ z ∷ rest) b = elim (Bool-cases (ltb z 5)) [
  | inl old ↦ rw old (refl, omega arith)
  | inr new ↦ rw new (declared (declared_frame_len (x ∷ y ∷ z ∷ rest)) refl)
]
  where
    declared :
        (o : Option ℕ)
        → declared_frame_len (x ∷ y ∷ z ∷ rest) ≡ o
        → Extends
            (try_frame o (x ∷ y ∷ z ∷ rest))
            b
            (try_frame (declared_frame_len (x ∷ y ∷ z ∷ rest ++ b)) (x ∷ y ∷ z ∷ rest ++ b))
          × Shrinks (length (x ∷ y ∷ z ∷ rest)) (try_frame o (x ∷ y ∷ z ∷ rest))
    declared none e = (tt, omega arith)
    declared (some size) e =
        let (e', lo) = declared_frame_len-append (x ∷ y ∷ z ∷ rest) b size e in
        rw e' (try_frame-append size (x ∷ y ∷ z ∷ rest) b lo)

at_header-eq-stop : (a r : Bytes) → at_header a ≡ stop r → r ≡ a
unfolding at_header
at_header-eq-stop a r h = ground arith

pub first_misses :
    (x y : ℕ) (rest : Bytes)
    → find_header (x ∷ y ∷ rest) ≡ none
    → ((x == 0x7f && y == 0x5a) ≡ false) × (find_header (y ∷ rest) ≡ none)
unfolding find_header
first_misses x y rest h = elim (Option-cases (find_header (y ∷ rest))) [
  | inl e ↦ (ground arith, e)
  | inr (i, e) ↦ absurd (ground arith)
]

-- A byte pair that is no header is passed over.
passed :
    (x y : ℕ) (rest : Bytes)
    → (x == 0x7f && y == 0x5a) ≡ false
    → round (x ∷ y ∷ rest) ≡ round (y ∷ rest)
unfolding round
passed x y rest h = rw h (found (find_header (y ∷ rest)))
  where
    found : (o : Option ℕ) → from_found (succ_of o) (x ∷ y ∷ rest) ≡ from_found o (y ∷ rest)
    found none =
        let kept : suc (suc (length rest)) - 1 ≡ suc (suc (length rest) - 1) = omega arith in
        ap (λ (n : ℕ). stop (drop n (x ∷ y ∷ rest))) kept
    found (some i) = refl

-- A buffer without a header may be cut to its last byte.
none-append :
    (a b : Bytes) → find_header a ≡ none → round (a ++ b) ≡ round (drop (length a - 1) a ++ b)
none-append [] b h = refl
none-append (x ∷ []) b h = refl
none-append (x ∷ y ∷ rest) b h =
    let (here, later) = first_misses x y rest h in
    let kept : suc (suc (length rest)) - 1 ≡ suc (suc (length rest) - 1) = omega arith in
    passed x y (rest ++ b) here
    ∙ none-append (y ∷ rest) b later
    ∙ ap (λ (n : ℕ). round (drop n (x ∷ y ∷ rest) ++ b)) (sym kept)

-- What a round makes of a buffer it also makes of every longer one, up to the bytes added.
pub round-append :
    (a b : Bytes) → Extends (round a) b (round (a ++ b)) × Shrinks (length a) (round a)
unfolding round
round-append a b = found (find_header a) refl
  where
    found :
        (o : Option ℕ)
        → find_header a ≡ o
        → Extends (from_found o a) b (from_found (find_header (a ++ b)) (a ++ b))
          × Shrinks (length a) (from_found o a)
    found none e = (tt, omega (arith, length-drop {0} (length a - 1) a))
    found (some i) e =
        let (e', fits) = find_header-append a b i e in
        rw e' (
          rw (drop-append i a b (omega arith)) (
            (at_header-append (drop i a) b).0,
            Shrinks-mono (length (drop i a)) (length a) (at_header (drop i a))
                (omega (arith, length-drop {0} i a)) (at_header-append (drop i a) b).1,
          ))

find_header-drop : (a : Bytes) (i : ℕ) → find_header a ≡ some i → find_header (drop i a) ≡ some 0
unfolding find_header
find_header-drop [] i h = absurd (ground arith)
find_header-drop (x ∷ []) i h = absurd (ground arith)
find_header-drop (x ∷ y ∷ rest) zero h = elim (Bool-cases (x == 0x7f && y == 0x5a)) [
  | inl e ↦ rw e
  | inr e ↦ absurd (unfound (find_header (y ∷ rest)) (rw e at h))
]
  where
    unfound : (o : Option ℕ) → succ_of o ≡ some 0 → ⊥
    unfound none h = cc
    unfound (some i) h = ground arith
find_header-drop (x ∷ y ∷ rest) (suc i) h =
    find_header-drop (y ∷ rest) i (later (find_header (y ∷ rest)) h)
  where
    later :
        (o : Option ℕ)
        → (if x == 0x7f && y == 0x5a then some 0 else succ_of o) ≡ some (suc i)
        → o ≡ some i
    later none h = ground arith
    later (some j) h = ground arith

pub round-none : (a : Bytes) → find_header a ≡ none → round a ≡ stop (drop (length a - 1) a)
unfolding round
round-none a e = rw e

pub round-some : (a : Bytes) (i : ℕ) → find_header a ≡ some i → round a ≡ at_header (drop i a)
unfolding round
round-some a i e = rw e

-- A round that stops leaves a buffer that stands for the old one, whatever is added.
pub round-stop : (a b r : Bytes) → round a ≡ stop r → round (a ++ b) ≡ round (r ++ b)
round-stop a b r h = found (find_header a) refl
  where
    found : (o : Option ℕ) → find_header a ≡ o → round (a ++ b) ≡ round (r ++ b)
    found none e =
        let left : drop (length a - 1) a ≡ r = cc (round-none a e) in
        none-append a b e ∙ ap (λ (t : Bytes). round (t ++ b)) left
    found (some i) e =
        let left : r ≡ drop i a = at_header-eq-stop (drop i a) r (sym (round-some a i e) ∙ h) in
        let (e', fits) = find_header-append a b i e in
        let (e'', _) = find_header-append (drop i a) b 0 (find_header-drop a i e) in
        round-some (a ++ b) i e'
        ∙ ap at_header (drop-append i a b (omega arith))
        ∙ sym (round-some (drop i a ++ b) 0 e'')
        ∙ ap (λ (t : Bytes). round (t ++ b)) (sym left)
