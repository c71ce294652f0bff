-- ===== src/Reassembler/Delivery.antt =====
-- Frames that `Frame.build` wrote come out whole, behind any bytes without a header.
use ttlock_ble.Base.{
  ℕ, suc, ◌+◌, ◌-◌, ◌≡◌, refl, sym, ap, ◌∙◌, arith, false, List, [], ◌∷◌, ◌++◌, append_assoc,
  length, length-append, none, some, drop, take-length, drop-length, All, ltb, le→ltb,
}
use ttlock_ble.Base.Bytes.{Bytes, equal}
use ttlock_ble.Crypto.{table_crc}
use ttlock_ble.Frame.{Frame, build, body, parse, trailer}
use ttlock_ble.Frame.RoundTrip.{IsV3, v3_head, body-IsV3, parse-body, build-body}
use ttlock_ble.Outcome.{Result, ok, ◌>>=◌}
use ttlock_ble.Reassembler.{
  emit, find_header, take_frame, try_frame, at_header, round, drain, drain_all, new_reassembler,
  feed, feed_all,
}
use ttlock_ble.Reassembler.Step.{first_misses, round-some}
use ttlock_ble.Reassembler.Stream.{drain_all-emit, before, join, feed_all-join}

drop-trailer : (front rest : Bytes) → drop (length front + 2) (front ++ (trailer ++ rest)) ≡ rest
drop-trailer [] rest = refl
drop-trailer (x ∷ front) rest =
    let e : suc (length front) + 2 ≡ suc (length front + 2) = omega arith in
    ap (λ (n : ℕ). drop n (x ∷ (front ++ (trailer ++ rest)))) e ∙ drop-trailer front rest

take_frame-whole :
    (f : Frame) (front rest : Bytes)
    → parse front ≡ ok f
    → take_frame (length front + 2) (front ++ (trailer ++ rest)) ≡ emit f rest
unfolding take_frame equal
take_frame-whole f front rest p =
    let back : length front + 2 - 2 ≡ length front = omega arith in
    let two : length front + 2 - length front ≡ 2 = omega arith in
    rw (back, two, drop-length front (trailer ++ rest), take-length front (trailer ++ rest), p)
      (ap (emit f) (drop-trailer front rest))

at_header-v3_head :
    (f : Frame) (content : Bytes)
    → IsV3 f
    → at_header (v3_head f content)
      ≡ try_frame (some (12 + length f.payload + 1 + 2)) (v3_head f content)
unfolding at_header
at_header-v3_head f content v = ground arith

-- The bytes of one frame, then others.
abbrev framed : Frame → Bytes → Bytes
framed f rest = (body f ++ (table_crc (body f) ∷ [])) ++ (trailer ++ rest)

at_header-framed : (f : Frame) (rest : Bytes) → IsV3 f → at_header (framed f rest) ≡ emit f rest
at_header-framed f rest v =
    let crc = table_crc (body f) in
    let front = body f ++ (crc ∷ []) in
    let size : 12 + length f.payload + 1 + 2 ≡ length front + 2 =
      omega (arith, length-append {0} (body f) (crc ∷ []), ap {B = ℕ} length (body-IsV3 f v)) in
    let head : framed f rest ≡ v3_head f ((f.payload ++ (crc ∷ [])) ++ (trailer ++ rest)) =
      ap (λ (b : Bytes). (b ++ (crc ∷ [])) ++ (trailer ++ rest)) (body-IsV3 f v) in
    let enough : ltb (length (framed f rest)) (length front + 2) ≡ false =
      le→ltb _ _ (omega (arith, length-append {0} front (trailer ++ rest))) in
    ap at_header head
    ∙ at_header-v3_head f _ v
    ∙ ap (try_frame (some (12 + length f.payload + 1 + 2))) (sym head)
    ∙ ap (λ (n : ℕ). try_frame (some n) (framed f rest)) size
    ∙ unfold_try (length front + 2) (framed f rest) enough
    ∙ take_frame-whole f front rest (parse-body f (crc ∷ []) v)
  where
    unfold_try :
        (n : ℕ) (w : Bytes) → ltb (length w) n ≡ false → try_frame (some n) w ≡ take_frame n w
    unfold_try n w e = unfold try_frame in rw e

header_found :
    (junk w : Bytes)
    → find_header junk ≡ none
    → find_header (junk ++ (0x7f ∷ 0x5a ∷ w)) ≡ some (length junk)
unfolding find_header
header_found [] w e = refl
header_found (x ∷ []) w e = ground arith
header_found (x ∷ y ∷ junk) w e =
    let (here, later) = first_misses x y junk e in rw (here, header_found (y ∷ junk) w later)

round-framed :
    (junk : Bytes) (f : Frame) (rest : Bytes)
    → find_header junk ≡ none
    → IsV3 f
    → round (junk ++ framed f rest) ≡ emit f rest
round-framed junk f rest e v =
    let crc = table_crc (body f) in
    let head : framed f rest ≡ v3_head f ((f.payload ++ (crc ∷ [])) ++ (trailer ++ rest)) =
      ap (λ (b : Bytes). (b ++ (crc ∷ [])) ++ (trailer ++ rest)) (body-IsV3 f v) in
    round-some _ (length junk)
      (ap (λ (w : Bytes). find_header (junk ++ w)) head ∙ header_found junk _ e)
    ∙ ap at_header (drop-length junk (framed f rest))
    ∙ at_header-framed f rest v

-- The bytes that a sender puts on the wire for a list of frames.
abbrev pub build_all : List Frame → Result Bytes
build_all [] = ok []
build_all (f ∷ fs) = do wire ← build f; wires ← build_all fs; ok (wire ++ wires)

framed_all : List Frame → Bytes
framed_all [] = []
framed_all (f ∷ fs) = framed f (framed_all fs)

build_all-framed_all : (fs : List Frame) → build_all fs ≡ ok (framed_all fs)
unfolding framed_all
build_all-framed_all [] = refl
build_all-framed_all (f ∷ fs) =
    rw (build-body f, build_all-framed_all fs)
      (ap ok (
        append_assoc (body f) (table_crc (body f) ∷ trailer) (framed_all fs)
        ∙ sym (append_assoc (body f) (table_crc (body f) ∷ []) (trailer ++ framed_all fs))))

drain_all-framed :
    (junk : Bytes) (f : Frame) (rest : Bytes)
    → find_header junk ≡ none
    → IsV3 f
    → drain_all (junk ++ framed f rest) ≡ before (f ∷ []) (drain_all rest)
drain_all-framed junk f rest e v = drain_all-emit _ rest f (round-framed junk f rest e v) (
    omega (
      arith,
      length-append {0} junk (framed f rest),
      length-append {0} (body f ++ (table_crc (body f) ∷ [])) (trailer ++ rest),
      length-append {0} trailer rest,
    ))

drain_all-nil : drain_all [] ≡ ([], [])
unfolding drain
drain_all-nil = refl

find_header-nil : find_header [] ≡ none
unfolding find_header
find_header-nil = refl

drain_all-framed_all : (fs : List Frame) → All IsV3 fs → drain_all (framed_all fs) ≡ (fs, [])
unfolding framed_all
drain_all-framed_all [] h = drain_all-nil
drain_all-framed_all (f ∷ fs) (v, h) =
    drain_all-framed [] f (framed_all fs) find_header-nil v
    ∙ ap (before (f ∷ [])) (drain_all-framed_all fs h)

-- Frames that fit the wire, written one after the other behind bytes without a header and cut into
-- notifications at any places, come out once each, in order, and leave the buffer empty.
pub feed_all-delivers :
    (junk : Bytes) (f : Frame) (fs : List Frame) (wires : Bytes) (chunks : List Bytes)
    → find_header junk ≡ none
    → All IsV3 (f ∷ fs)
    → build_all (f ∷ fs) ≡ ok wires
    → join chunks ≡ junk ++ wires
    → feed_all new_reassembler chunks ≡ (f ∷ fs, new_reassembler)
unfolding feed framed_all
feed_all-delivers junk f fs wires chunks e (v, h) sent cut =
    let wire : wires ≡ framed_all (f ∷ fs) = cc (build_all-framed_all (f ∷ fs)) in
    let all : drain_all (join chunks) ≡ (f ∷ fs, []) =
      ap drain_all (cut ∙ ap (λ (w : Bytes). junk ++ w) wire) ∙ framed_first in
    feed_all-join chunks ∙ ap (λ (q : List Frame × Bytes). (q.0, record { buf = q.1 })) all
  where
    framed_first : drain_all (junk ++ framed f (framed_all fs)) ≡ (f ∷ fs, [])
    framed_first =
        drain_all-framed junk f (framed_all fs) e v
        ∙ ap (before (f ∷ [])) (drain_all-framed_all fs h)
