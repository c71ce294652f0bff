-- ===== src/Client/Log/Returned.antt =====
-- The entries of a page are numbered down from its sequence, so the returned list has no doubles.
use ttlock_ble.Base.{
  ℕ, zero, suc, ◌+◌, ◌≤◌, ◌<◌, ◌≡◌, refl, sym, subst, ap, ◌∙◌, arith, Bool, Bool-cases, inl, inr,
  true, false, ◌||◌, List, [], ◌∷◌, ◌++◌, Option, none, some, length, length-append, slice, take,
  not, ltb, ◌==◌, if◌then◌else◌,
}
use ttlock_ble.Base.Bytes.{Bytes, from_bytes}
use ttlock_ble.Client.Act.{Act, Session, continue, fold}
use ttlock_ble.Client.Core.{Client, round_trip}
use ttlock_ble.Client.Log.{
  same_number, is_seen, record_numbers, Page, finished, onward, judge, proceed, query_log,
  log_rounds, get_operation_log,
}
use ttlock_ble.Client.Log.Entries.{
  AreDistinct, AreEntries, IsFair, is_seen-append, append-AreDistinct, record_numbers-append,
  judge-IsFair, same_number-eq,
}
use ttlock_ble.Commands.LogRecord.{LogEntry, decode_log_record}
use ttlock_ble.Commands.OperateLog.{
  payload_operate_log_request, read_record, read_records, parse_operate_log_response,
}
use ttlock_ble.Encoding.{response_success, parse_response_status}
use ttlock_ble.Opcodes.{cmd_get_operate_log}
use ttlock_ble.Outcome.{Result, ok, raised, Exn, fold_value_error, ◌>>=◌}
use ttlock_ble.Outcome.Access.{byte_at}
use ttlock_ble.Text.{ℤ, negsuc, add_ℕ}

-- The predicate on what is returned, if something is.
pub Returns : {A : Type 0} → (A → Type 0) → Result A → Type 0
Returns P (ok a) = P a
Returns P (raised e) = Unit

Returns->>= :
    {A B : Type 0} (Q : A → Type 0) (P : B → Type 0) (r : Result A) (f : A → Result B)
    → Returns Q r
    → ((a : A) → Q a → Returns P (f a))
    → Returns P (r >>= f)
unfolding Returns
Returns->>= Q P (ok a) f h k = k a h
Returns->>= Q P (raised e) f h k = tt

Returns-any : {A : Type 0} (r : Result A) → Returns (λ _. Unit {0}) r
unfolding Returns
Returns-any (ok a) = tt
Returns-any (raised e) = tt

countdown-apart :
    (s j k : ℕ) → k < j → same_number (add_ℕ s (negsuc j)) (add_ℕ s (negsuc k)) ≡ false
unfolding same_number add_ℕ
countdown-apart s j k h = ground arith

-- Entries read so far: no doubles, and the numbers still to come are not among them.
AreCounted : ℕ → List LogEntry → Type 0
AreCounted s es =
    AreDistinct (record_numbers es)
    × ((j : ℕ) → length es ≤ j → is_seen (add_ℕ s (negsuc j)) (record_numbers es) ≡ false)

counted-snoc :
    (s : ℕ) (es : List LogEntry) (e : LogEntry)
    → AreCounted s es
    → e.record_number ≡ add_ℕ s (negsuc (length es))
    → AreCounted s (es ++ e ∷ [])
unfolding AreCounted AreDistinct is_seen record_numbers
counted-snoc s es e (d, fresh) n =
    let ns = record_numbers es in
    let whole = record_numbers-append es (e ∷ []) in
    (
      subst AreDistinct (sym whole) (
          append-AreDistinct ns (e.record_number ∷ []) d (refl, tt)
            (λ m seen. elim (Bool-cases (same_number m e.record_number)) [
              | inl same ↦
                  let eq : m ≡ add_ℕ s (negsuc (length es)) =
                    same_number-eq m e.record_number same ∙ n in
                  let gone : is_seen m ns ≡ false =
                    ap (λ (x : ℤ). is_seen x ns) eq ∙ fresh (length es) (omega arith) in
                  cc
              | inr other ↦ rw other refl
            ])),
      λ j h.
          let size : suc (length es) ≤ j = omega (arith, length-append {0} es (e ∷ [])) in
          let apart : same_number (add_ℕ s (negsuc j)) e.record_number ≡ false =
            ap (same_number (add_ℕ s (negsuc j))) n ∙ countdown-apart s j (length es) size in
          let old = fresh j (omega arith) in
          ap (is_seen (add_ℕ s (negsuc j))) whole
          ∙ is_seen-append (add_ℕ s (negsuc j)) ns (e.record_number ∷ [])
          ∙ rw (old, apart) refl,
    )

read_record-number :
    (s done : ℕ) (raw : Bytes) (rec_start rec_len : ℕ)
    → Returns
        (λ e. LogEntry.record_number e ≡ add_ℕ s (negsuc done))
        (read_record s done raw rec_start rec_len)
unfolding read_record decode_log_record Returns
read_record-number s done raw rec_start rec_len =
    Returns->>= (λ _. Unit {0}) _ (byte_at raw rec_start) _ (Returns-any _)
      (λ kind _.
        Returns->>= (λ _. Unit {0}) _ (byte_at raw (rec_start + 7)) _ (Returns-any _)
          (λ battery _. refl))

Returns-if :
    {A : Type 0} (P : A → Type 0) (b : Bool) (r r' : Result A)
    → Returns P r
    → Returns P r'
    → Returns P (if b then r else r')
Returns-if P true r r' h k = h
Returns-if P false r r' h k = k

read_records-AreCounted :
    (fuel s : ℕ) (es : List LogEntry) (raw : Bytes) (idx : ℕ)
    → AreCounted s es
    → Returns (AreCounted s) (read_records fuel s es raw idx)
unfolding read_records Returns
read_records-AreCounted zero s es raw idx h = h
read_records-AreCounted (suc fuel) s es raw idx h =
    Returns-if (AreCounted s) (ltb idx (length raw)) _ (ok es)
      (Returns->>= (λ _. Unit {0}) (AreCounted s) (byte_at raw idx) _ (Returns-any _)
        (λ rec_len _. Returns-if (AreCounted s) (ltb (length raw) (idx + 1 + rec_len)) (ok es) _ h (
          Returns->>= _ (AreCounted s) (read_record s (length es) raw (idx + 1) rec_len) _
            (read_record-number s (length es) raw (idx + 1) rec_len)
            (λ e n.
              read_records-AreCounted fuel s (es ++ e ∷ []) raw (idx + 1 + rec_len)
                (counted-snoc s es e h n)))))
      h

-- A page without doubles, beside its sequence.
abbrev IsPage : List LogEntry × ℕ → Type 0
IsPage (page, last_seq) = AreDistinct (record_numbers page)

counted-AreDistinct :
    (s : ℕ) (es : List LogEntry) → AreCounted s es → AreDistinct (record_numbers es)
unfolding AreCounted
counted-AreDistinct s es (d, fresh) = d

empty-AreCounted : (s : ℕ) → AreCounted s []
unfolding AreCounted AreDistinct record_numbers is_seen
empty-AreCounted s = (tt, λ j h. refl)

parse_operate_log_response-IsPage :
    (plain : Bytes) → Returns IsPage (parse_operate_log_response plain)
unfolding parse_operate_log_response parse_response_status Returns AreDistinct record_numbers
parse_operate_log_response-IsPage (echo ∷ status ∷ raw) =
    let s = from_bytes (slice 2 4 raw) in
    let nothing =
      not (status == response_success) || ltb (length raw) 2 || from_bytes (take 2 raw) == 0 in
    Returns-if {A = List LogEntry × ℕ} IsPage nothing (ok ([], 0))
      (read_records (length raw) s [] raw 4 >>= λ entries. ok (entries, s)) tt
      (Returns->>= {A = List LogEntry} {B = List LogEntry × ℕ} (AreCounted s) IsPage
        (read_records (length raw) s [] raw 4) (λ entries. ok (entries, s))
        (read_records-AreCounted (length raw) s [] raw 4 (empty-AreCounted s))
        (λ es h. counted-AreDistinct s es h))
parse_operate_log_response-IsPage (echo ∷ []) = tt
parse_operate_log_response-IsPage [] = tt

continue-Returns :
    {A B : Type 0} (Q : A → Type 0) (P : B → Type 0) (p : Result A × Session) (f : A → Act B)
    → Returns Q p.0
    → ((a : A) (s : Session) → Q a → Returns P (f a s).0)
    → Returns P (continue f p).0
unfolding Returns
continue-Returns Q P (ok a, s) f h k = k a s h
continue-Returns Q P (raised e, s) f h k = tt

Returns-fold :
    {A : Type 0} (P : A → Type 0) (h : Exn → Exn) (r : Result A)
    → Returns P r
    → Returns P (fold h r)
unfolding Returns
Returns-fold P h (ok a) k = k
Returns-fold P h (raised e) k = tt

query_log-IsPage :
    (c : Client) (sequence : ℕ) (s : Session) → Returns IsPage (query_log c sequence s).0
unfolding query_log
query_log-IsPage c sequence s =
    continue-Returns (λ _. Unit {0}) _ (payload_operate_log_request sequence, s) _ (Returns-any _)
      (λ payload s1 _.
        continue-Returns (λ _. Unit {0}) _ (round_trip c cmd_get_operate_log payload s1) _
          (Returns-any _)
          (λ plain s2 _.
            Returns-fold _ fold_value_error _ (parse_operate_log_response-IsPage plain)))

module _ (c : Client) (limit : Option ℕ) where
  proceed-AreEntries :
      (more : List LogEntry → ℕ → Act (List LogEntry)) (p : Page) (s : Session)
      → IsFair limit p
      → ((es : List LogEntry) (cursor : ℕ)
          → AreEntries limit es
          → Returns (AreEntries limit) (more es cursor s).0)
      → Returns (AreEntries limit) (proceed more p s).0
  unfolding proceed IsFair Returns
  proceed-AreEntries more (finished es) s h k = h
  proceed-AreEntries more (onward es cursor) s h k = k es cursor h

  log_rounds-AreEntries :
      (fuel next_seq : ℕ) (all : List LogEntry) (s : Session)
      → AreEntries limit all
      → Returns (AreEntries limit) (log_rounds c limit fuel next_seq all s).0
  unfolding log_rounds Returns
  log_rounds-AreEntries zero next_seq all s h = tt
  log_rounds-AreEntries (suc fuel) next_seq all s h =
      continue-Returns _ (AreEntries limit) (query_log c next_seq s) _
        (query_log-IsPage c next_seq s)
        (λ (page, last_seq) s1 d.
          proceed-AreEntries _ (judge limit next_seq all page last_seq) s1
            (judge-IsFair limit next_seq all page last_seq h d)
            (λ es cursor k. log_rounds-AreEntries fuel cursor es s1 k))

  none-AreEntries : AreEntries limit []
  unfolding AreEntries AreDistinct record_numbers
  none-AreEntries = elim limit as (λ l. AreEntries l []) [ none ↦ tt | some m ↦ (tt, omega arith) ]

  -- Whatever pages the lock sends, a list that `get_operation_log` returns has no record number
  -- twice, and at most `max_entries` entries when a maximum is given.
  pub get_operation_log-AreEntries :
      (from_sequence : ℕ) (s : Session)
      → Returns (AreEntries limit) (get_operation_log c limit from_sequence s).0
  unfolding get_operation_log
  get_operation_log-AreEntries from_sequence s =
      log_rounds-AreEntries (suc (length s.turns)) from_sequence [] s none-AreEntries
