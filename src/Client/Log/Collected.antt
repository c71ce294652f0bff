-- ===== src/Client/Log/Collected.antt =====
-- The operation log against its specification: the pages behind the cursors that the lock names.
use ttlock_ble.Base.{
  ◌↔◌, ℕ, zero, suc, ◌≤◌, ◌<◌, ◌≡◌, refl, subst, ap, ◌∙◌, arith, ◌⊎◌, inl, inr, Bool-cases, ==_iff,
  leb, ◌||◌, ◌==◌, true, false, if◌then◌else◌, List, [], ◌++◌, Option, none, some, length, take,
}
use ttlock_ble.Client.Act.{Session, continue}
use ttlock_ble.Client.Act.Turns.{Spends}
use ttlock_ble.Client.Core.{Client}
use ttlock_ble.Client.Log.{
  new_entries_of, record_numbers, reaches, cut_to, Page, finished, onward, judge, proceed,
  query_log, log_rounds, get_operation_log,
}
use ttlock_ble.Client.Log.Rounds.{query_log-Spends}
use ttlock_ble.Commands.LogRecord.{LogEntry}
use ttlock_ble.Outcome.{Result, ok, raised}

-- The entries of a page whose numbers do not stand among the given ones.
abbrev fresh : List LogEntry → List LogEntry → List LogEntry
fresh all page = new_entries_of (record_numbers all) page

-- A number of entries under the limit.
pub IsUnder : Option ℕ → ℕ → Type 0
IsUnder none n = Unit
IsUnder (some m) n = n < m

-- What a page with its cursor does to the entries so far, when it was asked for by a cursor: a page
-- without a fresh entry ends the log; one that reaches the limit ends it, cut to the limit; a cursor
-- that is 0 or has not moved ends it; and else the log goes on from the new cursor.
pub data Decides (limit : Option ℕ) (cursor : ℕ) (all page : List LogEntry) (last : ℕ)
    : Page → Type 0 where
  stale : length (fresh all page) ≡ 0 → Decides limit cursor all page last (finished all)
  full :
      (m : ℕ)
      → limit ≡ some m
      → 0 < length (fresh all page)
      → m ≤ length (all ++ fresh all page)
      → Decides limit cursor all page last (finished (take m (all ++ fresh all page)))
  ends :
      0 < length (fresh all page)
      → IsUnder limit (length (all ++ fresh all page))
      → (last ≡ 0) ⊎ (last ≡ cursor)
      → Decides limit cursor all page last (finished (all ++ fresh all page))
  goes_on :
      0 < length (fresh all page)
      → IsUnder limit (length (all ++ fresh all page))
      → ¬ ((last ≡ 0) ⊎ (last ≡ cursor))
      → Decides limit cursor all page last (onward (all ++ fresh all page) last)

-- The log from a cursor on, behind the entries so far, as the answers of the lock give it.
pub data Collected (c : Client) (limit : Option ℕ)
    : ℕ → List LogEntry → Session → List LogEntry → Session → Type 0 where
  done :
      {cursor last : ℕ} {all page out : List LogEntry} {s s' : Session}
      → query_log c cursor s ≡ (ok (page, last), s')
      → Decides limit cursor all page last (finished out)
      → Collected c limit cursor all s out s'
  more :
      {cursor last next_cursor : ℕ} {all page longer out : List LogEntry} {s s1 s' : Session}
      → query_log c cursor s ≡ (ok (page, last), s1)
      → Decides limit cursor all page last (onward longer next_cursor)
      → Collected c limit next_cursor longer s1 out s'
      → Collected c limit cursor all s out s'

stops_if : (cursor last : ℕ) → (last == 0 || last == cursor) ≡ true → (last ≡ 0) ⊎ (last ≡ cursor)
stops_if cursor last h = ground (arith, h)

stops_unless :
    (cursor last : ℕ) → (last == 0 || last == cursor) ≡ false → ¬ ((last ≡ 0) ⊎ (last ≡ cursor))
stops_unless cursor last h (inl e) = ground (arith, h, e)
stops_unless cursor last h (inr e) = ground (arith, h, e)

positive : (n : ℕ) → (n == 0) ≡ false → 0 < n
positive n h = ground (arith, h)

-- A page with a fresh entry that leaves the list under the limit.
under-Decides :
    (limit : Option ℕ) (cursor : ℕ) (all page : List LogEntry) (last : ℕ)
    → 0 < length (fresh all page)
    → IsUnder limit (length (all ++ fresh all page))
    → Decides limit cursor all page last (
        if last == 0 || last == cursor
        then finished (all ++ fresh all page)
        else onward (all ++ fresh all page) last)
under-Decides limit cursor all page last h k = elim (Bool-cases (last == 0 || last == cursor)) [
  | inl e ↦ rw e (ends h k (stops_if cursor last e))
  | inr e ↦ rw e (goes_on h k (stops_unless cursor last e))
]

judge-Decides :
    (limit : Option ℕ) (cursor : ℕ) (all page : List LogEntry) (last : ℕ)
    → Decides limit cursor all page last (judge limit cursor all page last)
unfolding judge reaches cut_to IsUnder
judge-Decides none cursor all page last = elim (Bool-cases (length (fresh all page) == 0)) [
  | inl e ↦ rw e (stale ((==_iff (length (fresh all page)) 0).0 e))
  | inr e ↦ rw e (under-Decides none cursor all page last (positive _ e) tt)
]
judge-Decides (some m) cursor all page last = elim (Bool-cases (length (fresh all page) == 0)) [
  | inl e ↦ rw e (stale ((==_iff (length (fresh all page)) 0).0 e))
  | inr e ↦ elim (Bool-cases (leb m (length (all ++ fresh all page)))) [
    | inl f ↦ rw (e, f) (full m refl (positive _ e) (ground (arith, f)))
    | inr f ↦
        rw (e, f) (under-Decides (some m) cursor all page last (positive _ e) (ground (arith, f)))
  ]
]

Decides-judge :
    (limit : Option ℕ) (cursor : ℕ) (all page : List LogEntry) (last : ℕ) (p : Page)
    → Decides limit cursor all page last p
    → judge limit cursor all page last ≡ p
unfolding judge reaches cut_to IsUnder
Decides-judge limit cursor all page last _ (stale h) = ground (arith, h)
Decides-judge limit cursor all page last _ (full m e h k) = rw e (ground (arith, h, k))
Decides-judge none cursor all page last _ (ends h k stops) = ground (arith, h, stops)
Decides-judge (some m) cursor all page last _ (ends h k stops) = ground (arith, h, k, stops)
Decides-judge none cursor all page last _ (goes_on h k moves) = ground (arith, h, moves)
Decides-judge (some m) cursor all page last _ (goes_on h k moves) = ground (arith, h, k, moves)

module _ (c : Client) (limit : Option ℕ) where
  abbrev step_of :
      ℕ
      → ℕ
      → List LogEntry
      → Result (List LogEntry × ℕ) × Session
      → Result (List LogEntry) × Session
  step_of fuel cursor all p =
      continue
        (λ (page, last).
          proceed (λ entries next_cursor. log_rounds c limit fuel next_cursor entries)
            (judge limit cursor all page last))
        p

  proceed-Collected :
      (fuel cursor last : ℕ) (all page out : List LogEntry) (s s1 s' : Session) (p : Page)
      → ((longer : List LogEntry) (next_cursor : ℕ)
          → log_rounds c limit fuel next_cursor longer s1 ≡ (ok out, s')
          → Collected c limit next_cursor longer s1 out s')
      → query_log c cursor s ≡ (ok (page, last), s1)
      → Decides limit cursor all page last p
      → proceed (λ entries next_cursor. log_rounds c limit fuel next_cursor entries) p s1
        ≡ (ok out, s')
      → Collected c limit cursor all s out s'
  unfolding proceed
  proceed-Collected fuel cursor last all page out s s1 s' (finished entries) later q d h =
      let e : entries ≡ out = cc in
      let same : s1 ≡ s' = cc in
      done (q ∙ ap (λ (x : Session). (ok (page, last), x)) same)
        (subst (λ (l : List LogEntry). Decides limit cursor all page last (finished l)) e d)
  proceed-Collected fuel cursor last all page out s s1 s' (onward longer next_cursor) later q d h =
      more q d (later longer next_cursor h)

  step_of-Collected :
      (fuel cursor : ℕ) (all out : List LogEntry) (s s' : Session)
      (p : Result (List LogEntry × ℕ) × Session)
      → ((longer : List LogEntry) (next_cursor : ℕ) (s1 : Session)
          → log_rounds c limit fuel next_cursor longer s1 ≡ (ok out, s')
          → Collected c limit next_cursor longer s1 out s')
      → query_log c cursor s ≡ p
      → step_of fuel cursor all p ≡ (ok out, s')
      → Collected c limit cursor all s out s'
  step_of-Collected fuel cursor all out s s' (raised e, s1) later q h = cc h
  step_of-Collected fuel cursor all out s s' (ok (page, last), s1) later q h =
      proceed-Collected fuel cursor last all page out s s1 s' (judge limit cursor all page last)
        (λ longer next_cursor. later longer next_cursor s1) q
        (judge-Decides limit cursor all page last) h

  log_rounds-Collected :
      (fuel cursor : ℕ) (all out : List LogEntry) (s s' : Session)
      → log_rounds c limit fuel cursor all s ≡ (ok out, s')
      → Collected c limit cursor all s out s'
  unfolding log_rounds
  log_rounds-Collected zero cursor all out s s' h = cc h
  log_rounds-Collected (suc fuel) cursor all out s s' h =
      step_of-Collected fuel cursor all out s s' (query_log c cursor s)
        (λ longer next_cursor s1. log_rounds-Collected fuel next_cursor longer out s1 s') refl h

  spent :
      (cursor last : ℕ) (page : List LogEntry) (s s1 : Session)
      → query_log c cursor s ≡ (ok (page, last), s1)
      → length s1.turns < length s.turns
  unfolding Spends
  spent cursor last page s s1 q = subst (Spends (length s.turns)) q (query_log-Spends c cursor s)

  Collected-log_rounds :
      (fuel cursor : ℕ) (all out : List LogEntry) (s s' : Session)
      → length s.turns < fuel
      → Collected c limit cursor all s out s'
      → log_rounds c limit fuel cursor all s ≡ (ok out, s')
  unfolding log_rounds proceed
  Collected-log_rounds zero cursor all out s s' h l = absurd (omega arith)
  Collected-log_rounds (suc fuel) cursor all out s s' h (done {last = last} {page = page} q d) =
      ap (step_of fuel cursor all) q
      ∙ ap (λ p. proceed (λ entries next_cursor. log_rounds c limit fuel next_cursor entries) p s')
          (Decides-judge limit cursor all page last _ d)
  Collected-log_rounds (suc fuel) cursor all out s s' h
        (more {last = last} {next_cursor = next_cursor} {page = page} {longer = longer} {s1 = s1} q
          d l) =
      ap (step_of fuel cursor all) q
      ∙ ap (λ p. proceed (λ entries next_cursor. log_rounds c limit fuel next_cursor entries) p s1)
          (Decides-judge limit cursor all page last _ d)
      ∙ Collected-log_rounds fuel next_cursor longer out s1 s'
          (omega (arith, spent cursor last page s s1 q)) l

  -- `get_operation_log` returns a list if and only if the pages of the lock give it: from the given
  -- cursor on, page after page, up to the first page that brings no new record number, that reaches
  -- the limit, or whose cursor is 0 or has not moved.
  pub get_operation_log-Collected :
      (from_sequence : ℕ) (out : List LogEntry) (s s' : Session)
      → (get_operation_log c limit from_sequence s ≡ (ok out, s'))
        ↔ Collected c limit from_sequence [] s out s'
  unfolding get_operation_log
  get_operation_log-Collected from_sequence out s s' = (
    log_rounds-Collected (suc (length s.turns)) from_sequence [] out s s',
    Collected-log_rounds (suc (length s.turns)) from_sequence [] out s s' (omega arith),
  )
