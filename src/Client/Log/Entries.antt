-- ===== src/Client/Log/Entries.antt =====
-- The entries that `get_operation_log` returns: no record number twice, and never too many.
use ttlock_ble.Base.{
  ℕ, zero, suc, ◌≤◌, ◌≡◌, refl, sym, subst, ap, arith, Bool-cases, inl, inr, true, false, ◌||◌,
  List, [], ◌∷◌, ◌++◌, Option, none, some, length, length-take, take, ==_iff,
}
use ttlock_ble.Client.Log.{
  same_number, is_seen, new_entries_of, record_numbers, reaches, cut_to, Page, finished, onward,
  judge,
}
use ttlock_ble.Commands.LogRecord.{LogEntry}
use ttlock_ble.Text.{ℤ, pos, negsuc}

-- No number stands twice.
unfoldable pub AreDistinct : List ℤ → Type 0
AreDistinct [] = Unit
AreDistinct (n ∷ ns) = (is_seen n ns ≡ false) × AreDistinct ns

-- The entries that are kept keep these properties of the page.
filter-unseen :
    (n : ℤ) (seen : List ℤ) (page : List LogEntry)
    → is_seen n (record_numbers page) ≡ false
    → is_seen n (record_numbers (new_entries_of seen page)) ≡ false
unfolding is_seen record_numbers new_entries_of
filter-unseen n seen [] h = refl
filter-unseen n seen (e ∷ page) h = let rest = filter-unseen n seen page in ground (arith, rest)

filter-AreDistinct :
    (seen : List ℤ) (page : List LogEntry)
    → AreDistinct (record_numbers page)
    → AreDistinct (record_numbers (new_entries_of seen page))
unfolding record_numbers new_entries_of AreDistinct
filter-AreDistinct seen [] d = tt
filter-AreDistinct seen (e ∷ page) (n, d) = elim (Bool-cases (is_seen e.record_number seen)) [
  | inl old ↦ rw old (filter-AreDistinct seen page d)
  | inr new ↦ rw new (filter-unseen e.record_number seen page n, filter-AreDistinct seen page d)
]

same_number-sym : (m n : ℤ) → same_number m n ≡ same_number n m
unfolding same_number
same_number-sym (pos m) (pos n) = ground arith
same_number-sym (negsuc m) (negsuc n) = ground arith
same_number-sym (pos m) (negsuc n) = refl
same_number-sym (negsuc m) (pos n) = refl

-- None of the new numbers is a given one that was seen.
unseen-filter :
    (n : ℤ) (seen : List ℤ) (page : List LogEntry)
    → is_seen n seen ≡ true
    → ((m : ℤ) → same_number n m ≡ true → is_seen m seen ≡ true)
    → is_seen n (record_numbers (new_entries_of seen page)) ≡ false
unfolding is_seen record_numbers new_entries_of
unseen-filter n seen [] h all = refl
unseen-filter n seen (e ∷ page) h all =
    let rest = unseen-filter n seen page h all in
    let here = all e.record_number in ground (arith, rest, here)

pub same_number-eq : (m n : ℤ) → same_number m n ≡ true → m ≡ n
unfolding same_number
same_number-eq (pos m) (pos n) h = ap pos ((==_iff m n).0 h)
same_number-eq (negsuc m) (negsuc n) h = ap negsuc ((==_iff m n).0 h)
same_number-eq (pos m) (negsuc n) h = cc
same_number-eq (negsuc m) (pos n) h = cc

same_number_refl : (n : ℤ) → same_number n n ≡ true
unfolding same_number
same_number_refl (pos n) = ground arith
same_number_refl (negsuc n) = ground arith

new-unseen :
    (n : ℤ) (seen : List ℤ) (page : List LogEntry)
    → is_seen n seen ≡ true
    → is_seen n (record_numbers (new_entries_of seen page)) ≡ false
new-unseen n seen page h =
    unseen-filter n seen page h
      (λ m e. subst (λ (x : ℤ). is_seen x seen ≡ true) (same_number-eq n m e) h)

pub is_seen-append :
    (n : ℤ) (xs ys : List ℤ) → is_seen n (xs ++ ys) ≡ (is_seen n xs || is_seen n ys)
unfolding is_seen
is_seen-append n [] ys = refl
is_seen-append n (x ∷ xs) ys = let h = is_seen-append n xs ys in ground (arith, h)

-- Two lists without doubles and without a common number.
pub append-AreDistinct :
    (xs ys : List ℤ)
    → AreDistinct xs
    → AreDistinct ys
    → ((n : ℤ) → is_seen n xs ≡ true → is_seen n ys ≡ false)
    → AreDistinct (xs ++ ys)
unfolding AreDistinct is_seen
append-AreDistinct [] ys d e apart = e
append-AreDistinct (x ∷ xs) ys (n, d) e apart =
    let split = is_seen-append x xs ys in
    let self = same_number_refl x in
    let other = apart x in
    (
      ground (arith, split, self, other),
      append-AreDistinct xs ys d e (λ m h. apart m (ground arith)),
    )

pub record_numbers-append :
    (a b : List LogEntry) → record_numbers (a ++ b) ≡ record_numbers a ++ record_numbers b
unfolding record_numbers
record_numbers-append [] b = refl
record_numbers-append (e ∷ a) b = rw (record_numbers-append a b)

take-unseen :
    (n : ℤ) (count : ℕ) (es : List LogEntry)
    → is_seen n (record_numbers es) ≡ false
    → is_seen n (record_numbers (take count es)) ≡ false
unfolding is_seen record_numbers
take-unseen n zero es h = refl
take-unseen n (suc count) [] h = refl
take-unseen n (suc count) (e ∷ es) h = let rest = take-unseen n count es in ground (arith, rest)

take-AreDistinct :
    (count : ℕ) (es : List LogEntry)
    → AreDistinct (record_numbers es)
    → AreDistinct (record_numbers (take count es))
unfolding AreDistinct record_numbers
take-AreDistinct zero es d = tt
take-AreDistinct (suc count) [] d = tt
take-AreDistinct (suc count) (e ∷ es) (n, d) =
    (take-unseen e.record_number count es n, take-AreDistinct count es d)

-- What the loop keeps true of its entries, under a limit: no doubles, and not too many.
unfoldable pub AreEntries : Option ℕ → List LogEntry → Type 0
AreEntries none es = AreDistinct (record_numbers es)
AreEntries (some m) es = AreDistinct (record_numbers es) × (length es ≤ m)

unfoldable pub IsFair : Option ℕ → Page → Type 0
IsFair limit (finished es) = AreEntries limit es
IsFair limit (onward es cursor) = AreEntries limit es

extended :
    (all page : List LogEntry)
    → AreDistinct (record_numbers all)
    → AreDistinct (record_numbers page)
    → AreDistinct (record_numbers (all ++ new_entries_of (record_numbers all) page))
extended all page d e =
    let seen = record_numbers all in
    subst AreDistinct (sym (record_numbers-append all (new_entries_of seen page))) (
      append-AreDistinct seen (record_numbers (new_entries_of seen page)) d
        (filter-AreDistinct seen page e) (λ n h. new-unseen n seen page h))

pub judge-IsFair :
    (limit : Option ℕ) (next_seq : ℕ) (all page : List LogEntry) (last_seq : ℕ)
    → AreEntries limit all
    → AreDistinct (record_numbers page)
    → IsFair limit (judge limit next_seq all page last_seq)
unfolding judge IsFair AreEntries reaches cut_to
judge-IsFair none next_seq all page last_seq d e =
    let more = extended all page d e in ground (arith, more)
judge-IsFair (some m) next_seq all page last_seq (d, small) e =
    let whole = all ++ new_entries_of (record_numbers all) page in
    let more = extended all page d e in
    let cut = take-AreDistinct m whole more in
    let size = length-take {0} m whole in ground (arith, more, cut, size)
