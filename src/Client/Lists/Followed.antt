-- ===== src/Client/Lists/Followed.antt =====
-- The passcode list against its specification: the lock's cursor, followed from 0 back to 0.
use ttlock_ble.Base.{
  ◌↔◌, ℕ, zero, suc, ◌≤◌, ◌≡◌, refl, sym, ap, ◌∙◌, arith, Bool, true, false, List, [], ◌∷◌, ◌++◌,
  append-nil, append_assoc, Option, none, some, ◌==◌,
}
use ttlock_ble.Client.Act.{Act, Session, continue, pure}
use ttlock_ble.Client.Core.{Client}
use ttlock_ble.Client.Lists.{append_found, query_passcode, passcode_rounds}
use ttlock_ble.Commands.PasscodeList.{PasscodeEntry}
use ttlock_ble.Outcome.{Result, ok, raised}

-- The entries of the answers, in order; some answers carry none.
unfoldable pub found_in : List (Option PasscodeEntry) → List PasscodeEntry
found_in [] = []
found_in (none ∷ answers) = found_in answers
found_in (some entry ∷ answers) = entry ∷ found_in answers

-- The queries from this cursor on, the number of round trips and their answers, up to the answer
-- whose cursor is 0.
pub data Followed (c : Client)
    : ℕ → ℕ → Session → List (Option PasscodeEntry) → Session → Type 0 where
  last :
      {sequence : ℕ} {s s' : Session} {answer : Option PasscodeEntry}
      → query_passcode c sequence s ≡ (ok (answer, 0), s')
      → Followed c 1 sequence s (answer ∷ []) s'
  onward :
      {trips sequence next_sequence : ℕ} {s s1 s' : Session} {answer : Option PasscodeEntry}
      {answers : List (Option PasscodeEntry)}
      → query_passcode c sequence s ≡ (ok (answer, suc next_sequence), s1)
      → Followed c trips (suc next_sequence) s1 answers s'
      → Followed c (suc trips) sequence s (answer ∷ answers) s'

append_found-found_in :
    (acc : List PasscodeEntry) (answer : Option PasscodeEntry)
    (answers : List (Option PasscodeEntry))
    → append_found acc answer ++ found_in answers ≡ acc ++ found_in (answer ∷ answers)
unfolding append_found found_in
append_found-found_in acc none answers = refl
append_found-found_in acc (some entry) answers = append_assoc acc (entry ∷ []) (found_in answers)

append_found-last :
    (acc : List PasscodeEntry) (answer : Option PasscodeEntry)
    → append_found acc answer ≡ acc ++ found_in (answer ∷ [])
unfolding append_found found_in
append_found-last acc none = sym (append-nil acc)
append_found-last acc (some entry) = refl

module _ (c : Client) where
  -- What the loop does with one answer.
  abbrev step_of :
      ℕ
      → List PasscodeEntry
      → Result (Option PasscodeEntry × ℕ) × Session
      → Result (List PasscodeEntry) × Session
  step_of attempts acc p =
      continue
        (λ (entry, next_sequence). elim (next_sequence == 0) [
          | true ↦ pure (append_found acc entry)
          | false ↦ passcode_rounds c attempts next_sequence (append_found acc entry)
        ])
        p

  suc_positive : (n : ℕ) → (suc n == 0) ≡ false
  suc_positive n = ground arith

  step_of-suc :
      (attempts n : ℕ) (acc : List PasscodeEntry) (answer : Option PasscodeEntry) (s1 : Session)
      → step_of attempts acc (ok (answer, suc n), s1)
        ≡ passcode_rounds c attempts (suc n) (append_found acc answer) s1
  step_of-suc attempts n acc answer s1 =
      ap
        (λ (b : Bool).
          (elim b as (λ _. Act (List PasscodeEntry)) [
            | true ↦ pure (append_found acc answer)
            | false ↦ passcode_rounds c attempts (suc n) (append_found acc answer)
          ])
            s1)
        (suc_positive n)

  -- The list continues the given entries with those of a followed cursor, in at most so many trips.
  pub IsFollowed : ℕ → ℕ → List PasscodeEntry → Session → List PasscodeEntry → Session → Type 0
  IsFollowed attempts sequence acc s all s' =
      (trips : ℕ) × (answers : List (Option PasscodeEntry)) × (all ≡ acc ++ found_in answers)
      × (trips ≤ attempts)
      × Followed c trips sequence s answers s'

  step_of-IsFollowed :
      (attempts sequence : ℕ) (acc all : List PasscodeEntry) (s s' : Session)
      (p : Result (Option PasscodeEntry × ℕ) × Session)
      → ((answer : Option PasscodeEntry) (next_sequence : ℕ) (s1 : Session)
          → passcode_rounds c attempts next_sequence (append_found acc answer) s1 ≡ (ok all, s')
          → IsFollowed attempts next_sequence (append_found acc answer) s1 all s')
      → query_passcode c sequence s ≡ p
      → step_of attempts acc p ≡ (ok all, s')
      → IsFollowed (suc attempts) sequence acc s all s'
  unfolding IsFollowed
  step_of-IsFollowed attempts sequence acc all s s' (raised x, s1) more q h = cc
  step_of-IsFollowed attempts sequence acc all s s' (ok (answer, zero), s1) more q h =
      let e : all ≡ append_found acc answer = cc in
      let same : s1 ≡ s' = cc in
      (
        1,
        answer ∷ [],
        e ∙ append_found-last acc answer,
        omega arith,
        last (q ∙ ap (λ (x : Session). (ok (answer, 0), x)) same),
      )
  step_of-IsFollowed attempts sequence acc all s s' (ok (answer, suc n), s1) more q h =
      let (trips, answers, whole, small, rest) =
        more answer (suc n) s1 (sym (step_of-suc attempts n acc answer s1) ∙ h) in
      (
        suc trips,
        answer ∷ answers,
        whole ∙ append_found-found_in acc answer answers,
        omega arith,
        onward q rest,
      )

  -- A list that the loop returns continues the given entries with those that the answers of the
  -- lock carry when its cursor is followed from the given one back to 0, in at most so many trips.
  pub passcode_rounds-IsFollowed :
      (attempts sequence : ℕ) (acc all : List PasscodeEntry) (s s' : Session)
      → passcode_rounds c attempts sequence acc s ≡ (ok all, s')
      → IsFollowed attempts sequence acc s all s'
  unfolding passcode_rounds
  passcode_rounds-IsFollowed zero sequence acc all s s' e = cc
  passcode_rounds-IsFollowed (suc attempts) sequence acc all s s' e =
      step_of-IsFollowed attempts sequence acc all s s' (query_passcode c sequence s)
        (λ answer n s1. passcode_rounds-IsFollowed attempts n (append_found acc answer) all s1 s')
        refl e

  -- Conversely, the loop returns the entries of every cursor that is followed in that many trips.
  pub Followed-passcode_rounds :
      (attempts trips sequence : ℕ) (acc : List PasscodeEntry)
      (answers : List (Option PasscodeEntry)) (s s' : Session)
      → trips ≤ attempts
      → Followed c trips sequence s answers s'
      → passcode_rounds c attempts sequence acc s ≡ (ok (acc ++ found_in answers), s')
  unfolding passcode_rounds
  Followed-passcode_rounds zero _ sequence acc _ s s' h (last q) = absurd (omega arith)
  Followed-passcode_rounds zero _ sequence acc _ s s' h (onward q l) = absurd (omega arith)
  Followed-passcode_rounds (suc attempts) _ sequence acc _ s s' h (last {answer = answer} q) =
      ap (step_of attempts acc) q
      ∙ ap (λ (l : List PasscodeEntry). (ok l, s')) (append_found-last acc answer)
  Followed-passcode_rounds (suc attempts) _ sequence acc _ s s' h
        (onward {trips = trips} {next_sequence = n} {s1 = s1} {answer = answer} {answers = answers}
          q l) =
      ap (step_of attempts acc) q
      ∙ step_of-suc attempts n acc answer s1
      ∙ Followed-passcode_rounds attempts trips (suc n) (append_found acc answer) answers s1 s'
          (omega arith) l
      ∙ ap (λ (l : List PasscodeEntry). (ok l, s')) (append_found-found_in acc answer answers)

  -- The loop returns exactly what the cursor of the lock gives: a list is returned if and only if it
  -- is the given entries and those that the answers carry when the cursor is followed from the given
  -- one back to 0, in at most so many trips.
  pub passcode_rounds-Followed :
      (attempts sequence : ℕ) (acc all : List PasscodeEntry) (s s' : Session)
      → (passcode_rounds c attempts sequence acc s ≡ (ok all, s'))
        ↔ IsFollowed attempts sequence acc s all s'
  unfolding IsFollowed
  passcode_rounds-Followed attempts sequence acc all s s' = (
    passcode_rounds-IsFollowed attempts sequence acc all s s',
    λ (trips, answers, e, few, followed).
        Followed-passcode_rounds attempts trips sequence acc answers s s' few followed
        ∙ ap (λ (l : List PasscodeEntry). (ok l, s')) (sym e),
  )
