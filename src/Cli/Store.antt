-- ===== src/Cli/Store.antt =====
-- The key cache between two runs: what `sync` stores, the other commands find.
use ttlock_ble.Base.{
  ◌⊎◌, arith, ◌≡◌, refl, ap, ◌∙◌, true, false, Bool-cases, inl, inr, List, [], ◌∷◌, ◌++◌, some, map,
  All,
}
use ttlock_ble.Cli.{stored, keys_of_rows, load_keys, is_target, find_key, add_row}
use ttlock_ble.Base.Bytes.{equal_iff}
use ttlock_ble.Json.{Value, str_of_int}
use ttlock_ble.Models.VirtualKey.{VirtualKey}
use ttlock_ble.Models.VirtualKey.RoundTrip.{from_dict-to_dict}
use ttlock_ble.Outcome.{Result, ok, raised, bad_parameter}
use ttlock_ble.Text.{Text, upper}

-- The keys that were stored are loaded again, each and in order.
pub load_keys-stored :
    (repr : Value → Text) (keys : List VirtualKey)
    → load_keys repr (some (stored keys)) ≡ ok (map some keys)
unfolding load_keys stored keys_of_rows add_row
load_keys-stored repr [] = refl
load_keys-stored repr (k ∷ keys) =
    ap (λ r. add_row r (keys_of_rows repr (stored keys))) (from_dict-to_dict repr k)
    ∙ ap (add_row (ok (some k))) (load_keys-stored repr keys)

-- A target names a key by the decimal lock id, by the alias, or by the MAC in any case of letters.
pub Names : Text → VirtualKey → Type 0
Names target k =
    (str_of_int k.lock_id ≡ target) ⊎ ((k.lock_alias ≡ target) ⊎ (upper k.lock_mac ≡ upper target))

is_target-Names : (target : Text) (k : VirtualKey) → is_target target k ≡ true → Names target k
unfolding is_target Names
is_target-Names target k h = ground (
  arith,
  equal_iff (str_of_int k.lock_id) target,
  equal_iff k.lock_alias target,
  equal_iff (upper k.lock_mac) (upper target),
  h,
)

is_target-not_Names :
    (target : Text) (k : VirtualKey) → is_target target k ≡ false → ¬ Names target k
unfolding is_target Names
is_target-not_Names target k h n = ground (
  arith,
  equal_iff (str_of_int k.lock_id) target,
  equal_iff k.lock_alias target,
  equal_iff (upper k.lock_mac) (upper target),
  h,
  n,
)

-- What a search gives: the first key that the target names, or a bad parameter when it names none.
pub IsFound : Text → List VirtualKey → Result VirtualKey → Type 0
IsFound target keys (ok k) =
    (before after : List VirtualKey) × (keys ≡ before ++ k ∷ after)
    × All (λ other. ¬ Names target other) before
    × Names target k
IsFound target keys (raised e) = (e ≡ bad_parameter) × All (λ other. ¬ Names target other) keys

IsFound-later :
    (target : Text) (k : VirtualKey) (keys : List VirtualKey) (r : Result VirtualKey)
    → ¬ Names target k
    → IsFound target keys r
    → IsFound target (k ∷ keys) r
unfolding IsFound
IsFound-later target k keys (ok found) e (before, after, split, others, named) =
    (k ∷ before, after, ap (λ ks. k ∷ ks) split, (e, others), named)
IsFound-later target k keys (raised x) e (bad, others) = (bad, (e, others))

-- The search for a key gives the first key that the target names, by the decimal lock id, the alias
-- or the MAC in any case of letters, or a bad parameter when the target names no key.
pub find_key-IsFound :
    (target : Text) (keys : List VirtualKey) → IsFound target keys (find_key target keys)
unfolding find_key IsFound
find_key-IsFound target [] = (refl, tt)
find_key-IsFound target (k ∷ keys) = elim (Bool-cases (is_target target k)) [
  | inl e ↦ rw e ([], keys, refl, tt, is_target-Names target k e)
  | inr e ↦ rw e (
      IsFound-later target k keys (find_key target keys) (is_target-not_Names target k e)
        (find_key-IsFound target keys))
]
