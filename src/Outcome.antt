-- ===== src/Outcome.antt =====
-- Exceptions as values: what a Python call of this package may raise.
pub mod Access
use ttlock_ble.Base.{◌≡◌, refl, Bool, true, false, ◌⊎◌, inl, inr}

-- The classes that the code raises or lets escape. `UnicodeDecodeError` and `UnicodeEncodeError`
-- are `ValueError`s, `bleak_error` and `http_error` are whatever bleak and httpx raise, `tt_lock_error` and `cloud_error`
-- are the classes of `ttlock_ble.exceptions`; `new_device_error` is a `CloudError` whose body has the
-- code -1014. `bad_parameter` and `exit_error` are typer's.
pub data Exn : Type 0 where
  value_error runtime_error overflow_error index_error key_error type_error assertion_error : Exn
  tt_lock_error cloud_error new_device_error bleak_error http_error attribute_error : Exn
  bad_parameter exit_error : Exn

pub data Result {ℓ} (A : Type ℓ) : Type ℓ where
  raised : Exn → Result A
  ok : A → Result A

-- `if bad: raise e`
abbrev pub refuse_if : Bool → Exn → Result (Unit {0})
refuse_if true e = raised e
refuse_if false e = ok tt

-- `except (RuntimeError, ValueError) as error: raise TTLockError(...) from error`
unfoldable pub fold_parse_error : Exn → Exn
fold_parse_error value_error = tt_lock_error
fold_parse_error runtime_error = tt_lock_error
fold_parse_error e = e

-- `except ValueError as error: raise TTLockError(...) from error`
unfoldable pub fold_value_error : Exn → Exn
fold_value_error value_error = tt_lock_error
fold_value_error e = e

-- A raise ends the chain.
infixl 5 ◌>>=◌ ◌>>◌
abbrev pub ◌>>=◌ {ℓ κ} : {B : Type κ} {A : Type ℓ} → Result A → (A → Result B) → Result B
raised e >>= next = raised e
ok value >>= next = next value

abbrev pub ◌>>◌ {κ} : {B : Type κ} → Result (Unit {0}) → Result B → Result B
check >> next = check >>= λ _. next

-- A chain that succeeds had a first step that did.
>>=-eq-ok {ℓ κ} :
    {B : Type κ} {A : Type ℓ} (first : Result A) (next : A → Result B) {result : B}
    → (first >>= next) ≡ ok result
    → (value : A) × (first ≡ ok value) × (next value ≡ ok result)
>>=-eq-ok (raised e) next h = cc
>>=-eq-ok (ok value) next h = (value, refl, h)
