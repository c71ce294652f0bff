-- ===== src/Cli.antt =====
-- ttlock_ble/cli.py: the key cache, the choice of a key and of an app, and the runs against the cloud.
-- What `typer` prints is left out.
pub mod Store
pub mod Runs
use ttlock_ble.Base.{Bool, true, false, ◌||◌, List, [], ◌∷◌, Option, none, some, if◌then◌else◌}
use ttlock_ble.Base.Bytes.{equal}
use ttlock_ble.Cloud.{CloudApp, CloudCredentials, Packages, dlock_xp, schlage_breeze}
use ttlock_ble.Cloud.Account.{
  discover_site, login, request_login_verification_code, validate_new_device,
}
use ttlock_ble.Cloud.Keys.{list_keys}
use ttlock_ble.Cloud.Web.{Web, CloudAct, ◌>>=◌, ◌>>◌, pure, lift}
use ttlock_ble.Json.{Value, Values, Members, array, object, end, item, str_of_int}
use ttlock_ble.Models.VirtualKey.{VirtualKey}
use ttlock_ble.Models.VirtualKey.Cache.{to_dict, from_dict}
use ttlock_ble.Outcome.{
  Result, ok, raised, Exn, cloud_error, new_device_error, bad_parameter, exit_error, type_error,
  attribute_error,
}
use ttlock_ble.Text.{Text, codes, upper}

-- The store holds a list of dictionaries, as `sync` writes it: `json.loads` reads back what
-- `json.dumps([k.to_dict() for k in keys])` wrote.
unfoldable pub stored : List VirtualKey → List Members
unfolding to_dict
stored [] = []
stored (k ∷ ks) = to_dict k ∷ stored ks

unfoldable pub add_row :
    Result (Option VirtualKey)
    → Result (List (Option VirtualKey))
    → Result (List (Option VirtualKey))
add_row (raised e) rest = raised e
add_row (ok k) (raised e) = raised e
add_row (ok k) (ok ks) = ok (k ∷ ks)

-- `[VirtualKey.from_dict(d) for d in raw]`
unfoldable pub keys_of_rows : (Value → Text) → List Members → Result (List (Option VirtualKey))
unfolding from_dict add_row
keys_of_rows repr [] = ok []
keys_of_rows repr (row ∷ rows) = add_row (from_dict repr row) (keys_of_rows repr rows)

-- `_load_keys`, with `none` for a store that does not exist.
unfoldable pub load_keys :
    (Value → Text) → Option (List Members) → Result (List (Option VirtualKey))
unfolding keys_of_rows
load_keys repr none = raised bad_parameter
load_keys repr (some rows) = keys_of_rows repr rows

-- Whether a key is the one that the target names.
unfoldable pub is_target : Text → VirtualKey → Bool
unfolding equal str_of_int upper
is_target target k =
    equal (str_of_int k.lock_id) target
    || equal k.lock_alias target
    || equal (upper k.lock_mac) (upper target)

-- The search of `_resolve_key`.
unfoldable pub find_key : Text → List VirtualKey → Result VirtualKey
unfolding is_target
find_key target [] = raised bad_parameter
find_key target (k ∷ ks) =
    let later = find_key target ks in if is_target target k then ok k else later

-- `_resolve_cloud_app`
unfoldable pub resolve_cloud_app : Text → Result CloudApp
unfolding equal dlock_xp schlage_breeze
resolve_cloud_app name =
    if equal name (codes "dlock_xp")
    then ok dlock_xp
    else if equal name (codes "schlage_breeze")
    then ok schlage_breeze
    else raised bad_parameter

-- `except CloudError`
unfoldable pub is_cloud_error : Exn → Bool
is_cloud_error cloud_error = true
is_cloud_error new_device_error = true
is_cloud_error _ = false

-- `try: await act / except CloudError: ...`, where the handler goes on.
ignore_error : {A : Type 0} → Result A × Web → Result (Unit {0}) × Web
unfolding is_cloud_error
ignore_error (ok a, w) = (ok tt, w)
ignore_error (raised e, w) = if is_cloud_error e then (ok tt, w) else (raised e, w)

module _ (p : Packages) where
  -- The first steps of both runs.
  unfoldable pub try_site : CloudAct (Unit {0})
  unfolding ignore_error
  try_site w = ignore_error (discover_site p w)

  -- The handler of a login that failed: for a new device it asks for a verification code.
  handle_login : Text → Result CloudCredentials × Web → Result CloudCredentials × Web
  handle_login email (ok creds, w) = (ok creds, w)
  handle_login email (raised new_device_error, w) =
      (request_login_verification_code p email 1 >>= λ _. lift (raised exit_error)) w
  handle_login email (raised e, w) = (raised e, w)

  unfoldable pub sign_in : Text → Text → CloudAct CloudCredentials
  unfolding handle_login
  sign_in email password w = handle_login email (login p email password none none w)

  -- `_run_sync`
  unfoldable pub run_sync : Text → Text → CloudAct (List (Option VirtualKey))
  unfolding try_site sign_in
  run_sync email password = do try_site; creds ← sign_in email password; list_keys p

  -- `_run_verify`
  unfoldable pub run_verify : Text → Text → CloudAct Members
  unfolding try_site
  run_verify email code = do try_site; validate_new_device p email code
