-- ===== src/Cloud/Web.antt =====
-- The state of `TTLockCloud` (ttlock_ble/cloud.py) and its `_post`. What the server answers is given
-- as a list of replies, one for each request to come, and the requests are recorded.
pub mod Posted
use ttlock_ble.Base.{
  ℕ, Bool, true, false, not, ◌&&◌, ◌||◌, List, [], ◌∷◌, ◌++◌, Option, none, some, leb, ◌==◌,
  if◌then◌else◌,
}
use ttlock_ble.Base.Bytes.{equal}
use ttlock_ble.Cloud.{CloudApp, CloudCredentials, Packages, Params, sign_request}
use ttlock_ble.Json.{Value, Members, null, boolean, integer, object, get_or, str_of_int}
use ttlock_ble.Outcome.{
  Result, ok, raised, Exn, value_error, cloud_error, new_device_error, http_error, attribute_error,
}
use ttlock_ble.Text.{Text, ℤ, pos, negsuc, codes, decimal}
use mathlib.Core.List.{reverse}

-- A response: its status, and its body as JSON unless that does not parse.
pub record Response : Type 0 where
  pub status : ℕ
  pub json : Option Value

pub record Request : Type 0 where
  pub url : Text
  pub params : Params
  pub headers : Params

-- The client, the answers to come (`none` when httpx raises), and the requests so far. `disk_id` is
-- the install identifier that `load_uniqueid` returns, and `now_ms` the clock in milliseconds.
pub record Web : Type 0 where
  pub app : CloudApp
  pub base_url : Text
  pub language : Text
  pub creds : Option CloudCredentials
  pub site_id : ℤ
  pub country_id : ℤ
  pub uniqueid : Option Text
  pub disk_id : Text
  pub now_ms : ℕ
  pub replies : List (Option Response)
  pub requests : List Request

-- A method: it may raise, and the state that it reached stays.
abbrev pub CloudAct : Type 0 → Type 0
CloudAct A = Web → Result A × Web

abbrev pub continue : {A B : Type 0} → (A → CloudAct B) → Result A × Web → Result B × Web
continue f (ok a, w) = f a w
continue f (raised e, w) = (raised e, w)

infixl 5 ◌>>=◌ ◌>>◌
abbrev pub ◌>>=◌ : {A B : Type 0} → CloudAct A → (A → CloudAct B) → CloudAct B
◌>>=◌ m f w = continue f (m w)

abbrev pub ◌>>◌ : {B : Type 0} → CloudAct (Unit {0}) → CloudAct B → CloudAct B
m >> k = m >>= λ _. k

abbrev pub pure : {A : Type 0} → A → CloudAct A
pure a w = (ok a, w)

abbrev pub lift : {A : Type 0} → Result A → CloudAct A
lift r w = (r, w)

-- `text.rstrip("/")`
drop_slashes : Text → Text
drop_slashes [] = []
drop_slashes (c ∷ cs) = if c == b'/' then drop_slashes cs else c ∷ cs

unfoldable pub rstrip_slashes : Text → Text
unfolding drop_slashes
rstrip_slashes t = reverse (drop_slashes (reverse t))

-- `TTLockCloud.for_app(app, language=...)`
unfoldable pub for_app : CloudApp → Text → Text → ℕ → List (Option Response) → Web
unfolding rstrip_slashes
for_app app language disk_id now_ms replies = record {
  app = app;
  base_url = rstrip_slashes app.base_url;
  language = language;
  creds = none;
  site_id = pos 0;
  country_id = pos 0;
  uniqueid = none;
  disk_id = disk_id;
  now_ms = now_ms;
  replies = replies;
  requests = [];
}

cached_or_loaded : Option Text → CloudAct Text
cached_or_loaded (some t) w = (ok t, w)
cached_or_loaded none w = (ok w.disk_id, record w { uniqueid = some w.disk_id })

-- `_async_uniqueid`
unfoldable pub async_uniqueid : CloudAct Text
unfolding cached_or_loaded
async_uniqueid w = cached_or_loaded w.uniqueid w

has_key : Text → Params → Bool
unfolding equal
has_key key [] = false
has_key key ((k, v) ∷ rest) = equal key k || has_key key rest

-- `params.setdefault(key, value)`
unfoldable pub set_default : Text → Text → Params → Params
unfolding has_key
set_default key value params = if has_key key params then params else params ++ (key, value) ∷ []

unfoldable pub param_or : Text → Text → Params → Text
unfolding equal
param_or key default [] = default
param_or key default ((k, v) ∷ rest) =
    let later = param_or key default rest in if equal key k then v else later

-- Whether a code is `ERR_NEW_DEVICE_LOGIN`.
is_new_device : Value → Bool
is_new_device (integer (negsuc n)) = n == 1013
is_new_device _ = false

-- `CloudError(body)`, whose constructor asks the body for its message.
unfoldable pub error_of : Value → Exn
unfolding is_new_device get_or
error_of (object ms) =
    if is_new_device (get_or (codes "errorCode") null ms) then new_device_error else cloud_error
error_of _ = attribute_error

-- `value in (None, 0)`
unfoldable pub is_no_error : Value → Bool
is_no_error null = true
is_no_error (boolean b) = not b
is_no_error (integer (pos n)) = n == 0
is_no_error _ = false

-- The body of a response that is not an HTTP error.
unfoldable pub checked_body : Option Value → Result Members
unfolding is_no_error get_or error_of
checked_body none = raised value_error
checked_body (some (object ms)) =
    if is_no_error (get_or (codes "errcode") null ms)
      && is_no_error (get_or (codes "errorCode") null ms)
    then ok ms
    else raised (error_of (object ms))
checked_body (some v) = raised attribute_error

refused : Option Value → Exn
unfolding error_of
refused none = cloud_error
refused (some v) = error_of v

-- What `_post` makes of a reply.
unfoldable pub judge : Option Response → Result Members
unfolding checked_body refused
judge none = raised http_error
judge (some r) = if leb 400 r.status then raised (refused r.json) else checked_body r.json

unfoldable pub token_header : Option CloudCredentials → Text
token_header none = []
token_header (some c) = c.access_token

unfoldable pub uid_header : Option CloudCredentials → Text
unfolding str_of_int
uid_header none = []
uid_header (some c) = str_of_int c.uid

unfoldable pub next_reply : List (Option Response) → Option Response
next_reply [] = none
next_reply (r ∷ rs) = r

unfoldable pub later_replies : List (Option Response) → List (Option Response)
later_replies [] = []
later_replies (r ∷ rs) = rs

module _ (p : Packages) where
  -- The request of `_post`, whose clock reads the same both times.
  unfoldable pub request_of : Text → Params → Option Text → Text → Web → Request
  unfolding set_default param_or sign_request
  request_of path params version uniqueid w =
      let now = decimal w.now_ms in
      let params_full = set_default (codes "d") now (set_default (codes "date") now params) in
      let full_path = codes "/lock" ++ path in
      record {
        url = w.base_url ++ full_path;
        params = params_full;
        headers =
            (codes "appid", w.app.app_id)
            ∷ (codes "appSecret", w.app.app_secret)
            ∷ (codes "version", elim version [ none ↦ w.app.version | some v ↦ v ])
            ∷ (codes "platform", w.app.platform)
            ∷ (codes "language", w.language)
            ∷ (codes "packageName", w.app.package_name)
            ∷ (codes "date", param_or (codes "date") now params_full)
            ∷ (codes "uniqueid", uniqueid)
            ∷ (
              codes "signature",
              sign_request p w.app.app_id w.app.app_secret full_path params_full,
            )
            ∷ (codes "refer", codes "0")
            ∷ (
              codes "User-Agent",
              codes "Mozilla/5.0 (Linux; Android 14; ttlock-ble) AppleWebKit/537.36",
            )
            ∷ (codes "accessToken", token_header w.creds)
            ∷ (codes "operatorUid", uid_header w.creds)
            ∷ [];
      }

  -- `_client.post`
  unfoldable pub send : Request → CloudAct Members
  unfolding judge next_reply later_replies
  send request w = (
    judge (next_reply w.replies),
    record w { replies = later_replies w.replies; requests = w.requests ++ request ∷ [] },
  )

  post_as : Text → Params → Option Text → Text → CloudAct Members
  unfolding request_of send
  post_as path params version uniqueid w = send (request_of path params version uniqueid w) w

  -- `_post`
  unfoldable pub post : Text → Params → Option Text → CloudAct Members
  unfolding async_uniqueid post_as
  post path params version = do uniqueid ← async_uniqueid; post_as path params version uniqueid
