-- ===== src/Cloud/Account.antt =====
-- `login`, the new-device verification and `discover_site` of ttlock_ble/cloud.py.
pub mod Pinned
use ttlock_ble.Base.{
  ℕ, Bool, true, false, not, ◌&&◌, ◌||◌, List, [], ◌∷◌, ◌++◌, Option, none, some, if◌then◌else◌,
}
use ttlock_ble.Cloud.{CloudApp, CloudCredentials, Packages, Params}
use ttlock_ble.Cloud.Web.{
  Web, CloudAct, ◌>>=◌, ◌>>◌, pure, lift, rstrip_slashes, async_uniqueid, post,
}
use ttlock_ble.Json.{Value, Members, null, get_or, truthy, or_else, str_of, str_of_int, int_of_str}
use ttlock_ble.Outcome.{Result, ok, raised, cloud_error}
use ttlock_ble.Text.{Text, ℤ, codes, decimal}

is_null : Value → Bool
is_null null = true
is_null _ = false

number_or : Option ℤ → ℤ → Text
unfolding str_of_int
number_or none default = str_of_int default
number_or (some n) default = str_of_int n

-- The identity in the answer to a login.
unfoldable pub credentials_of : (Value → Text) → Text → Members → Result CloudCredentials
unfolding get_or or_else truthy str_of int_of_str is_null
credentials_of repr username body =
    let uid_field =
      or_else (get_or (codes "uid") null body)
        (or_else (get_or (codes "user_id") null body) (get_or (codes "userId") null body)) in
    let token =
      or_else (get_or (codes "accessToken") null body) (get_or (codes "access_token") null body) in
    if is_null uid_field || not (truthy token)
    then raised cloud_error
    else elim (int_of_str repr uid_field) [
      | raised e ↦ raised e
      | ok uid ↦ ok (record { uid = uid; access_token = str_of repr token; username = username })
    ]

-- `base_url` after the site is known.
unfoldable pub moved_url : (Value → Text) → Value → Web → Text
unfolding truthy str_of rstrip_slashes
moved_url repr api w =
    if truthy api && w.app.follows_regional_endpoint
    then rstrip_slashes (str_of repr api)
    else w.base_url

-- A number in the answer, unless it is absent or null.
unfoldable pub reported_or : (Value → Text) → Value → ℤ → Result ℤ
unfolding int_of_str
reported_or repr null current = ok current
reported_or repr v current = int_of_str repr v

-- `self.creds = ...`, when the answer has an identity.
enter : Result CloudCredentials → CloudAct CloudCredentials
enter (raised e) w = (raised e, w)
enter (ok creds) w = (ok creds, record w { creds = some creds })

-- The site and the country are set one after the other.
set_site : Result ℤ → Result ℤ → CloudAct (Unit {0})
set_site (raised e) country w = (raised e, w)
set_site (ok site) (raised e) w = (raised e, record w { site_id = site })
set_site (ok site) (ok country) w = (ok tt, record w { site_id = site; country_id = country })

module _ (p : Packages) where
  login_params : Text → Text → Option ℤ → Option ℤ → Text → Web → Params
  unfolding number_or
  login_params username password country_id site_id uniqueid w =
      (codes "username", username)
      ∷ (codes "password", p.md5_hex password)
      ∷ (codes "platId", codes "1")
      ∷ (codes "uniqueid", uniqueid)
      ∷ (codes "packageName", w.app.package_name)
      ∷ (codes "countryId", number_or country_id w.country_id)
      ∷ (codes "siteId", number_or site_id w.site_id)
      ∷ (codes "install", codes "install:" ++ w.app.package_name)
      ∷ []

  ask_login : Text → Text → Option ℤ → Option ℤ → Text → CloudAct Members
  unfolding post login_params
  ask_login username password country_id site_id uniqueid w =
      post p (codes "/user/login") (login_params username password country_id site_id uniqueid w)
        none w

  unfoldable pub login : Text → Text → Option ℤ → Option ℤ → CloudAct CloudCredentials
  unfolding async_uniqueid ask_login credentials_of enter
  login username password country_id site_id = do
    uniqueid ← async_uniqueid
    body ← ask_login username password country_id site_id uniqueid
    enter (credentials_of p.repr username body)

  unfoldable pub request_login_verification_code : Text → ℕ → CloudAct Members
  unfolding async_uniqueid post str_of_int
  request_login_verification_code account channel = do
    uniqueid ← async_uniqueid
    λ w.
        post p (codes "/user/sendValidationCode")
          ((codes "account", account)
            ∷ (codes "uniqueid", uniqueid)
            ∷ (codes "codeType", codes "4")
            ∷ (codes "xWidth", codes "0")
            ∷ (codes "channel", decimal channel)
            ∷ (codes "language", w.language)
            ∷ (codes "siteId", str_of_int w.site_id)
            ∷ [])
          (some (codes "2.3")) w

  unfoldable pub validate_new_device : Text → Text → CloudAct Members
  unfolding async_uniqueid post str_of_int
  validate_new_device account verification_code = do
    uniqueid ← async_uniqueid
    λ w.
        post p (codes "/user/loginNewDeviceValidation")
          ((codes "userid", account)
            ∷ (codes "uniqueid", uniqueid)
            ∷ (codes "verificationCode", verification_code)
            ∷ (codes "platId", codes "1")
            ∷ (codes "countryId", str_of_int w.country_id)
            ∷ (codes "siteId", str_of_int w.site_id)
            ∷ [])
          none w

  ask_site : Text → CloudAct Members
  unfolding post
  ask_site uniqueid =
      post p (codes "/system/getCountryAndSiteInfo") ((codes "uniqueid", uniqueid) ∷ []) none

  -- What `discover_site` takes from the answer.
  adopt_site : Members → CloudAct (Unit {0})
  unfolding get_or moved_url reported_or set_site
  adopt_site body w =
      set_site (reported_or p.repr (get_or (codes "siteId") null body) w.site_id)
        (reported_or p.repr (get_or (codes "countryId") null body) w.country_id)
        (record w { base_url = moved_url p.repr (get_or (codes "apiDomainName") null body) w })

  unfoldable pub discover_site : CloudAct Members
  unfolding async_uniqueid ask_site adopt_site
  discover_site = do uniqueid ← async_uniqueid; body ← ask_site uniqueid; adopt_site body; pure body
