-- ===== src/Cloud.antt =====
-- ttlock_ble/_cloud_helpers.py and the models of the cloud client: the identity of an app, the
-- signature of a request, the site of an account.
pub mod Signing
pub mod Web
pub mod Account
pub mod Keys
use ttlock_ble.Base.{
  ℕ, ◌+◌, Bool, true, false, ◌&&◌, ◌||◌, List, [], ◌∷◌, ◌++◌, Option, none, some, ltb, ◌==◌,
  if◌then◌else◌,
}
use ttlock_ble.Base.Bytes.{Bytes, equal}
use ttlock_ble.Json.{Value, Members, null, integer, text, get_or, truthy, str_of, int_of_str}
use ttlock_ble.Outcome.{Result, ok, ◌>>=◌}
use ttlock_ble.Text.{Text, ℤ, pos, codes}
use ttlock_ble.Text.Base64.{b64encode}

-- The packages outside the repository: HMAC-SHA256 of UTF-8 texts, MD5 in hexadecimal, `json.dumps`,
-- and `str` of lists and dictionaries.
pub record Packages : Type 0 where
  pub hmac_sha256 : Text → Text → Bytes
  pub md5_hex : Text → Text
  pub dumps : Value → Text
  pub repr : Value → Text
  pub loads : Text → Result Value

pub record CloudApp : Type 0 where
  pub app_id : Text
  pub app_secret : Text
  pub package_name : Text
  pub base_url : Text
  pub version : Text
  pub platform : Text
  pub follows_regional_endpoint : Bool

pub record CloudCredentials : Type 0 where
  pub uid : ℤ
  pub access_token : Text
  pub username : Text

unfoldable pub dlock_xp : CloudApp
dlock_xp = record {
  app_id = codes "9aa8af853eea43fa839a0a474ee9d8ab";
  app_secret = codes "07752080e28d43e5f8a7cdb8aad3c0c3";
  package_name = codes "com.dlock.smart";
  base_url = codes "https://servlet.ttlock.com";
  version = codes "2.2";
  platform = codes "Android-1.6.0";
  follows_regional_endpoint = true;
}

unfoldable pub schlage_breeze : CloudApp
schlage_breeze = record {
  app_id = codes "117e1efe3bbd403bb72f62759123801a";
  app_secret = codes "eb6af53b570ea12517951d34df1e93fe";
  package_name = codes "com.breeze.lock";
  base_url = codes "https://euservlet.ttlock.com";
  version = codes "2.2";
  platform = codes "iOS-2.3.0";
  follows_regional_endpoint = false;
}

-- The parameters of a request: a dictionary of strings, in the order of insertion.
abbrev pub Params : Type 0
Params = List (Text × Text)

-- `a <= b` on strings.
unfoldable pub text_le : Text → Text → Bool
text_le [] t = true
text_le (a ∷ cs) [] = false
text_le (a ∷ cs) (b ∷ ds) = ltb a b || a == b && text_le cs ds

-- `a <= b` on pairs.
unfoldable pub item_le : Text × Text → Text × Text → Bool
unfolding text_le equal
item_le (k, v) (k', v') = if equal k k' then text_le v v' else text_le k k'

unfoldable pub insert : Text × Text → Params → Params
unfolding item_le
insert item [] = item ∷ []
insert item (x ∷ xs) =
    let later = insert item xs in if item_le item x then item ∷ x ∷ xs else x ∷ later

-- `sorted(items)`
unfoldable pub sorted : Params → Params
unfolding insert
sorted [] = []
sorted (item ∷ items) = insert item (sorted items)

-- `"&".join(f"{k}={v}" for k, v in items)`
unfoldable pub query_string : Params → Text
query_string [] = []
query_string ((k, v) ∷ []) = k ++ b'=' ∷ v
query_string ((k, v) ∷ item ∷ items) = k ++ b'=' ∷ v ++ b'&' ∷ query_string (item ∷ items)

unfoldable pub sign_request : Packages → Text → Text → Text → Params → Text
unfolding sorted query_string
sign_request p app_id app_secret path params =
    b64encode (p.hmac_sha256 app_secret (path ++ b'?' ∷ query_string (sorted params) ++ app_id))

pub record SiteInfo : Type 0 where
  pub site_id : ℤ
  pub country_id : ℤ
  pub api_domain_name : Text
  pub gateway_domain_name : Text
  pub wifi_lock_domain_name : Text
  pub name : Text

-- `SiteInfo.from_payload`
unfoldable pub site_info_of : (Value → Text) → Members → Result SiteInfo
unfolding get_or truthy str_of int_of_str
site_info_of repr payload = do
  let api = get_or (codes "apiDomainName") null payload
  site_id ← int_of_str repr (get_or (codes "siteId") (integer (pos 0)) payload)
  country_id ← int_of_str repr (get_or (codes "countryId") (integer (pos 0)) payload)
  ok (record {
    site_id = site_id;
    country_id = country_id;
    api_domain_name = if truthy api then str_of repr api else codes "https://servlet.ttlock.com";
    gateway_domain_name = str_of repr (get_or (codes "gatewayDomainName") (text []) payload);
    wifi_lock_domain_name = str_of repr (get_or (codes "wifiLockDomainName") (text []) payload);
    name = str_of repr (get_or (codes "name") (text []) payload);
  })
