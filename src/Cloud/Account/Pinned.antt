-- ===== src/Cloud/Account/Pinned.antt =====
-- Which parts of its state an account operation may change: the endpoint, and the credentials.
use ttlock_ble.Base.{
  ◌≡◌, refl, ap, ◌∙◌, arith, Bool, false, [], ◌∷◌, Option, none, some, ◌&&◌, if◌then◌else◌,
}
use ttlock_ble.Cloud.{CloudCredentials, Packages}
use ttlock_ble.Cloud.Account.{
  moved_url, set_site, adopt_site, ask_site, discover_site, ask_login, enter, login, credentials_of,
  login_params,
}
use ttlock_ble.Cloud.Web.{Web, CloudAct, continue, ◌>>=◌, pure, rstrip_slashes, async_uniqueid}
use ttlock_ble.Cloud.Web.Posted.{async_uniqueid-same, post-IsPosted}
use ttlock_ble.Json.{Value, Members, truthy, get_or, null, str_of}
use ttlock_ble.Outcome.{Result, ok, raised}
use ttlock_ble.Text.{Text, ℤ, codes}

-- The app and its endpoint are those of the earlier state.
IsPinned : {A : Type 0} → Web → Result A × Web → Type 0
IsPinned w r = (r.1.app ≡ w.app) × (r.1.base_url ≡ w.base_url)

-- An act that pins the endpoint of an app that does not follow its region.
Pins : {A : Type 0} → CloudAct A → Type 0
Pins m = (w : Web) → w.app.follows_regional_endpoint ≡ false → IsPinned w (m w)

continue-IsPinned :
    {A B : Type 0} (w : Web) (r : Result A × Web) (f : A → CloudAct B)
    → w.app.follows_regional_endpoint ≡ false
    → IsPinned w r
    → ((a : A) → Pins (f a))
    → IsPinned w (continue f r)
unfolding IsPinned Pins
continue-IsPinned w (raised e, w') f h (a, u) k = (a, u)
continue-IsPinned w (ok x, w') f h (a, u) k =
    let (a', u') = k x w' (ap (λ app. app.follows_regional_endpoint) a ∙ h) in (a' ∙ a, u' ∙ u)

>>=-Pins :
    {A B : Type 0} (m : CloudAct A) (f : A → CloudAct B)
    → Pins m
    → ((a : A) → Pins (f a))
    → Pins (m >>= f)
unfolding Pins
>>=-Pins m f h k w e = continue-IsPinned w (m w) f e (h w e) k

async_uniqueid-Pins : Pins async_uniqueid
unfolding Pins IsPinned
async_uniqueid-Pins w e = let (app, url, creds) = async_uniqueid-same w in (app, url)

ask_site-Pins : (p : Packages) (uniqueid : Text) → Pins (ask_site p uniqueid)
unfolding Pins IsPinned ask_site
ask_site-Pins p uniqueid w e =
    let posted =
      post-IsPosted p (codes "/system/getCountryAndSiteInfo") ((codes "uniqueid", uniqueid) ∷ [])
        none w in
    (posted.same_app, posted.same_url)

no_move : (t follows : Bool) → follows ≡ false → (t && follows) ≡ false
no_move t follows h = ground arith

set_site-keeps :
    (site country : Result ℤ) (w : Web)
    → ((set_site site country w).1.app ≡ w.app)
      × ((set_site site country w).1.base_url ≡ w.base_url)
unfolding set_site
set_site-keeps (raised e) country w = (refl, refl)
set_site-keeps (ok site) (raised e) w = (refl, refl)
set_site-keeps (ok site) (ok country) w = (refl, refl)

moved_url-pinned :
    (repr : Value → Text) (api : Value) (w : Web)
    → w.app.follows_regional_endpoint ≡ false
    → moved_url repr api w ≡ w.base_url
unfolding moved_url
moved_url-pinned repr api w e =
    ap (λ b. if b then rstrip_slashes (str_of repr api) else w.base_url)
      (no_move (truthy api) w.app.follows_regional_endpoint e)

adopt_site-Pins : (p : Packages) (body : Members) → Pins (adopt_site p body)
unfolding adopt_site Pins IsPinned
adopt_site-Pins p body w e =
    let (app, url) = set_site-keeps _ _ _ in
    (app, url ∙ moved_url-pinned p.repr (get_or (codes "apiDomainName") null body) w e)

-- `discover_site` leaves the endpoint of a pinned app alone, whatever the server answers.
pub discover_site-Pins :
    (p : Packages) (w : Web)
    → w.app.follows_regional_endpoint ≡ false
    → (discover_site p w).1.base_url ≡ w.base_url
unfolding discover_site Pins IsPinned
discover_site-Pins p w e =
    (>>=-Pins async_uniqueid (λ uniqueid. ask_site p uniqueid >>= adopted) async_uniqueid-Pins
      (λ uniqueid. >>=-Pins (ask_site p uniqueid) adopted (ask_site-Pins p uniqueid) (λ body.
        >>=-Pins (adopt_site p body) (λ _. pure body) (adopt_site-Pins p body)
          (λ _ w e. (refl, refl))))
      w e).1
  where
    adopted : Members → CloudAct Members
    adopted body = adopt_site p body >>= λ _. pure body

-- Credentials that were returned are kept; after a raise those from before are.
pub IsLogin : Web → Result CloudCredentials × Web → Type 0
IsLogin w (ok creds, w') = w'.creds ≡ some creds
IsLogin w (raised e, w') = w'.creds ≡ w.creds

enter-IsLogin :
    (w w' : Web) (r : Result CloudCredentials) → w'.creds ≡ w.creds → IsLogin w (enter r w')
unfolding enter IsLogin
enter-IsLogin w w' (raised e) h = h
enter-IsLogin w w' (ok creds) h = refl

entered-IsLogin :
    (p : Packages) (username : Text) (w : Web) (r : Result Members × Web)
    → r.1.creds ≡ w.creds
    → IsLogin w (continue (λ body. enter (credentials_of p.repr username body)) r)
unfolding IsLogin
entered-IsLogin p username w (raised e, w') h = h
entered-IsLogin p username w (ok body, w') h =
    enter-IsLogin w w' (credentials_of p.repr username body) h

ask_login-same :
    (p : Packages) (username password : Text) (country_id site_id : Option ℤ) (uniqueid : Text)
    (w : Web)
    → (ask_login p username password country_id site_id uniqueid w).1.creds ≡ w.creds
unfolding ask_login
ask_login-same p username password country_id site_id uniqueid w =
    (post-IsPosted p (codes "/user/login")
      (login_params p username password country_id site_id uniqueid w) none w).same_creds

asked-IsLogin :
    (p : Packages) (username password : Text) (country_id site_id : Option ℤ) (w : Web)
    (r : Result Text × Web)
    → r.1.creds ≡ w.creds
    → IsLogin w (
        continue
          (λ uniqueid. ask_login p username password country_id site_id uniqueid >>= λ body.
            enter (credentials_of p.repr username body))
          r)
unfolding IsLogin
asked-IsLogin p username password country_id site_id w (raised e, w') h = h
asked-IsLogin p username password country_id site_id w (ok uniqueid, w') h =
    entered-IsLogin p username w (ask_login p username password country_id site_id uniqueid w')
      (ask_login-same p username password country_id site_id uniqueid w' ∙ h)

-- A login that raises leaves the credentials as they were, and one that returns credentials keeps
-- those it returns.
pub login-IsLogin :
    (p : Packages) (username password : Text) (country_id site_id : Option ℤ) (w : Web)
    → IsLogin w (login p username password country_id site_id w)
unfolding login
login-IsLogin p username password country_id site_id w =
    let (app, url, creds) = async_uniqueid-same w in
    asked-IsLogin p username password country_id site_id w (async_uniqueid w) creds
