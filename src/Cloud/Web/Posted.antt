-- ===== src/Cloud/Web/Posted.antt =====
-- What `_post` does to the state: it takes one reply, records one request, and loads the install
-- identifier.
use ttlock_ble.Base.{◌≡◌, refl, Option, none, some}
use ttlock_ble.Cloud.{Packages, Params}
use ttlock_ble.Cloud.Web.{
  Web, continue, cached_or_loaded, async_uniqueid, judge, next_reply, later_replies, post, post_as,
  send,
}
use ttlock_ble.Json.{Members}
use ttlock_ble.Outcome.{Result}
use ttlock_ble.Text.{Text}

-- The outcome of a request: the judged reply, and a state that waits for the later ones. The
-- identity, the credentials and the site stay as they are.
pub record IsPosted (w : Web) (r : Result Members × Web) : Type 0 where
  pub outcome : r.0 ≡ judge (next_reply w.replies)
  pub left : r.1.replies ≡ later_replies w.replies
  pub same_url : r.1.base_url ≡ w.base_url
  pub same_app : r.1.app ≡ w.app
  pub same_creds : r.1.creds ≡ w.creds

pub async_uniqueid-same :
    (w : Web)
    → ((async_uniqueid w).1.app ≡ w.app)
      × ((async_uniqueid w).1.base_url ≡ w.base_url)
      × ((async_uniqueid w).1.creds ≡ w.creds)
unfolding async_uniqueid cached_or_loaded
async_uniqueid-same w = at w.uniqueid
  where
    at :
        (o : Option Text)
        → ((cached_or_loaded o w).1.app ≡ w.app)
          × ((cached_or_loaded o w).1.base_url ≡ w.base_url)
          × ((cached_or_loaded o w).1.creds ≡ w.creds)
    at none = (refl, refl, refl)
    at (some t) = (refl, refl, refl)

pub post-IsPosted :
    (p : Packages) (path : Text) (params : Params) (version : Option Text) (w : Web)
    → IsPosted w (post p path params version w)
unfolding post async_uniqueid post_as send cached_or_loaded
post-IsPosted p path params version w = at w.uniqueid
  where
    at :
        (o : Option Text)
        → IsPosted w (continue (post_as p path params version) (cached_or_loaded o w))
    at none = record {
      outcome = refl;
      left = refl;
      same_url = refl;
      same_app = refl;
      same_creds = refl;
    }
    at (some t) = record {
      outcome = refl;
      left = refl;
      same_url = refl;
      same_app = refl;
      same_creds = refl;
    }
