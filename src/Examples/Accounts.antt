-- ===== src/Examples/Accounts.antt =====
-- Tests and applications for keys, capability bits and the cloud client.
use mathlib.Core.List.{Permᴰ}
use ttlock_ble.Base.{◌≡◌, refl, false, ◌&&◌, ◌||◌, [], ◌∷◌, List, Option, some, none}
use ttlock_ble.Cloud.{Packages, Params, schlage_breeze, sign_request}
use ttlock_ble.Cloud.Account.{discover_site, login}
use ttlock_ble.Cloud.Account.Pinned.{IsLogin, discover_site-Pins, login-IsLogin}
use ttlock_ble.Cloud.Keys.Paged.{Paged}
use ttlock_ble.Cloud.Signing.{sign_request-reordered}
use ttlock_ble.Cloud.Web.{Web, Response, for_app}
use ttlock_ble.Commands.DeviceFeature.{DeviceFeatures, supports, feature_value_of}
use ttlock_ble.Commands.DeviceFeature.Bits.{known, unnamed_bits, has_bit, is_in}
use ttlock_ble.Commands.DeviceFeature.Bits.Partition.{known-unnamed_bits}
use ttlock_ble.Json.{Value, integer, array, object, end, empty, member}
use ttlock_ble.Models.LockFeature.{bit, members}
use ttlock_ble.Models.VirtualKey.{VirtualKey, has_feature}
use ttlock_ble.Models.VirtualKey.Features.{has_feature-feature_value_of}
use ttlock_ble.Outcome.{raised, value_error}
use ttlock_ble.Text.{Text, pos, negsuc, codes}
use ttlock_ble.Text.Parsing.{upper_hex}

abbrev pub plain_repr : Value → Text
plain_repr v = codes "?"

-- Bits 0, 1, 17 (which has no name) and 18.
abbrev reported : DeviceFeatures
reported = record { mask = 393219; battery = 80 }

abbrev pub key : VirtualKey
key = record {
  key_id = pos 11;
  lock_id = pos 12;
  lock_mac = codes "C0:FF:EE:22:1D:AA";
  lock_alias = codes "door";
  lock_name = codes "S534_1d22bd";
  lock_version = record {
    protocol_type = 5;
    protocol_version = 3;
    scene = 2;
    group_id = 10;
    org_id = 34;
  };
  aes_key_str = codes "00112233445566778899aabbccddeeff";
  unlock_key = codes "12345";
  lock_flag_pos = pos 0;
  timezone_raw_off_set = negsuc 3599999;
  start_time = pos 0;
  end_time = pos 0;
  key_type = pos 1;
  user_type = codes "110301";
  admin_ps = codes "654321";
  keyboard_pwd_version = pos 4;
  special_value = negsuc 0;
  feature_value = codes "60003";
  uid = pos 77;
}

same_value : codes "60003" ≡ feature_value_of reported
unfolding feature_value_of upper_hex
same_value = refl

has_feature-feature_value_of_example : has_feature key 18 ≡ supports reported 18
has_feature-feature_value_of_example = has_feature-feature_value_of key reported 18 same_value

known-unnamed_bits_example :
    (supports reported 17 ≡ (has_bit 17 (known reported) || is_in 17 (unnamed_bits reported)))
    × ((has_bit 17 (known reported) && is_in 17 (unnamed_bits reported)) ≡ false)
known-unnamed_bits_example = known-unnamed_bits reported 17

one_unnamed : unnamed_bits reported ≡ 17 ∷ []
unfolding unnamed_bits supports has_bit bit members
one_unnamed = refl

-- Packages that only pass their arguments on.
abbrev packages : Packages
packages = record {
  hmac_sha256 = λ secret message. message;
  md5_hex = λ t. t;
  dumps = λ v. codes "{}";
  repr = plain_repr;
  loads = λ t. raised value_error;
}

abbrev two_params : Params
two_params = (codes "pageNo", codes "1") ∷ (codes "d", codes "9") ∷ []

abbrev swapped_params : Params
swapped_params = (codes "d", codes "9") ∷ (codes "pageNo", codes "1") ∷ []

sign_request-reordered_example :
    sign_request packages (codes "app") (codes "secret") (codes "/lock/x") two_params
    ≡ sign_request packages (codes "app") (codes "secret") (codes "/lock/x") swapped_params
sign_request-reordered_example =
    sign_request-reordered packages (codes "app") (codes "secret") (codes "/lock/x")
      {params = two_params} {params' = swapped_params} (Permᴰ.swap refl refl)

-- Two pages: an empty first page of two, and a server error.
abbrev pages : List (Option Response)
pages =
    some (record {
      status = 200;
      json = some (
          object (
            member (codes "keyInfos") (array end)
              (member (codes "pages") (integer (pos 2)) empty)));
    })
    ∷ some (record { status = 500; json = none })
    ∷ []

abbrev cloud : Web
cloud = for_app schlage_breeze (codes "en") (codes "install") 1700000000000 pages

cloud-replies : cloud.replies ≡ pages
unfolding for_app
cloud-replies = refl

pinned : cloud.app.follows_regional_endpoint ≡ false
unfolding for_app schlage_breeze
pinned = refl

discover_site-Pins_example : (discover_site packages cloud).1.base_url ≡ cloud.base_url
discover_site-Pins_example = discover_site-Pins packages cloud pinned

login-IsLogin_example :
    IsLogin cloud (login packages (codes "me") (codes "secret") none (some (pos 3)) cloud)
login-IsLogin_example =
    login-IsLogin packages (codes "me") (codes "secret") none (some (pos 3)) cloud
