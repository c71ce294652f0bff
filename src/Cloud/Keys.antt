-- ===== src/Cloud/Keys.antt =====
-- `list_keys` of ttlock_ble/cloud.py: the pages of `/check/syncDataPage`.
pub mod Paged
pub mod Returned
use ttlock_ble.Base.{
  ℕ, zero, suc, ◌+◌, Bool, true, false, not, ◌||◌, List, [], ◌∷◌, ◌++◌, Option, none, some, length,
  leb, if◌then◌else◌,
}
use ttlock_ble.Cloud.{CloudCredentials, Packages, Params}
use ttlock_ble.Cloud.Web.{Web, CloudAct, ◌>>=◌, ◌>>◌, pure, lift, async_uniqueid, post}
use ttlock_ble.Json.{
  Value, Values, Members, null, integer, text, array, object, end, item, empty, member, get_or,
  or_else, int_of_str,
}
use ttlock_ble.Models.VirtualKey.{VirtualKey, from_cloud}
use ttlock_ble.Outcome.{
  Result, ok, raised, Exn, key_error, value_error, type_error, attribute_error, cloud_error,
}
use ttlock_ble.Text.{Text, ℤ, pos, negsuc, codes, decimal}

-- A row, as `from_cloud` reads it; one that is no dictionary has no `get`. The inner `none` is a key
-- whose lock version has a number below zero.
unfoldable pub key_of_row : Packages → ℤ → Value → Result (Option VirtualKey)
unfolding from_cloud
key_of_row p uid (object ms) = from_cloud p.repr p.loads ms uid
key_of_row p uid _ = raised attribute_error

-- `except (KeyError, ValueError, TypeError)`
unfoldable pub is_skipped : Exn → Bool
is_skipped key_error = true
is_skipped value_error = true
is_skipped type_error = true
is_skipped _ = false

add_key :
    Result (Option VirtualKey)
    → Result (List (Option VirtualKey))
    → Result (List (Option VirtualKey))
unfolding is_skipped
add_key (raised e) rest = if is_skipped e then rest else raised e
add_key (ok k) (ok ks) = ok (k ∷ ks)
add_key (ok k) (raised e) = raised e

-- The loop over the rows of a page: malformed rows are skipped.
unfoldable pub keys_of_page : Packages → ℤ → Values → Result (List (Option VirtualKey))
unfolding key_of_row add_key
keys_of_page p uid end = ok []
keys_of_page p uid (item row rows) = add_key (key_of_row p uid row) (keys_of_page p uid rows)

-- What a body says of the paging: its rows, unless they are no list.
unfoldable pub rows_of : Members → Option Values
unfolding get_or or_else
rows_of body =
    elim (or_else (get_or (codes "keyInfos") null body)
      (or_else (get_or (codes "keyList") null body) (array end))) [
        | array rows ↦ some rows
        | _ ↦ none
      ]

unfoldable pub pages_of : (Value → Text) → Members → Result ℤ
unfolding get_or or_else int_of_str
pages_of repr body = int_of_str repr (
    or_else (get_or (codes "pages") null body)
      (or_else (get_or (codes "pageNos") null body) (integer (pos 1))))

-- `page_no >= pages`
unfoldable pub at_last : ℕ → ℤ → Bool
at_last page_no (pos pages) = leb pages page_no
at_last page_no (negsuc n) = true

-- `not page`
unfoldable pub is_empty : Values → Bool
is_empty end = true
is_empty (item v vs) = false

-- What one page adds: its keys, and whether another page follows.
unfoldable pub read_page : Packages → ℤ → ℕ → Members → Result (List (Option VirtualKey) × Bool)
unfolding keys_of_page rows_of pages_of at_last is_empty
read_page p uid page_no body = elim (rows_of body) [
  | none ↦ ok ([], false)
  | some rows ↦ elim (keys_of_page p uid rows) [
    | raised e ↦ raised e
    | ok keys ↦ elim (pages_of p.repr body) [
      | raised e ↦ raised e
      | ok pages ↦ ok (keys, not (at_last page_no pages || is_empty rows))
    ]
  ]
]

module _ (p : Packages) (user_info uniqueid : Text) (uid : ℤ) where
  page_params : ℕ → Params
  page_params page_no =
      (codes "lastUpdateDate", codes "0")
      ∷ (codes "pageNo", decimal page_no)
      ∷ (codes "userInfo", user_info)
      ∷ (codes "uniqueid", uniqueid)
      ∷ []

  unfoldable pub query_page : ℕ → CloudAct Members
  unfolding post page_params
  query_page page_no = post p (codes "/check/syncDataPage") (page_params page_no) none

  -- The keys before those of the pages that follow.
  unfoldable pub go_on :
      List (Option VirtualKey)
      → Bool
      → CloudAct (List (Option VirtualKey))
      → CloudAct (List (Option VirtualKey))
  go_on keys more rest = if more then rest else pure keys

  -- The loop from a page on, with the keys so far; without a reply left no round comes back.
  unfoldable pub page_rounds :
      ℕ → ℕ → List (Option VirtualKey) → CloudAct (List (Option VirtualKey))
  unfolding query_page read_page go_on
  page_rounds zero page_no keys = pure keys
  page_rounds (suc rounds) page_no keys = do
    body ← query_page page_no
    (found, more) ← lift (read_page p uid page_no body)
    go_on (keys ++ found) more (page_rounds rounds (page_no + 1) (keys ++ found))

-- `json.dumps` of the description of the device.
user_info_of : Packages → Web → Text
user_info_of p w = p.dumps (
    object (
      member (codes "appVersion") (text (codes "1.6.0")) (
        member (codes "deviceName") (text (codes "ttlock-ble")) (
          member (codes "language") (text w.language) (
            member (codes "deviceSystemVersion") (text (codes "Linux/macOS"))
              (member (codes "packageName") (text w.app.package_name) empty))))))

list_with : Packages → Option CloudCredentials → CloudAct (List (Option VirtualKey))
unfolding user_info_of page_rounds
list_with p none = lift (raised cloud_error)
list_with p (some creds) = do
  uniqueid ← async_uniqueid
  λ w. page_rounds p (user_info_of p w) uniqueid creds.uid (suc (length w.replies)) 1 [] w

unfoldable pub list_keys : Packages → CloudAct (List (Option VirtualKey))
unfolding list_with
list_keys p w = list_with p w.creds w
