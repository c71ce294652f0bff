-- ===== src/Cloud/Keys/Returned.antt =====
-- A key list that is returned is what the pages of the server give.
use ttlock_ble.Base.{ℕ, ◌<◌, ◌≡◌, List, ◌++◌, length, Option}
use ttlock_ble.Cloud.{Packages}
use ttlock_ble.Cloud.Keys.{page_rounds}
use ttlock_ble.Cloud.Keys.Paged.{Paged}
use ttlock_ble.Cloud.Web.{Web, Response}
use ttlock_ble.Models.VirtualKey.{VirtualKey}
use ttlock_ble.Outcome.{ok}
use ttlock_ble.Text.{Text, ℤ}

module _ (p : Packages) (user_info uniqueid : Text) (uid : ℤ) where
  -- What is returned in at most so many rounds is in the pages.
  IsSound : ℕ → Type 0
  IsSound rounds =
      (page_no : ℕ) (keys : List (Option VirtualKey)) (w : Web) (replies : List (Option Response))
      (result : List (Option VirtualKey)) (w' : Web)
      → w.replies ≡ replies
      → length replies < rounds
      → page_rounds p user_info uniqueid uid rounds page_no keys w ≡ (ok result, w')
      → (later : List (Option VirtualKey)) × (result ≡ keys ++ later)
        × Paged p uid page_no replies later w'.replies
