-- ===== src/Cloud/Keys/Paged.antt =====
-- The key list against its specification: the pages from the first to the last, in order.
use ttlock_ble.Base.{
  ℕ, zero, suc, ◌+◌, ◌<◌, ◌≡◌, refl, ap, ◌∙◌, arith, Bool, true, false, List, ◌∷◌, ◌++◌, length,
  append_assoc, Option, none,
}
use ttlock_ble.Cloud.{Packages}
use ttlock_ble.Cloud.Keys.{page_params, query_page, read_page, page_rounds, go_on}
use ttlock_ble.Cloud.Web.{Web, Response, continue, judge, next_reply, later_replies}
use ttlock_ble.Cloud.Web.Posted.{post-IsPosted}
use ttlock_ble.Json.{Members}
use ttlock_ble.Models.VirtualKey.{VirtualKey}
use ttlock_ble.Outcome.{Result, ok}
use ttlock_ble.Text.{Text, ℤ, codes}

-- The keys of the pages from `page_no` on, up to the page behind which there is none, as the replies
-- of the server give them, and the replies that are left.
pub data Paged (p : Packages) (uid : ℤ)
    : ℕ → List (Option Response) → List (Option VirtualKey) → List (Option Response) → Type 0 where
  last :
      {page_no : ℕ} {reply : Option Response} {rest : List (Option Response)} {body : Members}
      {keys : List (Option VirtualKey)}
      → judge reply ≡ ok body
      → read_page p uid page_no body ≡ ok (keys, false)
      → Paged p uid page_no (reply ∷ rest) keys rest
  onward :
      {page_no : ℕ} {reply : Option Response} {rest left : List (Option Response)} {body : Members}
      {keys later : List (Option VirtualKey)}
      → judge reply ≡ ok body
      → read_page p uid page_no body ≡ ok (keys, true)
      → Paged p uid (page_no + 1) rest later left
      → Paged p uid page_no (reply ∷ rest) (keys ++ later) left

module _ (p : Packages) (user_info uniqueid : Text) (uid : ℤ) where
  -- What the loop does with what it read, and with one body.
  abbrev pub after_read :
      ℕ
      → ℕ
      → List (Option VirtualKey)
      → List (Option VirtualKey) × Bool
      → Web
      → Result (List (Option VirtualKey)) × Web
  after_read rounds page_no keys (found, more) =
      go_on p user_info uniqueid uid (keys ++ found) more
        (page_rounds p user_info uniqueid uid rounds (page_no + 1) (keys ++ found))

  abbrev pub after_body :
      ℕ → ℕ → List (Option VirtualKey) → Members → Web → Result (List (Option VirtualKey)) × Web
  after_body rounds page_no keys body w =
      continue (after_read rounds page_no keys) (read_page p uid page_no body, w)

  pub page_rounds-step :
      (rounds page_no : ℕ) (keys : List (Option VirtualKey)) (w : Web)
      → page_rounds p user_info uniqueid uid (suc rounds) page_no keys w
        ≡ continue (after_body rounds page_no keys) (query_page p user_info uniqueid uid page_no w)
  unfolding page_rounds
  page_rounds-step rounds page_no keys w = refl

  -- A query with a good reply.
  pub queried :
      {reply : Option Response} {rest : List (Option Response)} {body : Members} (page_no : ℕ)
      (w : Web)
      → w.replies ≡ reply ∷ rest
      → judge reply ≡ ok body
      → (w' : Web) × (query_page p user_info uniqueid uid page_no w ≡ (ok body, w'))
        × (w'.replies ≡ rest)
  unfolding query_page next_reply later_replies
  queried page_no w e j =
      let posted =
        post-IsPosted p (codes "/check/syncDataPage") (page_params p user_info uniqueid uid page_no)
          none w in
      (
        _,
        ap (λ r. (r, (query_page p user_info uniqueid uid page_no w).1))
            (posted.outcome ∙ ap (λ rs. judge (next_reply rs)) e ∙ j),
        posted.left ∙ ap later_replies e,
      )

  pub page_rounds-read :
      {body : Members} {w1 : Web} (w : Web) (rounds page_no : ℕ) (keys : List (Option VirtualKey))
      (read : Result (List (Option VirtualKey) × Bool))
      → query_page p user_info uniqueid uid page_no w ≡ (ok body, w1)
      → read_page p uid page_no body ≡ read
      → page_rounds p user_info uniqueid uid (suc rounds) page_no keys w
        ≡ continue (after_read rounds page_no keys) (read, w1)
  page_rounds-read {w1 = w1} w rounds page_no keys read q r =
      page_rounds-step rounds page_no keys w
      ∙ ap (continue (after_body rounds page_no keys)) q
      ∙ ap (λ t. continue (after_read rounds page_no keys) (t, w1)) r

  -- Every sequence of pages that the server gives is returned.
  pub Paged-page_rounds :
      {page_no : ℕ} {replies left : List (Option Response)} {found : List (Option VirtualKey)}
      → Paged p uid page_no replies found left
      → (rounds : ℕ) (keys : List (Option VirtualKey)) (w : Web) → w.replies ≡ replies
      → length replies < rounds
      → (w' : Web) × (page_rounds p user_info uniqueid uid rounds page_no keys w
          ≡ (ok (keys ++ found), w'))
        × (w'.replies ≡ left)
  unfolding go_on
  Paged-page_rounds (last j r) zero keys w e h = absurd (omega arith)
  Paged-page_rounds (onward j r more) zero keys w e h = absurd (omega arith)
  Paged-page_rounds (last {page_no} j r) (suc rounds) keys w e h =
      let (w1, q, left) = queried page_no w e j in
      (w1, page_rounds-read w rounds page_no keys _ q r, left)
  Paged-page_rounds (onward {page_no} {keys = found} {later = later} j r more) (suc rounds) keys w e
        h =
      let (w1, q, left1) = queried page_no w e j in
      let (w2, ends, left2) =
        Paged-page_rounds more rounds (keys ++ found) w1 left1 (omega arith) in
      (
        w2,
        page_rounds-read w rounds page_no keys _ q r
            ∙ ends
            ∙ ap (λ ks. (ok ks, w2)) (append_assoc keys found later),
        left2,
      )
