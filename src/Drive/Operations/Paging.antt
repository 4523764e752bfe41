-- ===== src/Drive/Operations/Paging.antt =====
-- `List` of internal/adapter/gdrive/gdrive.go reads all the pages.
use mathlib.Core.List.{append-nil}
use syncrules.Prelude.{
  ℕ, zero, suc, ◌≤◌, Text, text_eq, text_iff, length, some, List, [], ◌∷◌, ◌++◌, map, ok, ◌≡◌, ◌≢◌,
  arith,
}
use syncrules.Drive.{DriveService, DriveFile, Page, file_info}
use syncrules.Drive.Queries.{children_query}
use syncrules.Drive.Ids.{Cache}
use syncrules.Drive.Operations.{page_size, pages, infos, find, list}

pub all_files : List Page → List DriveFile
all_files [] = []
all_files (page ∷ more) = page.files ++ all_files more

module _ {W : Type 0} (service : DriveService W) where
  -- The pages of a query from a token on: each is found by the token of the one before, and the last one
  -- has none.
  unfoldable pub IsChain : W → Text → Text → List Page → Type 0
  IsChain w query token [] = ⊥
  IsChain w query token (page ∷ []) =
      (service.list w query page_size token ≡ ok page) × (page.next_page_token ≡ [])
  IsChain w query token (page ∷ next ∷ more) =
      (service.list w query page_size token ≡ ok page)
      × (page.next_page_token ≢ [])
      × IsChain w query page.next_page_token (next ∷ more)

  -- With fuel for each page the loop ends, and it has collected the files of all pages in order.
  pages-IsChain :
      (fuel : ℕ) (w : W) (query token : Text) (chain : List Page)
      → IsChain w query token chain
      → length chain ≤ fuel
      → pages service fuel w query token ≡ some (ok (all_files chain))
  unfolding pages IsChain all_files
  pages-IsChain fuel w query token [] h k = absurd h
  pages-IsChain zero w query token (page ∷ more) h k = absurd (omega arith)
  pages-IsChain (suc fuel) w query token (page ∷ []) (at, last) k =
      ground (arith, append-nil page.files, text_iff page.next_page_token [])
  pages-IsChain (suc fuel) w query token (page ∷ next ∷ more) (at, middle, rest) k =
      let ih = pages-IsChain fuel w query page.next_page_token (next ∷ more) rest (omega arith) in
      ground (arith, ih, text_iff page.next_page_token [])

  -- Where the folder is found and its pages follow each other, `List` returns the infos of the files of
  -- all pages, in order.
  pub list-IsChain :
      (fuel : ℕ) (root path full id : Text) (w : W) (cache cache' : Cache) (chain : List Page)
      → find service root w cache path ≡ (cache', ok (full, id))
      → IsChain w (children_query id) [] chain
      → length chain ≤ fuel
      → list service fuel root w cache path
        ≡ (cache', some (ok (map (file_info path) (all_files chain))))
  unfolding list infos
  list-IsChain fuel root path full id w cache cache' chain found pages_of enough =
      ground (arith, pages-IsChain fuel w (children_query id) [] chain pages_of enough)
