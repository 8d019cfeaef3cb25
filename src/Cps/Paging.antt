-- ===== src/Cps/Paging.antt =====
-- What the loop over pages of the Taobao client fetches.
use report_api.Prelude.{ℕ, ◌≡◌, true, some, List, []}
use report_api.Go.Result.{ok}
use report_api.Go.Text.{Str}
use report_api.Callback.Http.{Log}
use report_api.Order.Pages.Loop.{IsPaged, concat, fetch_pages-Fetched}
use report_api.Sign.{Params}
use report_api.Cps.{Client, Network, Library, fetch_top_page, is_last_top_page, query_all_paged}

module _ {J D : Type 0} (json : Library J D) (client : Client) (net : Network) (method : Str)
    (list_path : List Str) (list_key : Str) (params_of : ℕ → Params) where
  -- Entries that are returned are those of the pages from page 1 on, up to the first that says that there
  -- is no next page.
  pub query_all_paged-IsPaged :
      (fuel : ℕ) (log : Log) {all : List D} {log' : Log}
      → query_all_paged json fuel client net method list_path list_key params_of log
        ≡ some (ok all, log')
      → (pages : List (List D)) × IsPaged
          (fetch_top_page json client net method list_path list_key params_of)
          (is_last_top_page json)
          1
          true
          log
          pages
          log'
        × (all ≡ concat pages)
  unfolding query_all_paged
  query_all_paged-IsPaged fuel log h =
      fetch_pages-Fetched (fetch_top_page json client net method list_path list_key params_of)
        (is_last_top_page json) fuel 1 true [] log h
