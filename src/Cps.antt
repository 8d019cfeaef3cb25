-- ===== src/Cps.antt =====
-- The Taobao client of common/topsdk-go: `DoJson` of client.go, and the loop over pages that
-- queryOrder.go, queryUser.go and queryIncome.go share. The reports of service/cps_*.go stand on it.
pub mod Paging
pub mod Orders
pub mod Incomes
pub mod Batch
pub mod Options
use report_api.Prelude.{
  ℕ, ◌==◌, Bool, true, false, not, Option, none, some, List, [], ◌∷◌, ◌++◌, if◌then◌else◌,
}
use report_api.Go.Result.{Error, Result, ok, err, errorf}
use report_api.Go.Returns.{Returns, failed, returned, ◌>>=◌}
use report_api.Go.Hex.{hex, to_upper}
use report_api.Go.Md5.{md5}
use report_api.Go.Text.{Str, Bytes, codes, utf8, str_eq}
use report_api.Go.Url.{Values, set, encode}
use report_api.Callback.Http.{Log}
use report_api.Order.Pages.{fetch_pages}
use report_api.Sign.{Params, sign_str}

-- `Client`, as `NewClient` makes it with a session.
pub record Client : Type 0 where
  pub app_key : Str
  pub app_secret : Str
  pub session : Str

-- The two keys may not be empty.
unfoldable pub new_client : Str → Str → Str → Returns Client
new_client app_key app_secret session =
    if str_eq app_key []
    then failed (errorf "app key cannot be empty")
    else if str_eq app_secret []
    then failed (errorf "app secret cannot be empty")
    else returned (record { app_key = app_key; app_secret = app_secret; session = session })

-- What `new_client` gives for the keys of the three files.
abbrev pub cps_client : Client
cps_client = record {
  app_key = codes "35026206";
  app_secret = codes "8e7c9f532cac60b5baf0445eb0a3ab0e";
  session = codes "50000001826x672mspeYfgw6rWYjhitm4irSBE13493b04wFxuBJvvrus1enPitWidLM";
}

-- `client.Do` and the reply's status and body, by the bodies that were posted before; and the decimal
-- text of the current second.
pub record Network : Type 0 where
  pub respond : Log → Bytes → Returns (ℕ × Returns Bytes)
  pub unix_seconds : Log → Str

-- What the code uses of the library go-simplejson, with `json.Marshal` and `json.Unmarshal` of an entry:
-- `error_response` is the error that `checkErrorResp` makes of an entry "error_response".
pub record Library (J D : Type 0) : Type 0 where
  pub new_json : Bytes → Returns J
  pub error_response : J → Option Error
  pub get : Str → J → J
  pub array : J → Option (List J)
  pub bool : J → Bool
  pub decode : J → Option D

-- The parameters as `interfaceToString` shows them; every key here is new to the map.
unfoldable pub set_common_params : Client → Str → Params → Params
set_common_params client timestamp params =
    params
    ++ (codes "app_key", client.app_key)
      ∷ (codes "timestamp", timestamp)
      ∷ (codes "format", codes "json")
      ∷ (codes "v", codes "2.0")
      ∷ (codes "sign_method", codes "md5")
      ∷ (if str_eq client.session [] then [] else (codes "session", client.session) ∷ [])

unfoldable pub top_sign : Params → Str → Str → Bytes
unfolding sign_str md5 hex to_upper utf8
top_sign params secret body =
    to_upper (hex (md5 (utf8 secret ++ sign_str params ++ utf8 body ++ utf8 secret)))

unfoldable pub set_all : Values → Params → Values
unfolding set utf8
set_all values [] = values
set_all values ((k, v) ∷ params) = set_all (set values k (utf8 v)) params

-- The parameters with their signature, as the body that is posted.
unfoldable pub request_data : Params → Bytes → Bytes
unfolding set_all encode
request_data params sign = encode (set (set_all [] params) (codes "sign") sign)

unfoldable pub checked_body : ℕ × Returns Bytes → Returns Bytes
checked_body (status, body) = if status == 200 then body else failed (errorf "status")

-- `c.do`.
unfoldable pub post : Network → Bytes → Log → Returns Bytes × Log
unfolding checked_body
post net body log = ((do reply ← net.respond log body; checked_body reply), log ++ body ∷ [])

module _ {J D : Type 0} (json : Library J D) where
  no_error : J → Option Error → Returns J
  no_error j none = returned j
  no_error j (some e) = failed e

  unfoldable pub bytes_to_result : Bytes → Returns J
  unfolding no_error
  bytes_to_result bytes = do j ← json.new_json bytes; no_error j (json.error_response j)

  unfoldable pub do_json : Client → Network → Str → Params → Log → Returns J × Log
  unfolding set_common_params top_sign request_data post bytes_to_result
  do_json client net method params log =
      let all =
        set_common_params client (net.unix_seconds log) (params ++ (codes "method", method) ∷ []) in
      let (reply, log') = post net (request_data all (top_sign all client.app_secret [])) log in
      ((do bytes ← reply; bytes_to_result bytes), log')

  -- The loop over `listPath`; `Get` never yields nil, so the branch for it is never taken.
  unfoldable pub get_path : List Str → J → J
  get_path [] j = j
  get_path (key ∷ keys) j = get_path keys (json.get key j)

  -- An entry that cannot be read is passed over.
  unfoldable pub decoded : List J → List D
  decoded [] = []
  decoded (j ∷ js) = elim (json.decode j) [ none ↦ decoded js | some d ↦ d ∷ decoded js ]

  unfoldable pub page_of_array : Option (List J) → Bool → List D × Bool
  unfolding decoded
  page_of_array none next_page = ([], false)
  page_of_array (some js) next_page = (decoded js, next_page)

  -- The entries of a page, and whether there is a next one. A page without a list is the last.
  unfoldable pub page_of_json : List Str → Str → J → List D × Bool
  unfolding get_path page_of_array
  page_of_json list_path list_key j =
      let result = get_path list_path j in
      page_of_array (json.array (json.get list_key (json.get (codes "result") result)))
        (json.bool (json.get (codes "next_page") result))

  page_result : List Str → Str → Returns J → Result (List D × Bool)
  unfolding page_of_json
  page_result list_path list_key (failed e) = err e
  page_result list_path list_key (returned j) = ok (page_of_json list_path list_key j)

  -- One round of the loop; `params_of` gives the parameters of a page.
  unfoldable pub fetch_top_page :
      Client
      → Network
      → Str
      → List Str
      → Str
      → (ℕ → Params)
      → ℕ
      → Bool
      → Log
      → Result (List D × Bool) × Log
  unfolding do_json page_result
  fetch_top_page client net method list_path list_key params_of page_no next_page log =
      let (reply, log') = do_json client net method (params_of page_no) log in
      (page_result list_path list_key reply, log')

  unfoldable pub is_last_top_page : ℕ → List D → Bool → Bool
  is_last_top_page page_no items next_page = not next_page

  -- The loop, which has no bound of its own: `none` is a loop that has run out of fuel.
  unfoldable pub query_all_paged :
      ℕ
      → Client
      → Network
      → Str
      → List Str
      → Str
      → (ℕ → Params)
      → Log
      → Option (Result (List D) × Log)
  unfolding fetch_top_page is_last_top_page fetch_pages
  query_all_paged fuel client net method list_path list_key params_of log =
      fetch_pages (fetch_top_page client net method list_path list_key params_of) is_last_top_page
        fuel 1 true [] log
