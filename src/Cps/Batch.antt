-- ===== src/Cps/Batch.antt =====
-- The batches of common/topsdk-go/batch.go: `DoJsonBatch` sends several requests in one body, and
-- `bytesToResultBatch` takes the reply apart.
use report_api.Prelude.{
  ℕ, ◌≡◌, refl, sym, ap, ◌∙◌, ◌==◌, ==_iff, Option, none, some, List, [], ◌∷◌, ◌++◌, map, length,
  if◌then◌else◌, All, arith,
}
use mathlib.Core.List.{map-map}
use report_api.Go.Result.{Error}
use report_api.Go.Returns.{Returns, failed, returned, ◌>>=◌}
use report_api.Go.Text.{Str, Bytes, codes}
use report_api.Go.Text.Split.{split_text, join, IsFree, split_text-join}
use report_api.Go.Url.{encode}
use report_api.Sign.{Params}
use report_api.Cps.{
  Client, Library, set_common_params, set_all, top_sign, request_data, checked_body,
}

abbrev pub default_separator : Bytes
default_separator = codes "\r\n-S-\r\n"

-- `param.getRequestData()` of a request, which is not signed.
unfoldable pub batch_entry : Params → Bytes
unfolding set_all encode
batch_entry params = encode (set_all [] params)

unfoldable pub batch_body : List Params → Bytes
unfolding batch_entry
batch_body [] = []
batch_body (params ∷ []) = batch_entry params
batch_body (params ∷ next ∷ rest) =
    batch_entry params ++ (default_separator ++ batch_body (next ∷ rest))

-- The reply to the query and the body of a batch: its status and its body.
abbrev pub BatchNetwork : Type 0
BatchNetwork = Bytes → Bytes → Returns (ℕ × Returns Bytes)

unfoldable pub do_batch : BatchNetwork → Bytes → Bytes → Returns Bytes
unfolding checked_body
do_batch respond query body = respond query body >>= checked_body

-- `none` is a nil pointer.
pub record BatchResult (J : Type 0) : Type 0 where
  pub json : Option J
  pub error : Option Error

length-map : {A B : Type 0} (f : A → B) (xs : List A) → length (map f xs) ≡ length xs
length-map f [] = refl
length-map f (x ∷ xs) = omega (arith, length-map f xs)

module _ {J D : Type 0} (json : Library J D) where
  unfoldable pub parsed_result : Returns J → BatchResult J
  parsed_result (failed e) = record { json = none; error = some e }
  parsed_result (returned j) = record { json = some j; error = json.error_response j }

  unfoldable pub batch_result : Bytes → BatchResult J
  unfolding parsed_result
  batch_result s = parsed_result (json.new_json s)

  -- The number of replies is not that of the requests: a single reply that is an error is one for all.
  unfoldable pub uneven_results : List (BatchResult J) → Returns (List (BatchResult J))
  uneven_results (common ∷ []) = elim (common.error) [
    | none ↦ returned (common ∷ [])
    | some e ↦ failed e
  ]
  uneven_results results = returned results

  unfoldable pub bytes_to_result_batch : Bytes → ℕ → Returns (List (BatchResult J))
  unfolding batch_result uneven_results split_text
  bytes_to_result_batch content req_size =
      let results = map batch_result (split_text default_separator content) in
      if length results == req_size then returned results else uneven_results results

  -- `timestamp` is the decimal text of the current second.
  unfoldable pub do_json_batch :
      Client → BatchNetwork → Str → List Params → Returns (List (BatchResult J))
  unfolding bytes_to_result_batch do_batch batch_body set_common_params top_sign request_data
  do_json_batch client respond timestamp params =
      let common = set_common_params client timestamp [] in
      let body = batch_body params in
      do_batch respond (request_data common (top_sign common client.app_secret body)) body
      >>= λ content. bytes_to_result_batch content (length params)

  bytes_to_result_batch-join :
      (reply : Bytes) (replies : List Bytes)
      → All (IsFree 13) (reply ∷ replies)
      → bytes_to_result_batch (join default_separator (reply ∷ replies)) (length (reply ∷ replies))
        ≡ returned (map batch_result (reply ∷ replies))
  unfolding bytes_to_result_batch
  bytes_to_result_batch-join reply replies (h, hs) = rw (
    split_text-join 13 (codes "\n-S-\r\n") reply replies h hs,
    length-map batch_result replies,
    (==_iff (length (reply ∷ replies)) (length (reply ∷ replies))).1 refl,
  )

  -- If a service answers the body of a batch of one or more requests with the replies to the requests,
  -- in order and separated as the requests are, and no reply has a carriage return, DoJsonBatch returns
  -- what it makes of each reply, at the place of its request.
  pub do_json_batch-replies :
      (client : Client) (respond : BatchNetwork) (timestamp : Str) (first : Params)
      (rest : List Params) (answer : Params → Bytes)
      → ((query : Bytes)
          → respond query (batch_body (first ∷ rest))
            ≡ returned (200, returned (join default_separator (map answer (first ∷ rest)))))
      → All (IsFree 13) (map answer (first ∷ rest))
      → do_json_batch client respond timestamp (first ∷ rest)
        ≡ returned (map (λ params. batch_result (answer params)) (first ∷ rest))
  unfolding do_json_batch do_batch checked_body
  do_json_batch-replies client respond timestamp first rest answer served plain =
      rw (do_json_batch, served _, checked_body, sym (length-map answer rest))
        (bytes_to_result_batch-join (answer first) (map answer rest) plain
          ∙ ap returned (map-map batch_result answer (first ∷ rest)))
