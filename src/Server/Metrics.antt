-- ===== src/Server/Metrics.antt =====
-- The middleware of common/ginporm/middleware.go that counts the requests of a service.
pub mod Unseen
use report_api.Prelude.{
  ℕ, zero, suc, Bool, true, false, ◌&&◌, ◌≡◌, refl, Bool-cases, inl, inr, Option, none, some, List,
  [], ◌∷◌, ◌++◌, get_elem?, if◌then◌else◌, arith,
}
use report_api.Prelude.Int.{ℤ, pos, pos_part}
use report_api.Go.Result.{Result, ok, panic, ◌>>=◌, found}
use report_api.Go.Returns.{Returns, failed, returned}
use report_api.Go.Text.{Str, codes, str_eq}
use report_api.Go.Text.Split.{split, split-part, is_empty}
use report_api.Go.Decimal.{format_nat}
use report_api.Common.Links.{in_array}
use report_api.Server.Routes.{HandlerEntity, full_path_of}
use report_api.Server.Sizes.{HttpRequest, calc_request_size}

-- What the middleware reads of a request that was handled: its path, the request, and the status and
-- the size of the response, which is -1 where nothing was written.
pub record Context : Type 0 where
  pub path : Str
  pub request : HttpRequest
  pub status_code : ℕ
  pub size : ℤ

-- `EndpointLabelMappingFn` is `none` where it is nil.
pub record PromOpts : Type 0 where
  pub exclude_regex_status : Str
  pub exclude_regex_endpoint : Str
  pub exclude_regex_method : Str
  pub endpoint_label_mapping_fn : Option (Context → Result Str)

-- The test `len(paths) > 0` always holds.
unfoldable pub first_segment : Context → Result Str
unfolding split
first_segment c = found (get_elem? (split 47 c.path) 1) >>= λ segment. ok (47 ∷ segment)

unfoldable pub new_default_opts : PromOpts
unfolding first_segment
new_default_opts = record {
  exclude_regex_status = [];
  exclude_regex_endpoint = [];
  exclude_regex_method = [];
  endpoint_label_mapping_fn = some first_segment;
}

unfoldable pub opts_or_default : Option PromOpts → PromOpts
unfolding new_default_opts
opts_or_default none = new_default_opts
opts_or_default (some prom_opts) = prom_opts

unfoldable pub mapping_or_path : Option (Context → Result Str) → Context → Result Str
mapping_or_path none c = ok c.path
mapping_or_path (some endpoint_label_mapping_fn) c = endpoint_label_mapping_fn c

abbrev pub endpoints : List Str
endpoints =
    codes "/clk"
    ∷ codes "/imp"
    ∷ codes "/track"
    ∷ codes "/metrics"
    ∷ codes "/ip"
    ∷ codes "/favicon.ico"
    ∷ []

-- What updateMetrics observes, beside the time.
pub record Sample : Type 0 where
  pub status_label : Str
  pub endpoint_label : Str
  pub method_label : Str
  pub request_size : ℕ
  pub response_size : ℕ

unfoldable pub update_metrics : Context → Str → ℕ → Sample
unfolding format_nat calc_request_size
update_metrics c endpoint resp_size = record {
  status_label = format_nat c.status_code;
  endpoint_label = endpoint;
  method_label = c.request.method;
  request_size = calc_request_size c.request;
  response_size = resp_size;
}

unfoldable pub not_matched : Returns Bool → Bool
not_matched (failed e) = true
not_matched (returned true) = false
not_matched (returned false) = true

-- `match_string` is regexp.MatchString, of a pattern and a text.
module _ (match_string : Str → Str → Returns Bool) where
  unfoldable pub check_label : Str → Str → Bool
  unfolding not_matched is_empty
  check_label label pattern =
      if is_empty pattern then true else not_matched (match_string pattern label)

  unfoldable pub is_ok : PromOpts → Context → Str → Bool
  unfolding check_label format_nat
  is_ok opts c endpoint =
      check_label (format_nat c.status_code) opts.exclude_regex_status
      && (check_label endpoint opts.exclude_regex_endpoint
          && check_label c.request.method opts.exclude_regex_method)

  -- What is observed at an endpoint, where anything is.
  unfoldable pub exported_sample : PromOpts → Context → Str → Option Sample
  unfolding is_ok in_array update_metrics
  exported_sample opts c endpoint =
      if in_array endpoint endpoints
      then (if is_ok opts c endpoint
          then some (update_metrics c endpoint (pos_part c.size))
          else none)
      else none

  unfoldable pub prom_middleware : Option PromOpts → Context → Result (Option Sample)
  unfolding exported_sample mapping_or_path opts_or_default
  prom_middleware prom_opts c =
      mapping_or_path (opts_or_default prom_opts).endpoint_label_mapping_fn c >>= λ endpoint.
      ok (exported_sample (opts_or_default prom_opts) c endpoint)
