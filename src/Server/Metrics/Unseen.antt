-- ===== src/Server/Metrics/Unseen.antt =====
-- Which requests the middleware counts.
use report_api.Prelude.{
  Bool, true, ◌≡◌, refl, ◌∙◌, ap, Bool-cases, inl, inr, Option, none, some, [], ◌∷◌, ◌++◌,
  get_elem?, arith,
}
use report_api.Prelude.Int.{pos_part}
use report_api.Go.Result.{ok, ◌>>=◌, >>=-eq-ok, ok-injective, found}
use report_api.Go.Returns.{Returns}
use report_api.Go.Text.{Str, codes, str_eq}
use report_api.Go.Text.Split.{split, split-part, join}
use report_api.Common.Links.{in_array}
use report_api.Server.Routes.{HandlerEntity, full_path_of}
use report_api.Server.Metrics.{
  Context, PromOpts, Sample, first_segment, new_default_opts, opts_or_default, mapping_or_path,
  endpoints, update_metrics, is_ok, exported_sample, prom_middleware,
}

refuted {ℓ} : {P : Type ℓ} {sample : Sample} → none ≡ some sample → P
refuted h = cc

some-sample : {s sample : Sample} → some s ≡ some sample → sample ≡ s
some-sample h = cc

exported_sample-counted :
    (match_string : Str → Str → Returns Bool) (opts : PromOpts) (c : Context) (endpoint : Str)
    (sample : Sample)
    → exported_sample match_string opts c endpoint ≡ some sample
    → (in_array endpoint endpoints ≡ true)
      × (is_ok match_string opts c endpoint ≡ true)
      × (sample ≡ update_metrics c endpoint (pos_part c.size))
unfolding exported_sample
exported_sample-counted match_string opts c endpoint sample h =
    elim (Bool-cases (in_array endpoint endpoints)) [
      | inr unlisted ↦ refuted (rw (exported_sample, unlisted) at h)
      | inl listed ↦ elim (Bool-cases (is_ok match_string opts c endpoint)) [
        | inr excluded ↦ refuted (rw (exported_sample, listed, excluded) at h)
        | inl passed ↦ (listed, passed, some-sample (rw (exported_sample, listed, passed) at h))
      ]
    ]

-- Where the middleware counts a request, the mapping function gave one of the six endpoints, no pattern
-- that compiles matches a label, and the sample has the size of the response where that is not -1.
pub prom_middleware-counted :
    (match_string : Str → Str → Returns Bool) (prom_opts : Option PromOpts) (c : Context)
    (sample : Sample)
    → prom_middleware match_string prom_opts c ≡ ok (some sample)
    → (endpoint : Str) × (mapping_or_path (opts_or_default prom_opts).endpoint_label_mapping_fn c
        ≡ ok endpoint)
      × (in_array endpoint endpoints ≡ true)
      × (is_ok match_string (opts_or_default prom_opts) c endpoint ≡ true)
      × (sample ≡ update_metrics c endpoint (pos_part c.size))
unfolding prom_middleware
prom_middleware-counted match_string prom_opts c sample h =
    let (endpoint, given, counted) =
      >>=-eq-ok (mapping_or_path (opts_or_default prom_opts).endpoint_label_mapping_fn c)
        (λ e. ok (exported_sample match_string (opts_or_default prom_opts) c e)) h in
    let (listed, passed, size) =
      exported_sample-counted match_string (opts_or_default prom_opts) c endpoint sample
        (ok-injective counted) in
    (endpoint, given, listed, passed, size)

split_report :
    (rest : Str) → split 47 (codes "/report/" ++ rest) ≡ [] ∷ codes "report" ∷ split 47 rest
split_report rest =
    split-part 47 [] (codes "report" ++ 47 ∷ rest) tt
    ∙ ap (λ parts. [] ∷ parts) (split-part 47 (codes "report") rest (ground arith))

-- The first segment of a path of the service.
first_segment-report :
    (c : Context) (rest : Str)
    → c.path ≡ codes "/report/" ++ rest
    → first_segment c ≡ ok (codes "/report")
unfolding first_segment
first_segment-report c rest h =
    ap (λ parts. found (get_elem? parts 1) >>= λ segment. ok (47 ∷ segment))
      (ap (split 47) h ∙ split_report rest)

-- No request on a route of the service is counted by the middleware with its default options.
pub prom_middleware-full_path_of :
    (match_string : Str → Str → Returns Bool) (entity : HandlerEntity) (c : Context)
    → c.path ≡ 47 ∷ full_path_of entity
    → prom_middleware match_string none c ≡ ok none
unfolding prom_middleware opts_or_default new_default_opts mapping_or_path exported_sample in_array
    str_eq
prom_middleware-full_path_of match_string entity c h = rw (
    first_segment-report c (codes "v1/" ++ entity.handler_path)
      (h ∙ (unfold full_path_of join in refl)))
