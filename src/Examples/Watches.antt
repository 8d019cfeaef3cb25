-- ===== src/Examples/Watches.antt =====
-- Requests that are measured, and goroutines.
use report_api.Prelude.{◌≡◌, refl, false, none, some, List, [], ◌∷◌, All}
use report_api.Prelude.Int.{pos}
use report_api.Go.Result.{ok, index_out_of_range}
use report_api.Go.Returns.{returned}
use report_api.Go.Text.{codes}
use report_api.Server.Routes.{HandlerEntity, get_jd_sh, full_path_of}
use report_api.Server.Sizes.{HttpRequest}
use report_api.Server.Metrics.{Context, prom_middleware}
use report_api.Server.Metrics.Unseen.{prom_middleware-full_path_of}
use report_api.Server.Goroutines.{
  run_with_recover, run_recover, finished, panicked, no_goroutines, GoEvent, starts, ends, go_run,
}
use report_api.Server.Goroutines.Counted.{IsSafe, IsGuardedEvent, go_run-IsSafe}

abbrev jd_sh_entity : HandlerEntity
jd_sh_entity = record {
  handler_path = codes "jd_sh";
  handler_method_sets = codes "GET" ∷ [];
  handler = get_jd_sh;
}

abbrev seen_request : HttpRequest
seen_request = record {
  url = some (codes "/report/v1/jd_sh");
  method = codes "GET";
  proto = codes "HTTP/1.1";
  header = (codes "Accept", codes "*/*" ∷ []) ∷ [];
  host = codes "localhost";
  content_length = some 0;
}

abbrev seen : Context
seen = record {
  path = 47 ∷ full_path_of jd_sh_entity;
  request = seen_request;
  status_code = 200;
  size = pos 20;
}

prom_middleware-full_path_of_example :
    prom_middleware (λ pattern label. returned false) none seen ≡ ok none
prom_middleware-full_path_of_example =
    prom_middleware-full_path_of (λ pattern label. returned false) jd_sh_entity seen refl

-- Three goroutines start; the second one panics, and the last one ends.
abbrev guarded_events : List GoEvent
guarded_events =
    starts (run_with_recover none)
    ∷ starts (run_recover (some (λ p. none)))
    ∷ starts (run_with_recover (some (λ p. none)))
    ∷ ends 1 (panicked index_out_of_range)
    ∷ ends 0 finished
    ∷ []

no_goroutines-IsSafe : IsSafe no_goroutines
unfolding no_goroutines
no_goroutines-IsSafe = (refl, (refl, tt))

guarded_events-guarded : All IsGuardedEvent guarded_events
guarded_events-guarded = (tt, ((λ p. refl), ((λ p. refl), (tt, (tt, tt)))))

go_run-IsSafe_example : IsSafe (go_run guarded_events no_goroutines)
go_run-IsSafe_example =
    go_run-IsSafe guarded_events no_goroutines guarded_events-guarded no_goroutines-IsSafe
