-- ===== src/Examples/Regions.antt =====
-- A segment that ends before it starts.
use report_api.Prelude.{◌≡◌, refl, none, [], ◌∷◌}
use report_api.Go.Text.{str_lt}
use report_api.Region.Search.{Segment, search}
use report_api.Region.Search.Found.{search_never_ends}

abbrev backward_segment : Segment
backward_segment = record { s = 7 ∷ []; e = 6 ∷ []; v = [] }

search_never_ends_example : search (backward_segment ∷ []) (7 ∷ []) 100 0 1 ≡ none
search_never_ends_example =
    search_never_ends backward_segment (7 ∷ []) 100 (unfold str_lt in refl) (unfold str_lt in refl)
      (unfold str_lt in refl)
