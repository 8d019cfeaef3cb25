-- ===== src/Server/Routes/Registered.antt =====
-- The routes that the mappings of the handlers lead to.
use report_api.Prelude.{
  ℕ, ◌+◌, ◌≡◌, refl, sym, subst, ap, ◌∙◌, true, false, List, [], ◌∷◌, ◌++◌, map, append-nil,
  append_assoc, All, All-append,
}
use mathlib.Core.List.{map-append, Permᴰ}
use report_api.Go.Result.{ok}
use report_api.Go.Text.{Str, codes, str_eq}
use report_api.Go.Text.Split.{IsFree, split-part, split-free}
use report_api.Server.Routes.{
  HandlerWork, HandlerWorks, u_flag_of, set_work, request_mapping, parser_handler_map_key,
  HandlerEntity, met_entities, MapRange, foreach_handler, handler_entity_sets, Route, full_path_of,
  is_method, route_entity, route_entities, main_control,
}

-- A call of getMapping, postMapping, putMapping or deleteMapping.
pub record Mapping : Type 0 where
  pub path : Str
  pub method : Str
  pub work : HandlerWork

-- The calls in turn.
unfoldable pub mapped : HandlerWorks → List Mapping → HandlerWorks
unfolding request_mapping
mapped works [] = works
mapped works (m ∷ ms) = mapped (request_mapping m.path m.method m.work works) ms

abbrev pub entry_of : Mapping → Str × HandlerWork
entry_of m = (u_flag_of m.path m.method, m.work)

-- The method is one of the four, and no character 1 stands in the path.
pub record IsRoutable (m : Mapping) : Type 0 where
  pub plain_path : IsFree 1 m.path
  pub plain_method : IsFree 1 m.method
  pub known : is_method m.method ≡ true

-- The call is for another path or method than an earlier one.
abbrev pub IsFresh : Mapping → Mapping → Type 0
IsFresh m earlier =
    str_eq (u_flag_of earlier.path earlier.method) (u_flag_of m.path m.method) ≡ false

-- No two calls are for one path and method.
abbrev pub AreDistinct : List Mapping → List Mapping → Type 0
AreDistinct earlier [] = Unit
AreDistinct earlier (m ∷ ms) = All (IsFresh m) earlier × AreDistinct (earlier ++ m ∷ []) ms

abbrev pub route_of : Mapping → Route
route_of m = record {
  method = m.method;
  full_path = codes "report/v1/" ++ m.path;
  handler = m.work;
}

-- A key is read back as the path and the method that it was made of.
pub parser_handler_map_key-u_flag_of :
    (path method : Str)
    → IsFree 1 path
    → IsFree 1 method
    → parser_handler_map_key (u_flag_of path method) ≡ ok (path, method)
unfolding parser_handler_map_key u_flag_of
parser_handler_map_key-u_flag_of path method h g =
    rw (split-part 1 path method h, split-free 1 method g)

set_work-fresh :
    (u_flag : Str) (work : HandlerWork) (ms : List Mapping)
    → All (λ n. str_eq (u_flag_of n.path n.method) u_flag ≡ false) ms
    → set_work u_flag work (map entry_of ms) ≡ map entry_of ms ++ (u_flag, work) ∷ []
unfolding set_work
set_work-fresh u_flag work [] h = refl
set_work-fresh u_flag work (n ∷ ms) (h, hs) = rw (h, set_work-fresh u_flag work ms hs)

entity_of : Mapping → HandlerEntity
entity_of m = record {
  handler_path = m.path;
  handler_method_sets = m.method ∷ [];
  handler = m.work;
}

met_entities-entries :
    (ms : List Mapping) → All IsRoutable ms → met_entities (map entry_of ms) ≡ ok (map entity_of ms)
unfolding met_entities entity_of
met_entities-entries [] h = refl
met_entities-entries (m ∷ ms) (h, hs) = rw (
  parser_handler_map_key-u_flag_of m.path m.method h.plain_path h.plain_method,
  met_entities-entries ms hs,
)

route_entity-entity_of : (m : Mapping) → IsRoutable m → route_entity (entity_of m) ≡ route_of m ∷ []
unfolding route_entity entity_of full_path_of
route_entity-entity_of m h = rw h.known

route_entities-entities :
    (ms : List Mapping) → All IsRoutable ms → route_entities (map entity_of ms) ≡ map route_of ms
unfolding route_entities
route_entities-entities [] h = refl
route_entities-entities (m ∷ ms) (h, hs) =
    rw (route_entity-entity_of m h, route_entities-entities ms hs)

mapped-entries :
    (earlier ms : List Mapping)
    → AreDistinct earlier ms
    → mapped (map entry_of earlier) ms ≡ map entry_of (earlier ++ ms)
unfolding mapped request_mapping
mapped-entries earlier [] h = rw (append-nil earlier)
mapped-entries earlier (m ∷ ms) (h, hs) =
    ap (λ works. mapped works ms)
      (set_work-fresh (u_flag_of m.path m.method) m.work earlier h
        ∙ sym (map-append entry_of earlier (m ∷ [])))
    ∙ mapped-entries (earlier ++ m ∷ []) ms hs
    ∙ rw (append_assoc earlier (m ∷ []) ms)

-- The mappings of the handlers, one after the other.
abbrev pub flat : List (List Mapping) → List Mapping
flat [] = []
flat (ms ∷ mss) = ms ++ flat mss

-- The mappings of each handler in some other order.
pub data AreReordered : List (List Mapping) → List (List Mapping) → Type 0 where
  no_handlers : AreReordered [] []
  handler_next :
      {ms ms' : List Mapping} {mss mss' : List (List Mapping)}
      → Permᴰ ms' ms
      → AreReordered mss' mss
      → AreReordered (ms' ∷ mss') (ms ∷ mss)

-- A loop meets each entry of a map once.
abbrev pub IsRange : MapRange → Type 0
IsRange range = (n : ℕ) (works : HandlerWorks) → Permᴰ (range n works) works

cons-parts :
    {x : Str × HandlerWork} {xs : List (Str × HandlerWork)} (ms : List Mapping)
    → x ∷ xs ≡ map entry_of ms
    → (m : Mapping) × (rest : List Mapping) × (ms ≡ m ∷ rest)
      × (x ≡ entry_of m)
      × (xs ≡ map entry_of rest)
cons-parts [] h = cc
cons-parts (m ∷ ms) h = (m, ms, refl, cc, cc)

cons_two :
    {a b c d : Str × HandlerWork} {l k : List (Str × HandlerWork)}
    → a ≡ c
    → b ≡ d
    → l ≡ k
    → a ∷ b ∷ l ≡ c ∷ d ∷ k
cons_two p q r = cc

-- Entries of mappings in another order are the entries of the mappings in another order.
entries-Permᴰ :
    {xs ys : List (Str × HandlerWork)} (ms : List Mapping)
    → Permᴰ xs ys
    → ys ≡ map entry_of ms
    → (ms' : List Mapping) × (xs ≡ map entry_of ms') × Permᴰ ms' ms
entries-Permᴰ [] Permᴰ.nil h = ([], refl, Permᴰ.nil)
entries-Permᴰ (m ∷ ms) Permᴰ.nil h = cc
entries-Permᴰ ms (Permᴰ.cons e p) h =
    let (m, rest, whole, first, others) = cons-parts ms h in
    let (rest', r, q) = entries-Permᴰ rest p others in
    (m ∷ rest', rw (e, first, r), rw whole (Permᴰ.cons refl q))
entries-Permᴰ ms (Permᴰ.swap e f) h =
    let (m, rest, whole, first, others) = cons-parts ms h in
    let (m', rest', whole', second, others') = cons-parts rest others in
    (
      m' ∷ m ∷ rest',
      cons_two (e ∙ second) (f ∙ first) others',
      subst (λ l. Permᴰ (m' ∷ m ∷ rest') l) (ap (λ l. m ∷ l) (sym whole') ∙ sym whole)
          (Permᴰ.swap refl refl),
    )
entries-Permᴰ ms (Permᴰ.trans p q) h =
    let (ms', r, q') = entries-Permᴰ ms q h in
    let (ms'', r', p') = entries-Permᴰ ms' p r in (ms'', r', Permᴰ.trans p' q')

All-Permᴰ : (P : Mapping → Type 0) {xs ys : List Mapping} → Permᴰ xs ys → All P ys → All P xs
All-Permᴰ P Permᴰ.nil h = h
All-Permᴰ P (Permᴰ.cons e p) (h, hs) = (rw e h, All-Permᴰ P p hs)
All-Permᴰ P (Permᴰ.swap e f) (h, (k, hs)) = (rw e k, (rw f h, hs))
All-Permᴰ P (Permᴰ.trans p q) h = All-Permᴰ P p (All-Permᴰ P q h)

sets-routes :
    (range : MapRange) (n : ℕ) (mss : List (List Mapping))
    → IsRange range
    → All (All IsRoutable) mss
    → All (AreDistinct []) mss
    → (mss' : List (List Mapping)) × AreReordered mss' mss
      × (handler_entity_sets range n (map (mapped []) mss) ≡ ok (map entity_of (flat mss')))
      × All (All IsRoutable) mss'
unfolding handler_entity_sets foreach_handler
sets-routes range n [] r h d = ([], no_handlers, refl, tt)
sets-routes range n (ms ∷ mss) r (h, hs) (d, ds) =
    let (ms', entries, moved) = entries-Permᴰ ms (r n (mapped [] ms)) (mapped-entries [] ms d) in
    let (mss', others, rest, routable) = sets-routes range (n + 1) mss r hs ds in
    let here = All-Permᴰ IsRoutable moved h in
    (
      ms' ∷ mss',
      handler_next moved others,
      rw (entries, met_entities-entries ms' here, rest)
          (ap ok (sym (map-append entity_of ms' (flat mss')))),
      (here, routable),
    )

flat-IsRoutable : (mss : List (List Mapping)) → All (All IsRoutable) mss → All IsRoutable (flat mss)
flat-IsRoutable [] h = tt
flat-IsRoutable (ms ∷ mss) (h, hs) = All-append IsRoutable ms (flat mss) h (flat-IsRoutable mss hs)

-- MainControl registers the routes of its handlers one handler after the other, and for each mapping of a
-- handler, in some order, one route: the method and the handler that it was mapped with, and its path under
-- report/v1. The methods are among the four, no path has the character 1, no handler maps a path and
-- method twice, and a loop over a map meets each entry once, in any order.
pub main_control-mapped :
    (range : MapRange) (mss : List (List Mapping))
    → IsRange range
    → All (All IsRoutable) mss
    → All (AreDistinct []) mss
    → (mss' : List (List Mapping)) × AreReordered mss' mss
      × (main_control range (map (mapped []) mss) ≡ ok (map route_of (flat mss')))
unfolding main_control
main_control-mapped range mss r h d =
    let (mss', moved, sets, routable) = sets-routes range 0 mss r h d in
    (mss', moved, rw (sets, route_entities-entities (flat mss') (flat-IsRoutable mss' routable)))
