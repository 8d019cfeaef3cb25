-- ===== src/Server/Routes.antt =====
-- The routes: handler/common_handler.go, the `init` functions of handler/, and MainControl of
-- control/main_control.go up to the calls of the router, which are its result. A map is a list
-- of its entries; the order in which a loop meets them is a parameter.
pub mod Handlers
pub mod Registered
use report_api.Prelude.{
  ℕ, zero, suc, ◌+◌, Bool, true, false, Option, none, some, List, [], ◌∷◌, ◌++◌, get_elem?,
  if◌then◌else◌,
}
use report_api.Go.Result.{Result, ok, panic, ◌>>=◌, found}
use report_api.Go.Text.{Str, codes, str_eq}
use report_api.Go.Text.Split.{split, join}

-- The functions that handle requests.
pub data HandlerWork : Type 0 where
  get_app_detail get_cps_order get_cps_income get_cps_user get_jd_order get_jd_bonus_order get_jd_sh
        batch_process_jd_sh upload_excel upload_gdt_excel get_activity_report upload_honor_excel
        upload_uc_excel upload_ks_excel :
      HandlerWork

abbrev pub HandlerWorks : Type 0
HandlerWorks = List (Str × HandlerWork)

unfoldable pub u_flag_of : Str → Str → Str
u_flag_of path method = path ++ 1 ∷ method

-- `p.HandlerWorks[uFlag] = handlerWork`. The place of a new entry in the list has no meaning.
unfoldable pub set_work : Str → HandlerWork → HandlerWorks → HandlerWorks
unfolding str_eq
set_work u_flag work [] = (u_flag, work) ∷ []
set_work u_flag work ((k, w) ∷ works) =
    let rest = set_work u_flag work works in
    if str_eq k u_flag then (u_flag, work) ∷ works else (k, w) ∷ rest

unfoldable pub request_mapping : Str → Str → HandlerWork → HandlerWorks → HandlerWorks
unfolding set_work u_flag_of
request_mapping path method work works = set_work (u_flag_of path method) work works

unfoldable pub get_mapping : Str → HandlerWork → HandlerWorks → HandlerWorks
unfolding request_mapping
get_mapping path work works = request_mapping path (codes "GET") work works

unfoldable pub post_mapping : Str → HandlerWork → HandlerWorks → HandlerWorks
unfolding request_mapping
post_mapping path work works = request_mapping path (codes "POST") work works

unfoldable pub put_mapping : Str → HandlerWork → HandlerWorks → HandlerWorks
unfolding request_mapping
put_mapping path work works = request_mapping path (codes "PUT") work works

unfoldable pub delete_mapping : Str → HandlerWork → HandlerWorks → HandlerWorks
unfolding request_mapping
delete_mapping path work works = request_mapping path (codes "DELETE") work works

unfoldable pub parser_handler_map_key : Str → Result (Str × Str)
unfolding split
parser_handler_map_key u_flag =
    let fs = split 1 u_flag in
    found (get_elem? fs 0) >>= λ path. found (get_elem? fs 1) >>= λ method. ok (path, method)

pub record HandlerEntity : Type 0 where
  pub handler_path : Str
  pub handler_method_sets : List Str
  pub handler : HandlerWork

-- The entities of the entries that the loop over a map meets, in its order.
unfoldable pub met_entities : List (Str × HandlerWork) → Result (List HandlerEntity)
unfolding parser_handler_map_key
met_entities [] = ok []
met_entities ((u_flag, handler) ∷ works) = parser_handler_map_key u_flag >>= λ key.
    met_entities works >>= λ entities. ok (
      record { handler_path = key.0; handler_method_sets = key.1 ∷ []; handler = handler }
      ∷ entities)

-- The order in which a loop meets the entries of a map is the runtime's to choose, at every loop anew:
-- `range n` is that of the n-th loop.
abbrev pub MapRange : Type 0
MapRange = ℕ → HandlerWorks → List (Str × HandlerWork)

-- The entities that a handler's callbacks append, in the n-th loop.
unfoldable pub foreach_handler : MapRange → ℕ → HandlerWorks → Result (List HandlerEntity)
unfolding met_entities
foreach_handler range n works = met_entities (range n works)

unfoldable pub handler_entity_sets : MapRange → ℕ → List HandlerWorks → Result (List HandlerEntity)
unfolding foreach_handler
handler_entity_sets range n [] = ok []
handler_entity_sets range n (works ∷ reg_handlers) = foreach_handler range n works >>= λ entities.
    handler_entity_sets range (n + 1) reg_handlers >>= λ rest. ok (entities ++ rest)

-- A call of the router: the method it is named for, the path and the handler.
pub record Route : Type 0 where
  pub method : Str
  pub full_path : Str
  pub handler : HandlerWork

unfoldable pub full_path_of : HandlerEntity → Str
unfolding join
full_path_of entity = join (codes "/") (codes "report" ∷ codes "v1" ∷ entity.handler_path ∷ [])

-- The four cases of the switch; another method is passed over.
unfoldable pub is_method : Str → Bool
unfolding str_eq
is_method method =
    if str_eq method (codes "GET")
    then true
    else if str_eq method (codes "POST")
    then true
    else if str_eq method (codes "PUT")
    then true
    else str_eq method (codes "DELETE")

unfoldable pub route_entity : HandlerEntity → List Route
unfolding full_path_of is_method join
route_entity entity =
    let method_set = join (codes "/") entity.handler_method_sets in
    if is_method method_set
    then record { method = method_set; full_path = full_path_of entity; handler = entity.handler }
      ∷ []
    else []

unfoldable pub route_entities : List HandlerEntity → List Route
unfolding route_entity
route_entities [] = []
route_entities (entity ∷ entities) = route_entity entity ++ route_entities entities

unfoldable pub main_control : MapRange → List HandlerWorks → Result (List Route)
unfolding handler_entity_sets route_entities
main_control range reg_handlers =
    handler_entity_sets range 0 reg_handlers >>= λ entities. ok (route_entities entities)
