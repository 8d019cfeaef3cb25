-- ===== src/Examples/Routing.antt =====
-- The routes of the program.
use mathlib.Core.List.{Permᴰ}
use report_api.Prelude.{◌≡◌, refl, List, [], ◌∷◌, map, All, length, arith}
use report_api.Go.Result.{ok, ◌>>=◌}
use report_api.Go.Text.{codes, str_eq}
use report_api.Go.Text.Split.{split, before_first, join}
use report_api.Server.Routes.{
  get_jd_sh, batch_process_jd_sh, upload_honor_excel, upload_uc_excel, u_flag_of, set_work,
  request_mapping, get_mapping, post_mapping, parser_handler_map_key, met_entities, MapRange,
  foreach_handler, handler_entity_sets, full_path_of, is_method, route_entity, route_entities,
  main_control,
}
use report_api.Server.Routes.Handlers.{
  get_jd_sh_api_handler, honor_callback_api_handler, uc_callback_api_handler, reg_handlers,
}
use report_api.Server.Routes.Registered.{
  Mapping, mapped, IsRoutable, AreDistinct, route_of, flat, AreReordered, IsRange,
  main_control-mapped,
}

abbrev jd_sh : Mapping
jd_sh = record { path = codes "jd_sh"; method = codes "GET"; work = get_jd_sh }

abbrev jd_sh_batch : Mapping
jd_sh_batch = record {
  path = codes "jd_sh_batch";
  method = codes "POST";
  work = batch_process_jd_sh;
}

abbrev honor : Mapping
honor = record {
  path = codes "upload_honor_excel";
  method = codes "POST";
  work = upload_honor_excel;
}

abbrev uc : Mapping
uc = record { path = codes "upload_uc_excel"; method = codes "POST"; work = upload_uc_excel }

abbrev mappings : List (List Mapping)
mappings = (jd_sh ∷ jd_sh_batch ∷ []) ∷ (honor ∷ uc ∷ []) ∷ [] ∷ []

-- They are three of the handlers of the program.
mapped_handlers :
    map (mapped []) mappings
    ≡ get_jd_sh_api_handler ∷ honor_callback_api_handler ∷ uc_callback_api_handler ∷ []
unfolding mapped request_mapping u_flag_of set_work str_eq get_mapping post_mapping
    get_jd_sh_api_handler honor_callback_api_handler uc_callback_api_handler
mapped_handlers = refl

jd_sh-IsRoutable : IsRoutable jd_sh
unfolding is_method str_eq
jd_sh-IsRoutable = record { plain_path = ground arith; plain_method = ground arith; known = refl }

jd_sh_batch-IsRoutable : IsRoutable jd_sh_batch
unfolding is_method str_eq
jd_sh_batch-IsRoutable = record {
  plain_path = ground arith;
  plain_method = ground arith;
  known = refl;
}

honor-IsRoutable : IsRoutable honor
unfolding is_method str_eq
honor-IsRoutable = record { plain_path = ground arith; plain_method = ground arith; known = refl }

uc-IsRoutable : IsRoutable uc
unfolding is_method str_eq
uc-IsRoutable = record { plain_path = ground arith; plain_method = ground arith; known = refl }

mappings-AreDistinct : All (AreDistinct []) mappings
unfolding u_flag_of str_eq
mappings-AreDistinct = ((tt, ((refl, tt), tt)), ((tt, ((refl, tt), tt)), (tt, tt)))

-- A loop that meets the second entry of a map first.
abbrev second_first : MapRange
second_first n [] = []
second_first n (a ∷ []) = a ∷ []
second_first n (a ∷ b ∷ works) = b ∷ a ∷ works

second_first-IsRange : IsRange second_first
second_first-IsRange n [] = Permᴰ.nil
second_first-IsRange n (a ∷ []) = Permᴰ.cons refl Permᴰ.nil
second_first-IsRange n (a ∷ b ∷ works) = Permᴰ.swap refl refl

main_control-mapped_example :
    (mss' : List (List Mapping)) × AreReordered mss' mappings
    × (main_control second_first (map (mapped []) mappings) ≡ ok (map route_of (flat mss')))
main_control-mapped_example =
    main_control-mapped second_first mappings second_first-IsRange
      (
        (jd_sh-IsRoutable, (jd_sh_batch-IsRoutable, tt)),
        ((honor-IsRoutable, (uc-IsRoutable, tt)), (tt, tt)),
      )
      mappings-AreDistinct

-- All handlers of the program have fourteen routes.
all_routes : (main_control second_first reg_handlers >>= λ routes. ok (length routes)) ≡ ok 14
unfolding main_control reg_handlers handler_entity_sets foreach_handler met_entities
    parser_handler_map_key split before_first join route_entities route_entity is_method
    full_path_of str_eq
all_routes = refl
