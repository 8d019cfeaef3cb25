-- ===== src/Examples/Batches.antt =====
-- A batch of two requests, and the older cache on one row.
use report_api.Prelude.{ℕ, ◌≡◌, refl, false, Option, none, some, List, [], ◌∷◌, All, arith}
use report_api.Go.Result.{ok, Error}
use report_api.Go.Returns.{Returns, returned}
use report_api.Go.Text.{Str, Bytes, codes, str_eq, str_eq_refl}
use report_api.Go.Text.Split.{join}
use report_api.Sign.{Params}
use report_api.Cps.{Library, cps_client}
use report_api.Cps.Batch.{BatchNetwork, batch_result, do_json_batch, do_json_batch-replies}
use report_api.Common.Cache.{
  MateData, SqlValue, bytes, Redis, scanned_value, row_of_columns, scan_row, scan_all, column,
  string_of, unikey_of, push_redis_all, key_name, stored, get_mate,
}
use report_api.Common.Cache.Local.{LruCache, lru_get, core_get, core_get-get_mate}
use report_api.Common.Cache.Core.{IsSound, core_push_redis_all, core_push_redis_all-push_redis_all}

abbrev json : Library Bytes ℕ
json = record {
  new_json = λ text. returned text;
  error_response = λ j. none;
  get = λ key j. j;
  array = λ j. none;
  bool = λ j. false;
  decode = λ j. none;
}

abbrev first_request : Params
first_request = (codes "method", codes "a") ∷ []

abbrev second_request : Params
second_request = (codes "method", codes "b") ∷ []

abbrev answer : Params → Bytes
answer params = codes "{}"

abbrev respond : BatchNetwork
respond query body = returned (200, returned (codes "{}\r\n-S-\r\n{}"))

do_json_batch-replies_example :
    do_json_batch json cps_client respond (codes "1700000000") (first_request ∷ second_request ∷ [])
    ≡ returned (batch_result json (codes "{}") ∷ batch_result json (codes "{}") ∷ [])
do_json_batch-replies_example =
    do_json_batch-replies json cps_client respond (codes "1700000000") first_request
      (second_request ∷ []) answer (λ query. unfold join in refl) (ground arith)

abbrev row : List (Str × SqlValue)
row = (codes "unikey", bytes (codes "a")) ∷ []

abbrev marshal : MateData → Returns Bytes
marshal r = returned (codes "{}")

abbrev never_failing : Str → Redis → Option Error
never_failing key redis = none

rows-IsSound : All (IsSound marshal never_failing) (scan_all (returned row ∷ []))
unfolding scan_all scan_row row_of_columns scanned_value unikey_of column string_of str_eq
rows-IsSound = (record { key = codes "a"; keyed = refl; text = codes "{}"; written = refl }, tt)

-- The rows of the database in the older cache.
core_push_redis_all_same :
    core_push_redis_all marshal never_failing (returned (returned row ∷ [])) []
    ≡ ok (push_redis_all marshal never_failing (returned (returned row ∷ [])) []).1
core_push_redis_all_same =
    core_push_redis_all-push_redis_all marshal never_failing (returned row ∷ []) [] rows-IsSound

stored-first : (key : Str) (ret : Bytes) (l : Redis) → stored key ((key, ret) ∷ l) ≡ some ret
unfolding stored
stored-first key ret l = rw (str_eq_refl key)

-- A local list without a bound.
abbrev plain_list : LruCache (List (Str × Bytes))
plain_list = record {
  lru_add = λ key ret l. (key, ret) ∷ l;
  lru_value = stored;
  added = stored-first;
}

abbrev one_entry : Redis
one_entry = (key_name (codes "a"), codes "{}") ∷ []

core_get-get_mate_example :
    ((core_get plain_list (λ key. returned (stored key one_entry)) (λ text. []) (codes "a") []).0
      ≡ get_mate (λ text. []) (codes "a") one_entry)
    × (lru_get plain_list
          (λ key. returned (stored key one_entry))
          (key_name (codes "a"))
          (core_get plain_list
            (λ key. returned (stored key one_entry))
            (λ text. [])
            (codes "a")
            []).1
        ≡ some (codes "{}"))
unfolding stored key_name
core_get-get_mate_example =
    core_get-get_mate plain_list (λ key. returned (stored key one_entry)) (λ text. []) one_entry
      (codes "a") [] refl
