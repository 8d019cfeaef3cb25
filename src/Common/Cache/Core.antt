-- ===== src/Common/Cache/Core.antt =====
-- The older cache of core/DataCache.go beside that of core/cache/DataCache.go: its rows are read in the
-- same way, but no error of the query, of the marshalling or of Redis is looked at.
use report_api.Prelude.{◌≡◌, refl, Option, none, some, List, [], ◌∷◌, All}
use report_api.Go.Result.{Result, ok, panic, Error, type_assertion}
use report_api.Go.Returns.{Returns, failed, returned}
use report_api.Go.Text.{Str, Bytes}
use report_api.Common.Cache.{
  MateData, SqlValue, Redis, unikey_of, key_name, set_checked, set_value, push_row, push_rows,
  push_redis_all, scan_all,
}

-- A query that failed has no rows.
unfoldable pub rows_of : Returns (List (Returns (List (Str × SqlValue)))) → List MateData
unfolding scan_all
rows_of (failed e) = []
rows_of (returned rows) = scan_all rows

-- `retString, _ := jsoniter.Marshal(v)`.
unfoldable pub text_of : Returns Bytes → Bytes
text_of (failed e) = []
text_of (returned text) = text

module _ (marshal : MateData → Returns Bytes) (set_error : Str → Redis → Option Error) where
  -- `r.Do("SET", key, retString)`.
  unfoldable pub set_caches : Str → Bytes → Redis → Redis
  unfolding set_checked
  set_caches key text redis = set_checked (set_error key redis) key text redis

  -- `v["unikey"].(string)` panics where the row has no text under this name.
  unfoldable pub core_push_rows : List MateData → Redis → Result Redis
  unfolding unikey_of set_caches text_of key_name
  core_push_rows [] redis = ok redis
  core_push_rows (v ∷ rows) redis = elim (unikey_of v) [
    | none ↦ panic type_assertion
    | some unikey ↦ core_push_rows rows (set_caches (key_name unikey) (text_of (marshal v)) redis)
  ]

  unfoldable pub core_push_redis_all :
      Returns (List (Returns (List (Str × SqlValue)))) → Redis → Result Redis
  unfolding core_push_rows rows_of
  core_push_redis_all rows redis = core_push_rows (rows_of rows) redis

  -- The row has a text under "unikey" and can be marshalled.
  pub record IsSound (r : MateData) : Type 0 where
    pub key : Str
    pub keyed : unikey_of r ≡ some key
    pub text : Bytes
    pub written : marshal r ≡ returned text

  core_push_rows-push_rows :
      (rows : List MateData) (redis : Redis)
      → All IsSound rows
      → core_push_rows rows redis ≡ ok (push_rows marshal set_error rows redis)
  unfolding core_push_rows push_rows push_row set_caches set_value text_of
  core_push_rows-push_rows [] redis h = refl
  core_push_rows-push_rows (v ∷ rows) redis (h, hs) =
      rw (core_push_rows, h.keyed, push_rows, push_row, h.written)
        (core_push_rows-push_rows rows _ hs)

  -- Where the query succeeds and each row that was read has a unikey and can be marshalled, PushRedisAll
  -- of core/DataCache.go leaves in Redis what that of core/cache/DataCache.go leaves.
  pub core_push_redis_all-push_redis_all :
      (raw : List (Returns (List (Str × SqlValue)))) (redis : Redis)
      → All IsSound (scan_all raw)
      → core_push_redis_all (returned raw) redis
        ≡ ok (push_redis_all marshal set_error (returned raw) redis).1
  unfolding core_push_redis_all push_redis_all rows_of
  core_push_redis_all-push_redis_all raw redis h = core_push_rows-push_rows (scan_all raw) redis h
