-- ===== src/Common/Cache/Local.antt =====
-- redisGet, lruGet, Get and getOne of core/DataCache.go, with the local list of groupcache/lru, which is
-- a parameter: `lru_add` is its `Add` and `lru_value` its `Get`.
use report_api.Prelude.{◌≡◌, refl, Option, none, some, List, [], ◌∷◌}
use report_api.Go.Returns.{Returns, failed, returned}
use report_api.Go.Text.{Str, Bytes}
use report_api.Common.Cache.{
  MateData, SqlValue, Redis, key_name, scan_row, stored, redis_get, get_mate,
}

-- A list of the library, with what its documentation promises: the entry that was added last is found.
pub record LruCache {u} (L : Type u) : Type u where
  pub lru_add : Str → Bytes → L → L
  pub lru_value : Str → L → Option Bytes
  pub added : (key : Str) (ret : Bytes) (l : L) → lru_value key (lru_add key ret l) ≡ some ret

-- `redis.Bytes` of an error or of a missing entry is a nil slice, `none` here.
unfoldable pub bytes_of : Returns (Option Bytes) → Option Bytes
bytes_of (failed e) = none
bytes_of (returned reply) = reply

-- `rows.Next()` is not looked at: without a row, `Scan` returns an error.
unfoldable pub first_row :
    Returns (List (Str × SqlValue))
    → List (Returns (List (Str × SqlValue)))
    → Returns (List (Str × SqlValue))
first_row no_row [] = no_row
first_row no_row (row ∷ rows) = row

unfoldable pub get_one :
    Returns (List (Str × SqlValue))
    → Returns (List (Returns (List (Str × SqlValue))))
    → Returns MateData
unfolding scan_row first_row
get_one no_row (failed e) = failed e
get_one no_row (returned rows) = scan_row (first_row no_row rows)

-- `do_get` is the reply of Redis to a command GET.
module _ {u} {L : Type u} (cache : LruCache L) (do_get : Str → Returns (Option Bytes)) where
  unfoldable pub lru_get : Str → L → Option Bytes
  lru_get key lru_data = cache.lru_value key lru_data

  unfoldable pub kept_locally : Str → Option Bytes → L → L
  kept_locally key none lru_data = lru_data
  kept_locally key (some ret) lru_data = cache.lru_add key ret lru_data

  unfoldable pub core_redis_get : Str → L → Option Bytes × L
  unfolding kept_locally bytes_of
  core_redis_get key lru_data =
      (bytes_of (do_get key), kept_locally key (bytes_of (do_get key)) lru_data)

  -- The map that `jsoniter.Unmarshal` leaves of the bytes, or of a nil slice: the test `result != nil`
  -- always holds.
  unfoldable pub unmarshalled : (Bytes → MateData) → Option Bytes → MateData
  unmarshalled unmarshal none = unmarshal []
  unmarshalled unmarshal (some ret) = unmarshal ret

  unfoldable pub core_get : (Bytes → MateData) → Str → L → MateData × L
  unfolding core_redis_get unmarshalled key_name
  core_get unmarshal key lru_data =
      let (result, lru_data') = core_redis_get (key_name key) lru_data in
      (unmarshalled unmarshal result, lru_data')

  -- The entry of a key that Redis holds, or else what the local list had.
  abbrev pub newest_entry : Option Bytes → Option Bytes → Option Bytes
  newest_entry (some ret) old = some ret
  newest_entry none old = old

  kept_locally-lru_get :
      (key : Str) (ret : Option Bytes) (l : L)
      → lru_get key (kept_locally key ret l) ≡ newest_entry ret (lru_get key l)
  unfolding lru_get kept_locally
  kept_locally-lru_get key none l = refl
  kept_locally-lru_get key (some ret) l = cache.added key ret l

  unmarshalled-get_mate :
      (unmarshal : Bytes → MateData) (key : Str) (redis : Redis)
      → unmarshalled unmarshal (stored (key_name key) redis) ≡ get_mate unmarshal key redis
  unfolding get_mate redis_get unmarshalled
  unmarshalled-get_mate unmarshal key redis = go (stored (key_name key) redis)
    where
      go :
          (ret : Option Bytes)
          → unmarshalled unmarshal ret ≡ unmarshal (elim ret [ none ↦ [] | some value ↦ value ])
      go none = refl
      go (some ret) = refl

  -- Where Redis answers without errors from what it holds, Get of core/DataCache.go returns what that of
  -- core/cache/DataCache.go returns, and afterwards the local list has the entry of Redis, or what it
  -- had before where Redis has none.
  pub core_get-get_mate :
      (unmarshal : Bytes → MateData) (redis : Redis) (key : Str) (l : L)
      → do_get (key_name key) ≡ returned (stored (key_name key) redis)
      → ((core_get unmarshal key l).0 ≡ get_mate unmarshal key redis)
        × (lru_get (key_name key) (core_get unmarshal key l).1
            ≡ newest_entry (stored (key_name key) redis) (lru_get (key_name key) l))
  unfolding core_get core_redis_get bytes_of
  core_get-get_mate unmarshal redis key l h = (
    rw h (unmarshalled-get_mate unmarshal key redis),
    rw h (kept_locally-lru_get (key_name key) (stored (key_name key) redis) l),
  )
