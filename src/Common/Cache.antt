-- ===== src/Common/Cache.antt =====
-- The cache of callback settings, core/cache/DataCache.go: `PushRedisAll` fills Redis from the database,
-- and `Get` reads one entry. The expiry after a day, the shared flight of concurrent calls and the LRU
-- list, which is filled but never read, are left out.
pub mod Roundtrip
pub mod Core
pub mod Local
use report_api.Prelude.{ℕ, Bool, Option, none, some, List, [], ◌∷◌, ◌++◌, if◌then◌else◌}
use report_api.Go.Result.{Error}
use report_api.Go.Returns.{Returns, failed, returned}
use report_api.Go.Text.{Str, Bytes, codes, str_eq}

-- A column's value as the database driver gives it.
pub data SqlValue : Type 0 where
  bytes : Str → SqlValue
  string : Str → SqlValue
  opaque : ℕ → SqlValue

-- `mateData`, newest assignment first.
abbrev pub MateData : Type 0
MateData = List (Str × SqlValue)

-- `[]byte` becomes `string`.
unfoldable pub scanned_value : SqlValue → SqlValue
scanned_value (bytes s) = string s
scanned_value (string s) = string s
scanned_value (opaque n) = opaque n

-- The columns are assigned from left to right.
unfoldable pub row_of_columns : MateData → List (Str × SqlValue) → MateData
unfolding scanned_value
row_of_columns r [] = r
row_of_columns r ((column, v) ∷ columns) = row_of_columns ((column, scanned_value v) ∷ r) columns

unfoldable pub scan_row : Returns (List (Str × SqlValue)) → Returns MateData
unfolding row_of_columns
scan_row (failed e) = failed e
scan_row (returned columns) = returned (row_of_columns [] columns)

-- A row that cannot be scanned is passed over.
unfoldable pub scan_all : List (Returns (List (Str × SqlValue))) → List MateData
unfolding scan_row
scan_all [] = []
scan_all (row ∷ rows) = elim (scan_row row) [
  | failed e ↦ scan_all rows
  | returned r ↦ r ∷ scan_all rows
]

unfoldable pub column : Str → MateData → Option SqlValue
unfolding str_eq
column name [] = none
column name ((k, v) ∷ r) = if str_eq k name then some v else column name r

unfoldable pub string_of : Option SqlValue → Option Str
string_of (some (string s)) = some s
string_of (some (bytes s)) = none
string_of (some (opaque n)) = none
string_of none = none

-- `v["unikey"].(string)`.
unfoldable pub unikey_of : MateData → Option Str
unfolding column string_of
unikey_of r = string_of (column (codes "unikey") r)

-- What Redis holds, the latest first.
abbrev pub Redis : Type 0
Redis = List (Str × Bytes)

unfoldable pub key_name : Str → Str
key_name unikey = codes "ocpx-unikey:" ++ unikey

unfoldable pub stored : Str → Redis → Option Bytes
unfolding str_eq
stored key [] = none
stored key ((k, value) ∷ redis) = if str_eq k key then some value else stored key redis

-- An error is only printed.
unfoldable pub set_checked : Option Error → Str → Bytes → Redis → Redis
set_checked none key value redis = (key, value) ∷ redis
set_checked (some e) key value redis = redis

-- `jsoniter.Marshal`, and the error of `Set`.
module _ (marshal : MateData → Returns Bytes) (set_error : Str → Redis → Option Error) where
  unfoldable pub set_value : Str → Returns Bytes → Redis → Redis
  unfolding set_checked
  set_value key (failed e) redis = redis
  set_value key (returned value) redis = set_checked (set_error key redis) key value redis

  unfoldable pub push_row : Option Str → MateData → Redis → Redis
  unfolding set_value key_name
  push_row none r redis = redis
  push_row (some unikey) r redis = set_value (key_name unikey) (marshal r) redis

  unfoldable pub push_rows : List MateData → Redis → Redis
  unfolding push_row unikey_of
  push_rows [] redis = redis
  push_rows (r ∷ rows) redis = push_rows rows (push_row (unikey_of r) r redis)

  -- `c.getAll` yields an error of the query or the rows.
  unfoldable pub push_redis_all :
      Returns (List (Returns (List (Str × SqlValue)))) → Redis → Option Error × Redis
  unfolding push_rows scan_all
  push_redis_all (failed e) redis = (some e, redis)
  push_redis_all (returned rows) redis = (none, push_rows (scan_all rows) redis)

-- A missing entry is a nil slice.
unfoldable pub redis_get : Str → Redis → Bytes
unfolding stored
redis_get key redis = elim (stored key redis) [ none ↦ [] | some value ↦ value ]

-- `unmarshal` is the map that `jsoniter.Unmarshal` leaves, also where it returns an error. The test
-- `result != nil` always holds, since a nil slice in an interface is not nil.
unfoldable pub get_mate : (Bytes → MateData) → Str → Redis → MateData
unfolding redis_get key_name
get_mate unmarshal key redis = unmarshal (redis_get (key_name key) redis)
