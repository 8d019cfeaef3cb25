-- ===== src/Examples/Caches.antt =====
-- The cache of callback settings on two rows.
use report_api.Prelude.{◌≡◌, ◌≢◌, refl, Option, none, some, List, [], ◌∷◌, ◌++◌, All}
use report_api.Go.Result.{Error, external}
use report_api.Go.Returns.{Returns, failed, returned}
use report_api.Go.Text.{Str, Bytes, codes, str_eq}
use report_api.Common.Cache.{
  MateData, SqlValue, bytes, string, opaque, Redis, scanned_value, row_of_columns, scan_row,
  scan_all, column, string_of, unikey_of, push_redis_all, get_mate, redis_get, stored,
}
use report_api.Common.Cache.Roundtrip.{push_redis_all-get}

abbrev first : List (Str × SqlValue)
first = (codes "unikey", bytes (codes "a")) ∷ (codes "rate", opaque 5) ∷ []

abbrev second : List (Str × SqlValue)
second = (codes "unikey", bytes []) ∷ []

abbrev raw : List (Returns (List (Str × SqlValue)))
raw = returned first ∷ failed (external 0) ∷ returned second ∷ []

abbrev first_row : MateData
first_row = (codes "rate", opaque 5) ∷ (codes "unikey", string (codes "a")) ∷ []

abbrev second_row : MateData
second_row = (codes "unikey", string []) ∷ []

scanned : scan_all raw ≡ [] ++ first_row ∷ second_row ∷ []
unfolding scan_all scan_row row_of_columns scanned_value
scanned = refl

unikey_a : unikey_of first_row ≡ some (codes "a")
unfolding unikey_of column string_of str_eq
unikey_a = refl

others : All (λ s. unikey_of s ≢ some (codes "a")) (second_row ∷ [])
unfolding unikey_of column string_of str_eq
others = (λ e. cc, tt)

abbrev marshal : MateData → Returns Bytes
marshal r = returned (codes "{}")

abbrev unmarshal : Bytes → MateData
unmarshal [] = []
unmarshal (b ∷ text) = first_row

abbrev never_failing : Str → Redis → Option Error
never_failing key redis = none

push_redis_all-get_example :
    let (error, redis) = push_redis_all marshal never_failing (returned raw) [] in
    (error ≡ none) × (get_mate unmarshal (codes "a") redis ≡ first_row)
push_redis_all-get_example =
    push_redis_all-get marshal never_failing unmarshal raw [] (second_row ∷ []) first_row [] scanned
      unikey_a refl (λ key held. refl) others

-- A key that is not there yields an empty map, not nil.
missing_key : get_mate unmarshal (codes "c") [] ≡ []
unfolding get_mate redis_get stored
missing_key = refl
