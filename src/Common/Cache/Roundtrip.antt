-- ===== src/Common/Cache/Roundtrip.antt =====
-- What `Get` finds after `PushRedisAll`.
use report_api.Prelude.{
  ◌≡◌, ◌≢◌, refl, ap, ◌∙◌, false, Bool-cases, inl, inr, Option, none, some, List, [], ◌∷◌, ◌++◌,
  All,
}
use report_api.Go.Result.{Error}
use report_api.Go.Returns.{Returns, failed, returned}
use report_api.Go.Text.{Str, Bytes, str_eq, str_eq_refl, str_eq→eq}
use report_api.Common.Cache.{
  MateData, SqlValue, Redis, unikey_of, key_name, stored, set_checked, set_value, push_row,
  push_rows, push_redis_all, scan_all, redis_get, get_mate,
}

-- The prefix tells no keys apart.
str_eq-key_name : (a b : Str) → str_eq (key_name a) (key_name b) ≡ str_eq a b
unfolding key_name str_eq
str_eq-key_name a b = refl

set_checked-other :
    (e : Option Error) (other k : Str) (value : Bytes) (redis : Redis)
    → str_eq other k ≡ false
    → stored (key_name k) (set_checked e (key_name other) value redis) ≡ stored (key_name k) redis
unfolding set_checked stored
set_checked-other none other k value redis h = rw (str_eq-key_name other k, h)
set_checked-other (some e) other k value redis h = refl

module _ (marshal : MateData → Returns Bytes) (set_error : Str → Redis → Option Error) where
  set_value-other :
      (text : Returns Bytes) (other k : Str) (redis : Redis)
      → str_eq other k ≡ false
      → stored (key_name k) (set_value marshal set_error (key_name other) text redis)
        ≡ stored (key_name k) redis
  unfolding set_value
  set_value-other (failed e) other k redis h = refl
  set_value-other (returned value) other k redis h =
      set_checked-other (set_error (key_name other) redis) other k value redis h

  -- A row of another key leaves an entry as it is.
  push_row-other :
      (unikey : Option Str) (r : MateData) (redis : Redis) (k : Str)
      → unikey ≢ some k
      → stored (key_name k) (push_row marshal set_error unikey r redis) ≡ stored (key_name k) redis
  unfolding push_row
  push_row-other none r redis k h = refl
  push_row-other (some other) r redis k h = elim (Bool-cases (str_eq other k)) [
    | inr e ↦ set_value-other (marshal r) other k redis e
    | inl e ↦ absurd (h (ap some (str_eq→eq other k e)))
  ]

  push_rows-other :
      (rows : List MateData) (redis : Redis) (k : Str)
      → All (λ s. unikey_of s ≢ some k) rows
      → stored (key_name k) (push_rows marshal set_error rows redis) ≡ stored (key_name k) redis
  unfolding push_rows
  push_rows-other [] redis k h = refl
  push_rows-other (r ∷ rows) redis k (h, hs) =
      push_rows-other rows (push_row marshal set_error (unikey_of r) r redis) k hs
      ∙ push_row-other (unikey_of r) r redis k h

  push_rows-last :
      (before after : List MateData) (r : MateData) (redis : Redis) {k : Str} {text : Bytes}
      → unikey_of r ≡ some k
      → marshal r ≡ returned text
      → ((key : Str) (held : Redis) → set_error key held ≡ none)
      → All (λ s. unikey_of s ≢ some k) after
      → stored (key_name k) (push_rows marshal set_error (before ++ r ∷ after) redis) ≡ some text
  unfolding push_rows push_row set_value set_checked stored
  push_rows-last [] after r redis {k} {text} own written sets others =
      push_rows-other after (push_row marshal set_error (unikey_of r) r redis) k others
      ∙ rw (
        own,
        push_row,
        written,
        set_value,
        sets _ _,
        set_checked,
        stored,
        str_eq_refl (key_name k),
      )
  push_rows-last (s ∷ before) after r redis own written sets others =
      push_rows-last before after r (push_row marshal set_error (unikey_of s) s redis) own written
        sets others

  -- Once PushRedisAll has pushed its rows and no Set has failed, Get of a key yields what unmarshalling
  -- makes of the text of the last row with this unikey.
  pub push_redis_all-get :
      (unmarshal : Bytes → MateData) (raw : List (Returns (List (Str × SqlValue))))
      (before after : List MateData) (r : MateData) (redis : Redis) {k : Str} {text : Bytes}
      → scan_all raw ≡ before ++ r ∷ after
      → unikey_of r ≡ some k
      → marshal r ≡ returned text
      → ((key : Str) (held : Redis) → set_error key held ≡ none)
      → All (λ s. unikey_of s ≢ some k) after
      → let (error, redis') = push_redis_all marshal set_error (returned raw) redis in
        (error ≡ none) × (get_mate unmarshal k redis' ≡ unmarshal text)
  unfolding push_redis_all get_mate redis_get
  push_redis_all-get unmarshal raw before after r redis {k} {text} rows own written sets others =
      (refl, rw (rows, redis_get, push_rows-last before after r redis own written sets others))
