-- ===== src/Common/Shards/Methods.antt =====
-- What the methods of common/redis/crc_pool.go return for the reply of a server.
use report_api.Prelude.{ℕ, Option, none, some, List, [], ◌∷◌, if◌then◌else◌}
use report_api.Prelude.Int.{ℤ, pos, negsuc}
use report_api.Go.Result.{Result, ok, Error, errorf, ◌>>=◌}
use report_api.Go.Returns.{Returns, failed, returned}
use report_api.Go.Text.{Str, codes, str_eq}
use report_api.Common.Shards.{
  Command, set, set_ex, expireat, expire, get, incr, decr, del, ttl, hmset, hget, Pool, do_shard,
}

abbrev pub not_new : Error
not_new = errorf "not new redis pool!"

-- What a method returns: an error, a text or a number with it.
pub data Answer : Type 0 where
  error : Option Error → Answer
  text : Str → Option Error → Answer
  number : ℤ → Option Error → Answer

-- `_, err := c.Do(…); return err`.
unfoldable pub error_answer {ℓ} : {R : Type ℓ} → Option (Returns R) → Answer
error_answer none = error (some not_new)
error_answer (some (failed e)) = error (some e)
error_answer (some (returned reply)) = error none

-- `error_text` is the text of an error.
unfoldable pub text_of_string : (Error → Str) → Returns Str → Answer
unfolding str_eq
text_of_string error_text (returned res) = text res none
text_of_string error_text (failed e) =
    text [] (if str_eq (error_text e) (codes "redigo: nil returned") then none else some e)

-- A missing value is an empty text. `string_of_reply` is redis.String.
unfoldable pub text_answer {ℓ} :
    {R : Type ℓ} → (Error → Str) → (Returns R → Returns Str) → Option (Returns R) → Answer
unfolding text_of_string
text_answer error_text string_of_reply none = text [] (some not_new)
text_answer error_text string_of_reply (some reply) =
    text_of_string error_text (string_of_reply reply)

unfoldable pub count_of : Returns ℤ → Answer
count_of (returned res) = number res none
count_of (failed e) = number (negsuc 0) (some not_new)

-- Every error of INCR and DECR is answered as that of a pool that is nil. `int64_of_reply` is
-- redis.Int64.
unfoldable pub count_answer {ℓ} :
    {R : Type ℓ} → (Returns R → Returns ℤ) → Option (Returns R) → Answer
unfolding count_of
count_answer int64_of_reply none = number (negsuc 0) (some not_new)
count_answer int64_of_reply (some reply) = count_of (int64_of_reply reply)

unfoldable pub number_of : ℤ × Option Error → Answer
number_of (res, err) = number res err

-- `int_of_reply` is redis.Int, whose result and error are both returned.
unfoldable pub number_answer {ℓ} :
    {R : Type ℓ} → (Returns R → ℤ × Option Error) → Option (Returns R) → Answer
unfolding number_of
number_answer int_of_reply none = number (pos 0) (some not_new)
number_answer int_of_reply (some reply) = number_of (int_of_reply reply)

unfoldable pub status_of : Returns Str → Answer
status_of (returned res) = error none
status_of (failed e) = error (some e)

unfoldable pub status_answer {ℓ} :
    {R : Type ℓ} → (Returns R → Returns Str) → Option (Returns R) → Answer
unfolding status_of
status_answer string_of_reply none = error (some not_new)
status_answer string_of_reply (some reply) = status_of (string_of_reply reply)

-- The rest of a method, once its command was sent.
unfoldable pub answered :
    {R V : Type 0}
    → (Str → ℕ)
    → (Command → V → Returns R × V)
    → (Option (Returns R) → Answer)
    → Command
    → Pool V
    → Result (Answer × Pool V)
unfolding do_shard
answered crc32 exec answer c r =
    do_shard exec crc32 c r >>= λ sent. let (reply, r') = sent in ok (answer reply, r')

module _ {R V : Type 0} (string_of_reply : Returns R → Returns Str)
    (int64_of_reply : Returns R → Returns ℤ) (int_of_reply : Returns R → ℤ × Option Error)
    (error_text : Error → Str) (crc32 : Str → ℕ) (exec : Command → V → Returns R × V) where
  unfoldable pub set_key_data_redis : Str → Str → Pool V → Result (Answer × Pool V)
  unfolding answered
  set_key_data_redis key content = answered crc32 exec error_answer (set key content)

  unfoldable pub setex : Str → Str → ℤ → Pool V → Result (Answer × Pool V)
  unfolding answered
  setex key content seconds = answered crc32 exec error_answer (set_ex key content seconds)

  unfoldable pub expire_at : Str → ℤ → Pool V → Result (Answer × Pool V)
  unfolding answered
  expire_at key timestamp = answered crc32 exec error_answer (expireat key timestamp)

  unfoldable pub expire_in : Str → ℤ → Pool V → Result (Answer × Pool V)
  unfolding answered
  expire_in key seconds = answered crc32 exec error_answer (expire key seconds)

  unfoldable pub get_key_data_redis : Str → Pool V → Result (Answer × Pool V)
  unfolding answered
  get_key_data_redis key = answered crc32 exec (text_answer error_text string_of_reply) (get key)

  unfoldable pub incr_key : Str → Pool V → Result (Answer × Pool V)
  unfolding answered
  incr_key key = answered crc32 exec (count_answer int64_of_reply) (incr key)

  unfoldable pub decr_key : Str → Pool V → Result (Answer × Pool V)
  unfolding answered
  decr_key key = answered crc32 exec (count_answer int64_of_reply) (decr key)

  unfoldable pub del_key_data_redis : Str → Pool V → Result (Answer × Pool V)
  unfolding answered
  del_key_data_redis key = answered crc32 exec error_answer (del key)

  unfoldable pub ttl_key_data_redis : Str → Pool V → Result (Answer × Pool V)
  unfolding answered
  ttl_key_data_redis key = answered crc32 exec (number_answer int_of_reply) (ttl key)

  unfoldable pub mset_hash_key_data_redis :
      Str → List (Str × Str) → Pool V → Result (Answer × Pool V)
  unfolding answered
  mset_hash_key_data_redis key setvs =
      answered crc32 exec (status_answer string_of_reply) (hmset key setvs)

  unfoldable pub get_hash_key_data_redis : Str → Str → Pool V → Result (Answer × Pool V)
  unfolding answered
  get_hash_key_data_redis key field =
      answered crc32 exec (text_answer error_text string_of_reply) (hget key field)

  -- A call of the method that sends a command.
  unfoldable pub perform : Command → Pool V → Result (Answer × Pool V)
  unfolding set_key_data_redis setex expire_at expire_in get_key_data_redis incr_key decr_key
      del_key_data_redis ttl_key_data_redis mset_hash_key_data_redis get_hash_key_data_redis
  perform (set key content) = set_key_data_redis key content
  perform (set_ex key content seconds) = setex key content seconds
  perform (expireat key timestamp) = expire_at key timestamp
  perform (expire key seconds) = expire_in key seconds
  perform (get key) = get_key_data_redis key
  perform (incr key) = incr_key key
  perform (decr key) = decr_key key
  perform (del key) = del_key_data_redis key
  perform (ttl key) = ttl_key_data_redis key
  perform (hmset key setvs) = mset_hash_key_data_redis key setvs
  perform (hget key field) = get_hash_key_data_redis key field

  -- Calls in turn.
  unfoldable pub perform_all : List Command → Pool V → Result (List Answer × Pool V)
  unfolding perform
  perform_all [] r = ok ([], r)
  perform_all (c ∷ cs) r =
      perform c r >>= λ first. perform_all cs first.1 >>= λ rest. ok (first.0 ∷ rest.0, rest.1)
