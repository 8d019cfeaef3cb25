-- ===== src/Common/Shards/Single.antt =====
-- The sharded servers and one server that holds every key.
use report_api.Prelude.{
  ℕ, zero, suc, ◌<◌, ◌≡◌, refl, Option, some, List, [], ◌∷◌, length, map, get_or, get_elem?, arith,
}
use report_api.Prelude.Int.{ℤ}
use report_api.Go.Result.{ok, Error}
use report_api.Go.Returns.{Returns}
use report_api.Go.Text.{Str}
use report_api.Go.Text.Split.{split, before_first}
use report_api.Common.Shards.{
  Command, set, set_ex, expireat, expire, get, incr, decr, del, ttl, hmset, hget, key_of, Server,
  Pool, shard, changed, served, do_shard, server_of, init_redis_pool,
}
use report_api.Common.Shards.Methods.{
  Answer, error_answer, text_answer, count_answer, number_answer, status_answer, answered,
  set_key_data_redis, setex, expire_at, expire_in, get_key_data_redis, incr_key, decr_key,
  del_key_data_redis, ttl_key_data_redis, mset_hash_key_data_redis, get_hash_key_data_redis,
  perform, perform_all,
}
use report_api.Common.Shards.Shown.{Shows, with_server, changed-Shows, do_shard-sent}

-- redis.String, redis.Int64 and redis.Int of a reply, and the text of an error.
module _ {R V : Type 0} (string_of_reply : Returns R → Returns Str)
    (int64_of_reply : Returns R → Returns ℤ) (int_of_reply : Returns R → ℤ × Option Error)
    (error_text : Error → Str) (crc32 : Str → ℕ) (exec : Command → V → Returns R × V) where
  -- How the method of a command answers a reply.
  abbrev pub answer_of : Command → Option (Returns R) → Answer
  answer_of (get key) = text_answer error_text string_of_reply
  answer_of (hget key field) = text_answer error_text string_of_reply
  answer_of (incr key) = count_answer int64_of_reply
  answer_of (decr key) = count_answer int64_of_reply
  answer_of (ttl key) = number_answer int_of_reply
  answer_of (hmset key setvs) = status_answer string_of_reply
  answer_of (set key content) = error_answer
  answer_of (set_ex key content seconds) = error_answer
  answer_of (expireat key timestamp) = error_answer
  answer_of (expire key seconds) = error_answer
  answer_of (del key) = error_answer

  -- The commands in turn on one server.
  abbrev pub single : List Command → Server V → List Answer × Server V
  single [] store = ([], store)
  single (c ∷ cs) store =
      let (reply, store') = served exec c store in
      let (answers, last) = single cs store' in (answer_of c (some reply) ∷ answers, last)

  perform-sent :
      (c : Command) (r r' : Pool V) (reply : Returns R)
      → do_shard exec crc32 c r ≡ ok (some reply, r')
      → perform string_of_reply int64_of_reply int_of_reply error_text crc32 exec c r
        ≡ ok (answer_of c (some reply), r')
  unfolding perform answered set_key_data_redis setex expire_at expire_in get_key_data_redis
      incr_key decr_key del_key_data_redis ttl_key_data_redis mset_hash_key_data_redis
      get_hash_key_data_redis
  perform-sent (set key content) r r' reply h = rw h
  perform-sent (set_ex key content seconds) r r' reply h = rw h
  perform-sent (expireat key timestamp) r r' reply h = rw h
  perform-sent (expire key seconds) r r' reply h = rw h
  perform-sent (get key) r r' reply h = rw h
  perform-sent (incr key) r r' reply h = rw h
  perform-sent (decr key) r r' reply h = rw h
  perform-sent (del key) r r' reply h = rw h
  perform-sent (ttl key) r r' reply h = rw h
  perform-sent (hmset key setvs) r r' reply h = rw h
  perform-sent (hget key field) r r' reply h = rw h

  perform_all-shown :
      (cs : List Command) (r : Pool V) (store : Server V)
      → 0 < length r.ip_ports
      → Shows crc32 r store
      → (r' : Pool V) × (perform_all string_of_reply int64_of_reply int_of_reply error_text crc32
            exec cs r
          ≡ ok ((single cs store).0, r'))
        × Shows crc32 r' (single cs store).1
  unfolding perform_all
  perform_all-shown [] r store h shows = (r, refl, shows)
  perform_all-shown (c ∷ cs) r store h shows =
      let (server, at_k, same) = shows (key_of c) in
      let (reply, value) = exec c (store (key_of c)) in
      let sent =
        perform-sent c r _ reply
          (do_shard-sent crc32 exec c r server (store (key_of c)) h at_k same) in
      let (r', rest, shown) =
        perform_all-shown cs (with_server crc32 r (key_of c) (changed server (key_of c) value))
          (changed store (key_of c) value) h
          (changed-Shows crc32 r store server (key_of c) value shows at_k) in
      (r', rw (sent, rest), shown)

before_first-pos : (c : ℕ) (parts : List Str) → 0 < length (before_first c parts)
unfolding before_first
before_first-pos c [] = omega arith
before_first-pos c (part ∷ parts) = omega arith

-- There is always a server.
split-pos : (d : ℕ) (s : Str) → 0 < length (split d s)
unfolding split before_first
split-pos d [] = omega arith
split-pos d (c ∷ s) = ground (arith, before_first-pos c (split d s))

get_elem?-map :
    {A B : Type 0} (f : A → B) (xs : List A) (i : ℕ) (x : A)
    → i < length xs
    → get_elem? (map f xs) i ≡ some (f (get_or xs i x))
get_elem?-map f [] i x h = absurd (omega (arith, h))
get_elem?-map f (y ∷ xs) zero x h = refl
get_elem?-map f (y ∷ xs) (suc i) x h = get_elem?-map f xs i x (omega (arith, h))

module _ {R V : Type 0} (string_of_reply : Returns R → Returns Str)
    (int64_of_reply : Returns R → Returns ℤ) (int_of_reply : Returns R → ℤ × Option Error)
    (error_text : Error → Str) (crc32 : Str → ℕ) (exec : Command → V → Returns R × V)
    (server_at : Str → Option Str → Server V) where
  -- The value of each key on the server that the key belongs to.
  abbrev pub store_of : Str → Server V
  store_of ip_port_str key =
      let ip_ports = split 44 ip_port_str in
      server_of server_at (get_or ip_ports (shard crc32 ip_ports key) []) key

  init_redis_pool-Shows :
      (ip_port_str : Str)
      → Shows crc32 (init_redis_pool server_at ip_port_str) (store_of ip_port_str)
  unfolding init_redis_pool shard
  init_redis_pool-Shows ip_port_str key =
      let ip_ports = split 44 ip_port_str in
      let k = shard crc32 ip_ports key in
      (
        server_of server_at (get_or ip_ports k []),
        get_elem?-map (λ ip_port. some (server_of server_at ip_port)) ip_ports k []
            (omega (arith, split-pos 44 ip_port_str)),
        refl,
      )

  -- After Init_RedisPool, calls of the methods in any number and order return what the same commands
  -- return on one server that holds every key, none of them panics, and the servers then hold what the
  -- one server holds.
  pub perform_all-single :
      (ip_port_str : Str) (cs : List Command)
      → let (answers, store) =
          single string_of_reply int64_of_reply int_of_reply error_text crc32 exec cs
            (store_of ip_port_str) in
        (r : Pool V) × (perform_all string_of_reply int64_of_reply int_of_reply error_text crc32
            exec cs
            (init_redis_pool server_at ip_port_str)
          ≡ ok (answers, r))
        × Shows crc32 r store
  perform_all-single ip_port_str cs =
      perform_all-shown string_of_reply int64_of_reply int_of_reply error_text crc32 exec cs
        (init_redis_pool server_at ip_port_str) (store_of ip_port_str)
        (unfold init_redis_pool in split-pos 44 ip_port_str) (init_redis_pool-Shows ip_port_str)
