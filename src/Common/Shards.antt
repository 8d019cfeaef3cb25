-- ===== src/Common/Shards.antt =====
-- The Redis servers that share the keys by their CRC-32: common/redis/crc_pool.go. Each address is a
-- server of its own, and a command reads and changes the value of its key only.
pub mod Methods
pub mod Shown
pub mod Single
use report_api.Prelude.{
  ℕ, zero, suc, ◌%◌, Bool, true, false, Option, none, some, List, [], ◌∷◌, map, length, get_elem?,
  if◌then◌else◌,
}
use report_api.Prelude.Int.{ℤ, pos, negsuc}
use report_api.Go.Result.{
  Result, ok, panic, Error, errorf, index_out_of_range, divide_by_zero, found, ◌>>=◌,
}
use report_api.Go.Returns.{Returns, failed, returned}
use report_api.Go.Text.{Str, codes, str_eq}
use report_api.Go.Text.Split.{split}

-- What is sent to a server.
pub data Command : Type 0 where
  set : Str → Str → Command
  set_ex : Str → Str → ℤ → Command
  expireat : Str → ℤ → Command
  expire : Str → ℤ → Command
  get : Str → Command
  incr : Str → Command
  decr : Str → Command
  del : Str → Command
  ttl : Str → Command
  hmset : Str → List (Str × Str) → Command
  hget : Str → Str → Command

abbrev pub key_of : Command → Str
key_of (set key content) = key
key_of (set_ex key content seconds) = key
key_of (expireat key timestamp) = key
key_of (expire key seconds) = key
key_of (get key) = key
key_of (incr key) = key
key_of (decr key) = key
key_of (del key) = key
key_of (ttl key) = key
key_of (hmset key setvs) = key
key_of (hget key field) = key

-- The value of each key on a server.
abbrev pub Server {ℓ} : Type ℓ → Type ℓ
Server V = Str → V

-- `none` in `ms_pool` is nil.
pub record Pool {ℓ} (V : Type ℓ) : Type ℓ where
  pub ms_pool : List (Option (Server V))
  pub ip_ports : List Str

unfoldable pub password_of : List Str → Option Str
password_of (address ∷ password ∷ []) = some password
password_of _ = none

unfoldable pub address_of : List Str → Str
address_of [] = []
address_of (address ∷ rest) = address

-- `server_at` is the server behind an address and a password.
unfoldable pub server_of {ℓ} : {V : Type ℓ} → (Str → Option Str → Server V) → Str → Server V
unfolding password_of address_of split
server_of server_at ip_port =
    let ip_info_string = split 64 ip_port in
    server_at (address_of ip_info_string) (password_of ip_info_string)

unfoldable pub init_redis_pool {ℓ} : {V : Type ℓ} → (Str → Option Str → Server V) → Str → Pool V
unfolding server_of
init_redis_pool server_at ip_port_str = record {
  ms_pool = map (λ ip_port. some (server_of server_at ip_port)) (split 44 ip_port_str);
  ip_ports = split 44 ip_port_str;
}

unfoldable pub shard : (Str → ℕ) → List Str → Str → ℕ
shard crc32 ip_ports key = crc32 key % length ip_ports

-- Before Init_RedisPool there is no address.
unfoldable pub getkey : (Str → ℕ) → List Str → Str → Result ℕ
unfolding shard
getkey crc32 [] key = panic divide_by_zero
getkey crc32 (ip_port ∷ ip_ports) key = ok (shard crc32 (ip_port ∷ ip_ports) key)

unfoldable pub set_at {ℓ} : {A : Type ℓ} → List A → ℕ → A → List A
set_at [] i y = []
set_at (x ∷ xs) zero y = y ∷ xs
set_at (x ∷ xs) (suc i) y = x ∷ set_at xs i y

unfoldable pub changed {ℓ} : {V : Type ℓ} → Server V → Str → V → Server V
unfolding str_eq
changed server key value k = if str_eq k key then value else server k

module _ {R V : Type 0} (exec : Command → V → Returns R × V) where
  -- `c.Do` on a server.
  unfoldable pub served : Command → Server V → Returns R × Server V
  unfolding changed
  served c server =
      let (reply, value) = exec c (server (key_of c)) in (reply, changed server (key_of c) value)

  -- `if r.Ms_pool[k] != nil { c.Do(…) }`, where `none` is a pool that is nil.
  unfoldable pub do_at : Pool V → ℕ → Command → Option (Server V) → Option (Returns R) × Pool V
  unfolding served set_at
  do_at r k c none = (none, r)
  do_at r k c (some server) =
      let (reply, server') = served c server in
      (some reply, record { ms_pool = set_at r.ms_pool k (some server'); ip_ports = r.ip_ports })

  unfoldable pub do_shard : (Str → ℕ) → Command → Pool V → Result (Option (Returns R) × Pool V)
  unfolding do_at getkey
  do_shard crc32 c r = getkey crc32 r.ip_ports (key_of c) >>= λ k.
      found (get_elem? r.ms_pool k) >>= λ server. ok (do_at r k c server)
