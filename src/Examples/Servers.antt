-- ===== src/Examples/Servers.antt =====
-- Two servers that hold one text for each key.
use report_api.Prelude.{ℕ, zero, ◌≡◌, Option, none, some, List, [], ◌∷◌, length}
use report_api.Prelude.Int.{ℤ, pos}
use report_api.Go.Result.{Error, external, ok}
use report_api.Go.Returns.{Returns, failed, returned}
use report_api.Go.Text.{Str, codes}
use report_api.Common.Shards.{Command, set, get, incr, del, Server, Pool, init_redis_pool}
use report_api.Common.Shards.Methods.{perform_all}
use report_api.Common.Shards.Single.{single, store_of, perform_all-single}
use report_api.Common.Shards.Shown.{Shows}

abbrev exec : Command → Option Str → Returns (Option Str) × Option Str
exec (set key content) v = (returned none, some content)
exec (get key) v = (returned v, v)
exec (del key) v = (returned none, none)
exec _ v = (failed (external 1), v)

abbrev string_of_reply : Returns (Option Str) → Returns Str
string_of_reply (returned (some s)) = returned s
string_of_reply (returned none) = failed (external 0)
string_of_reply (failed e) = failed e

abbrev int64_of_reply : Returns (Option Str) → Returns ℤ
int64_of_reply r = failed (external 2)

abbrev int_of_reply : Returns (Option Str) → ℤ × Option Error
int_of_reply r = (pos 0, some (external 2))

abbrev error_text : Error → Str
error_text (external zero) = codes "redigo: nil returned"
error_text _ = codes "error"

abbrev crc32 : Str → ℕ
crc32 key = length key

abbrev server_at : Str → Option Str → Server (Option Str)
server_at address password key = none

abbrev addresses : Str
addresses = codes "10.0.0.1:6379@secret,10.0.0.2:6379"

abbrev commands : List Command
commands = set (codes "a") (codes "x") ∷ get (codes "a") ∷ get (codes "bb") ∷ incr (codes "a") ∷ []

perform_all-single_example :
    let (answers, store) =
      single string_of_reply int64_of_reply int_of_reply error_text crc32 exec commands (
        store_of string_of_reply int64_of_reply int_of_reply error_text crc32 exec server_at
          addresses) in
    (r : Pool (Option Str)) × (perform_all string_of_reply int64_of_reply int_of_reply error_text
        crc32 exec commands
        (init_redis_pool server_at addresses)
      ≡ ok (answers, r))
    × Shows crc32 r store
perform_all-single_example =
    perform_all-single string_of_reply int64_of_reply int_of_reply error_text crc32 exec server_at
      addresses commands
