-- ===== src/Examples/Pools.antt =====
-- A pool of a few connections, and the producer over one.
use report_api.Prelude.{
  ◌≡◌, refl, ℕ, Bool, true, false, none, some, List, [], ◌∷◌, ◌==◌, if◌then◌else◌, arith,
}
use report_api.Prelude.Int.{pos}
use report_api.Go.Result.{ok, err, errorf}
use report_api.Go.Returns.{returned}
use report_api.Go.Text.{codes, str_lt}
use report_api.Common.Pool.{
  PoolConfig, Connect, push_back, open_all, new_pool, link_round, auto_link,
}
use report_api.Common.Rabbit.{
  MqPool, Amqp, close_conns, close_pool, is_closing_error, send_data_map,
}
use report_api.Common.Rabbit.Stuck.{shut_front, send_data_map_stuck}

abbrev connect : Connect
connect call = some call

abbrev config : PoolConfig
config = record { max_open = pos 5; min_open = pos 2 }

new_pool_test : new_pool connect config ≡ ok (0 ∷ 1 ∷ [])
unfolding new_pool open_all push_back
new_pool_test = refl

auto_link_test : auto_link connect 4 0 [] ≡ 0 ∷ 1 ∷ []
unfolding auto_link link_round push_back
auto_link_test = refl

-- A server that never answers: Publish fails on each connection.
abbrev has : ℕ → List ℕ → Bool
has cn [] = false
has cn (conn ∷ shut) = if conn == cn then true else has cn shut

abbrev silent_server : Amqp
silent_server = record {
  is_closed = λ shut cn. has cn shut;
  publish_error = λ published cn str. some (codes "Exception (504)");
}

abbrev two_links : MqPool
two_links = record {
  lq = 1 ∷ 2 ∷ [];
  conns = [];
  num_open = pos 0;
  pool_closed = false;
  shut = [];
  published = [];
}

silent_server_closing : (shut : List ℕ) (cn : ℕ) → silent_server.is_closed (cn ∷ shut) cn ≡ true
silent_server_closing shut cn = ground arith

closing_text : is_closing_error (codes "Exception (504)") ≡ true
unfolding is_closing_error str_lt
closing_text = refl

send_data_map_stuck_example :
    (send_data_map 1 silent_server (returned (codes "{}")) two_links
      ≡ some (ok (shut_front 1 (2 ∷ []) two_links)))
    × (send_data_map 50 silent_server (returned (codes "{}")) (shut_front 1 (2 ∷ []) two_links)
        ≡ none)
send_data_map_stuck_example =
    send_data_map_stuck silent_server silent_server_closing two_links 1 (2 ∷ [])
      (returned (codes "{}")) (codes "Exception (504)") refl refl refl closing_text 50
      (returned (codes "{}"))

-- ClosePool closes no connection of the list, and fails when it is called again.
close_pool_test :
    (close_pool two_links ≡ ok (record two_links { pool_closed = true }))
    × (close_pool (record two_links { pool_closed = true }) ≡ err (errorf "pool closed"))
unfolding close_pool close_conns
close_pool_test = (refl, refl)
