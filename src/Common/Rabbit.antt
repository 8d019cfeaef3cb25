-- ===== src/Common/Rabbit.antt =====
-- SendDataMap of common/rabbitmq/producer.go over the pool of common/pool/pool.go, with Close, Release
-- and ClosePool of that.
pub mod Stuck
use report_api.Prelude.{
  ℕ, suc, ◌+◌, Bool, true, false, Option, none, some, List, [], ◌∷◌, ◌++◌, length, if◌then◌else◌,
}
use report_api.Prelude.Int.{ℤ, pos, negsuc, ◌+ℤ◌}
use report_api.Go.Result.{Result, ok, err, panic, Error, errorf, nil_dereference}
use report_api.Go.Returns.{Returns, failed, returned}
use report_api.Go.Text.{Bytes, codes, str_lt}
use report_api.Common.Pool.{get_conn}

-- The pool: its list of connections, its channel, `NumOpen` and `Closed`, with the connections on which
-- `Close` was called and the messages that were published, both the latest first.
pub record MqPool : Type 0 where
  pub lq : List ℕ
  pub conns : List ℕ
  pub num_open : ℤ
  pub pool_closed : Bool
  pub shut : List ℕ
  pub published : List (ℕ × Bytes)

-- Nothing is put into the channel.
unfoldable pub release_conn : ℕ → MqPool → MqPool
release_conn conn p = p

unfoldable pub close_conn : ℕ → MqPool → MqPool
close_conn conn p = record p { shut = conn ∷ p.shut; num_open = p.num_open +ℤ negsuc 0 }

unfoldable pub close_conns : List ℕ → MqPool → MqPool
unfolding close_conn
close_conns [] p = p
close_conns (conn ∷ conns) p = close_conns conns (close_conn conn p)

-- The connections of the channel are closed; those of the list stay open.
unfoldable pub close_pool : MqPool → Result MqPool
unfolding close_conns
close_pool p =
    if p.pool_closed
    then err (errorf "pool closed")
    else ok (record (close_conns p.conns p) { conns = []; pool_closed = true })

-- The text of an error against which it is compared; `strings.Compare` is -1 where this text is less.
unfoldable pub is_closing_error : Bytes → Bool
unfolding str_lt
is_closing_error text = if str_lt (codes "channel/connection is not open") text then false else true

-- After `Publish`, with the text of its error, if there is one.
unfoldable pub after_publish : ℕ → Bytes → Option Bytes → MqPool → MqPool
unfolding close_conn is_closing_error
after_publish conn str none p = record p { published = (conn, str) ∷ p.published }
after_publish conn str (some text) p = if is_closing_error text then close_conn conn p else p

-- `str, _ := jsoniter.Marshal(Data)`.
unfoldable pub message_of : Returns Bytes → Bytes
message_of (failed e) = []
message_of (returned str) = str

-- What the library amqp does: `is_closed`, by the connections on which `Close` was called, and the text
-- of the error of `Publish`, by the messages that were published before.
pub record Amqp : Type 0 where
  pub is_closed : List ℕ → ℕ → Bool
  pub publish_error : List (ℕ × Bytes) → ℕ → Bytes → Option Bytes

-- What follows `Get`: its error is only logged, and its nil connection is used.
unfoldable pub send_on : Amqp → Bytes → Option (Result ℕ × List ℕ) → MqPool → Option (Result MqPool)
unfolding after_publish
send_on amqp str none p = none
send_on amqp str (some (panic q, lq)) p = some (panic q)
send_on amqp str (some (err e, lq)) p = some (panic nil_dereference)
send_on amqp str (some (ok conn, lq)) p =
    some
      (ok (after_publish conn str (amqp.publish_error p.published conn str) (record p { lq = lq })))

-- The first argument is the fuel of `Get`.
unfoldable pub send_data_map : ℕ → Amqp → Returns Bytes → MqPool → Option (Result MqPool)
unfolding send_on message_of get_conn
send_data_map fuel amqp marshalled p =
    send_on amqp (message_of marshalled) (get_conn (amqp.is_closed p.shut) fuel p.lq) p
