-- ===== src/Common/Rabbit/Stuck.antt =====
-- What becomes of the producer after an error of Publish.
use report_api.Prelude.{ℕ, ◌≡◌, ap, true, false, none, some, List, [], ◌∷◌, ◌++◌}
use report_api.Go.Result.{ok}
use report_api.Go.Returns.{Returns}
use report_api.Go.Text.{Bytes}
use report_api.Common.Pool.{get_conn}
use report_api.Common.Pool.Growth.{get_conn_never_returns}
use report_api.Common.Rabbit.{
  MqPool, Amqp, close_conn, is_closing_error, after_publish, message_of, send_on, send_data_map,
}

-- The pool after SendDataMap closed the front connection.
abbrev pub shut_front : ℕ → List ℕ → MqPool → MqPool
shut_front cn lq p = close_conn cn (record p { lq = (cn ∷ lq) ++ cn ∷ [] })

-- Suppose a connection is closed once `Close` was called on it. Where the front connection is open, but
-- Publish on it fails with an error for which SendDataMap closes the connection, this call returns, and no
-- later one does: `Get` calls itself without end, since the closed connection stays at the front.
pub send_data_map_stuck :
    (amqp : Amqp)
    → ((shut : List ℕ) (cn : ℕ) → amqp.is_closed (cn ∷ shut) cn ≡ true)
    → (p : MqPool) (cn : ℕ) (lq : List ℕ) (marshalled : Returns Bytes) (text : Bytes)
    → p.lq ≡ cn ∷ lq
    → amqp.is_closed p.shut cn ≡ false
    → amqp.publish_error p.published cn (message_of marshalled) ≡ some text
    → is_closing_error text ≡ true
    → (fuel : ℕ) (next : Returns Bytes)
    → (send_data_map 1 amqp marshalled p ≡ some (ok (shut_front cn lq p)))
      × (send_data_map fuel amqp next (shut_front cn lq p) ≡ none)
unfolding send_data_map send_on get_conn after_publish close_conn
send_data_map_stuck amqp closing p cn lq marshalled text front alive failure closes fuel next = (
  rw (front, get_conn, alive, failure, closes),
  ap (λ got. send_on amqp (message_of next) got (shut_front cn lq p))
      (get_conn_never_returns (amqp.is_closed (cn ∷ p.shut)) fuel cn (lq ++ cn ∷ [])
        (closing p.shut cn)),
)
