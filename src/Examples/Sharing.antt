-- ===== src/Examples/Sharing.antt =====
-- Examples for a shared connection: two operations, of which the second is answered first.
use kafka_go.Prelude.{◌≤◌, refl, [], ◌∷◌, arith}
use kafka_go.Protocol.Connection.{
  Response, Conn, new_conn, do_request, respond, Run, start, request, response,
}
use kafka_go.Protocol.Connection.Queue.{count}
use kafka_go.Protocol.Connection.Delivery.{Run-once}

abbrev answer : Response
answer = (2, 0 ∷ 0 ∷ [])

abbrev two_requests : Conn
two_requests = respond answer (1 ∷ []) (do_request (do_request new_conn))

two-Run : Run 2 two_requests
unfolding do_request
two-Run = response [] (1 ∷ []) answer (request (request start)) refl (omega arith)

Run-once_example : count 2 two_requests.waiting ≤ 1
Run-once_example = Run-once two-Run (omega arith) 2
