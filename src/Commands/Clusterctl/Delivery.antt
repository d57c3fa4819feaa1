-- ===== src/Commands/Clusterctl/Delivery.antt =====
-- cmd/clusterctl/main.go against the API of internal/transport/http: the exit of a command.
use cs320_cluster_process_ma.Base.{
  ℕ, ◌≤◌, String, List, ◌≡◌, refl, sym, ◌∙◌, ap, ◌↔◌, some, Float, arith, inl, inr, Bool-cases,
  ◌||◌, ltb, leb, string_eq,
}
use cs320_cluster_process_ma.Base.Urls.{trim_end}
use cs320_cluster_process_ma.Base.Flags.{Flags, parse_flags, text_named}
use cs320_cluster_process_ma.Controller.Invariant.Facts.{IsConsistent}
use cs320_cluster_process_ma.Engine.{Engine, Stops}
use cs320_cluster_process_ma.Transport.{Request, handle}
use cs320_cluster_process_ma.Transport.Bodies.{Codec, Call, DecodesObjects, receive}
use cs320_cluster_process_ma.Transport.Refusals.{IsDirect, handle-refused}
use cs320_cluster_process_ma.Transport.Statuses.{IsUsual, handle-IsUsual}
use cs320_cluster_process_ma.Commands.Answers.{done, failed}
use cs320_cluster_process_ma.Commands.Clusterctl.{Machine, Order, Failure, command}
use cs320_cluster_process_ma.Commands.Clusterctl.Exchange.{
  Network, Reply, max_response, request, run, delivered, global_flags,
}
use cs320_cluster_process_ma.Commands.Clusterctl.Intent.{Asks}
use cs320_cluster_process_ma.Commands.Clusterctl.Routing.{ParsesInts, Asks-IsReceived}

-- The network leads to the API at an engine: a call that a handler receives is answered with the
-- status of that handler.
abbrev pub LeadsTo :
    {F J : Type 0} ⦃f : Float F⦄
    → (Engine F → Engine F)
    → Codec J
    → Network J
    → String
    → Engine F
    → Type 0
LeadsTo stop codec net base e =
    (call : Call _) (r : Request)
    → receive codec call ≡ some r
    → (reply : Reply _) × (net.exchange base call ≡ some reply)
      × (reply.status ≡ (handle stop r e).0.status)

module _ {J : Type 0} (codec : Codec J) (net : Network J) where
  -- A status of an error is reported, and one of success is not.
  delivered-api :
      (output : String) (reply : Reply J) (content : J) (n : ℕ)
      → IsUsual reply.status
      → delivered codec net output reply content ≡ failed (Failure.api n)
      → (n ≡ reply.status) × (400 ≤ reply.status)
  delivered-api output reply content n usual h =
      elim (Bool-cases (ltb reply.status 200 || leb 300 reply.status)) [
        | inl outside ↦ ground arith
        | inr inside ↦ ground arith
      ]

  delivered_of_error :
      (output : String) (reply : Reply J) (content : J)
      → 400 ≤ reply.status
      → delivered codec net output reply content ≡ failed (Failure.api reply.status)
  delivered_of_error output reply content h = ground arith

  run-delivered :
      (m : Machine J) (arguments args : List String) (set : Flags) (o : Order J) (reply : Reply J)
      → parse_flags m.parse_int arguments global_flags ≡ some (set, args)
      → command m codec args ≡ done o
      → net.exchange (trim_end b'/' (text_named "server" set)) o.call ≡ some reply
      → run m codec net arguments
        ≡ delivered codec net o.output reply (net.take max_response reply.body)
  unfolding run request
  run-delivered m arguments args set o reply parsed sent exchanged =
      rw (parsed, sent, exchanged) refl

module _ {F J : Type 0} ⦃f : Float F⦄ (m : Machine J) (codec : Codec J) (net : Network J)
    (stop : Engine F → Engine F) (stops : (e : Engine F) → Stops e (stop e)) where
  -- A command of clusterctl that asks for a request other than a step exits with an error of the
  -- API exactly where the handler answers with a status of 400 or above. The error has this status,
  -- and the request has left the engine and its consistent controller as they were. The network
  -- leads each call to the API, the decoder and strconv.ParseInt are as documented, and a request
  -- that stops the loop may find it after any number of further ticks.
  pub run-refused :
      (arguments args : List String) (set : Flags) (r : Request) (e : Engine F) (n : ℕ)
      → DecodesObjects codec
      → ParsesInts m codec
      → parse_flags m.parse_int arguments global_flags ≡ some (set, args)
      → Asks m codec args r
      → LeadsTo stop codec net (trim_end b'/' (text_named "server" set)) e
      → IsDirect r
      → IsConsistent e.controller
      → (run m codec net arguments ≡ failed (Failure.api n))
        ↔ ((n ≡ (handle stop r e).0.status) × (400 ≤ n) × ((handle stop r e).1 ≡ e))
  run-refused arguments args set r e n decodes ints parsed asks leads direct inv =
      let sent = Asks-IsReceived m codec decodes ints args r asks in
      let (reply, exchanged, same) = leads sent.order.call r sent.received in
      let content = net.take max_response reply.body in
      let ran =
        run-delivered codec net m arguments args set sent.order reply parsed sent.sent exchanged in
      (
        λ h.
            let (at, bad) =
              delivered-api codec net sent.order.output reply content n
                (rw same (handle-IsUsual stop r e)) (sym ran ∙ h) in
            (at ∙ same, rw at bad, handle-refused stop stops r e direct inv (rw (← same) bad)),
        λ (at, bad, _).
            let here : n ≡ reply.status = at ∙ sym same in
            ran
            ∙ delivered_of_error codec net sent.order.output reply content (rw (← here) bad)
            ∙ ap (λ k. failed (Failure.api k)) (sym here),
      )
