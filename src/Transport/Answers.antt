-- ===== src/Transport/Answers.antt =====
-- internal/transport/http: json.go, and statusForError and withRecovery of router.go. `none` stands
-- for a body that decodeJSON refuses; a response has its status and the value that is encoded.
use cs320_cluster_process_ma.Base.{
  ℕ, String, List, Option, none, some, Result, ok, err, panic, Error, Action,
}
use cs320_cluster_process_ma.Domain.Types.{Event}
use cs320_cluster_process_ma.Domain.Process.{Process}
use cs320_cluster_process_ma.Domain.Node.{Node}
use cs320_cluster_process_ma.Domain.Cluster.{Cluster}
use cs320_cluster_process_ma.Controller.State.{Controller}
use cs320_cluster_process_ma.Controller.Views
use cs320_cluster_process_ma.Metrics.{Report}
use cs320_cluster_process_ma.Engine.{Engine}

pub data Body (F : Type 0) : Type 0 where
  empty health error : Body F
  node : Node → Body F
  nodes : List Node → Body F
  process : Process → Body F
  processes : List Process → Body F
  cluster : Cluster F → Body F
  scheduler : String → Body F
  events : List Event → Body F
  report : Report F → Body F

pub record Response (F : Type 0) : Type 0 where
  pub status : ℕ
  pub body : Body F

-- statusForError
unfoldable pub status_for_error : Error → ℕ
status_for_error Error.node_not_found = 404
status_for_error Error.process_not_found = 404
status_for_error Error.duplicate_node = 409
status_for_error Error.duplicate_process = 409
status_for_error Error.invalid_state_transition = 409
status_for_error Error.insufficient_resources = 422
status_for_error Error.no_schedulable_node = 422
status_for_error Error.max_restarts_exceeded = 422
status_for_error Error.invalid_input = 400
status_for_error _ = 500

module _ {F : Type 0} where
  -- writeJSON, writeError, and the answer of withRecovery to a panic.
  abbrev pub write : ℕ → Body F → Response F
  write status body = record { status = status; body = body }

  abbrev pub write_error : Error → Response F
  write_error e = write (status_for_error e) Body.error

  abbrev pub recovered : Response F
  recovered = write 500 Body.error

  -- The handler's `if err != nil { writeError(w, err); return }` and its last line.
  abbrev pub answer : {A : Type 0} → ℕ → (A → Body F) → Result A → Response F
  answer status body (ok a) = write status (body a)
  answer status body (err e) = write_error e
  answer status body panic = recovered

  -- A handler that calls a method of the controller.
  abbrev pub respond :
      {A : Type 0} → ℕ → (A → Body F) → Action (Controller F) A → Engine F → Response F × Engine F
  respond status body method e =
      let (result, c) = method e.controller in
      (answer status body result, record e { controller = c })

  -- `if err := decodeJSON(...); err != nil { 400 }`
  abbrev pub decoded :
      {A : Type 0}
      → Option A
      → (A → Engine F → Response F × Engine F)
      → Engine F
      → Response F × Engine F
  decoded none handler e = (write 400 Body.error, e)
  decoded (some a) handler e = handler a e

  -- A handler that only reads.
  abbrev pub view : (Controller F → Response F) → Engine F → Response F × Engine F
  view read e = (read e.controller, e)

  -- A handler that calls a method of the engine, and answers with the snapshot.
  abbrev pub engine_answer : ℕ → Result Unit × Engine F → Response F × Engine F
  engine_answer status (result, e) =
      (answer status (λ _. Body.cluster (Views.snapshot e.controller)) result, e)
