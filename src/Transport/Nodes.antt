-- ===== src/Transport/Nodes.antt =====
-- internal/transport/http/nodes.go.
use cs320_cluster_process_ma.Base.{String, Option}
use cs320_cluster_process_ma.Domain.Types.{NodeStatus}
use cs320_cluster_process_ma.Domain.Node.{NodeDefinition}
use cs320_cluster_process_ma.Controller.Registry
use cs320_cluster_process_ma.Controller.Failures
use cs320_cluster_process_ma.Controller.Views
use cs320_cluster_process_ma.Engine.{Engine}
use cs320_cluster_process_ma.Transport.Answers.{
  Body, Response, respond, decoded, view, answer, write,
}

module _ {F : Type 0} where
  abbrev pub create_node : Option NodeDefinition → Engine F → Response F × Engine F
  create_node body = decoded body λ def. respond 201 Body.node (Registry.register_node def)

  abbrev pub list_nodes : Engine F → Response F × Engine F
  list_nodes = view λ c. write 200 (Body.nodes (Views.nodes c))

  abbrev pub get_node : String → Engine F → Response F × Engine F
  get_node id = view λ c. answer 200 Body.node (Views.node id c)

  abbrev pub delete_node : String → Engine F → Response F × Engine F
  delete_node id = respond 204 (λ _. Body.empty) (Registry.remove_node id)

  abbrev pub change_node_status : String → Option NodeStatus → Engine F → Response F × Engine F
  change_node_status id body =
      decoded body λ status. respond 200 Body.node (Failures.change_node_status id status)

  abbrev pub fail_node : String → Engine F → Response F × Engine F
  fail_node id = respond 200 Body.node (Failures.fail_node id)

  abbrev pub recover_node : String → Engine F → Response F × Engine F
  recover_node id = respond 200 Body.node (Failures.recover_node id)

  abbrev pub heartbeat : String → Engine F → Response F × Engine F
  heartbeat id = respond 204 (λ _. Body.empty) (Failures.heartbeat id)
