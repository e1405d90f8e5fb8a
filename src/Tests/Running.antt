-- ===== src/Tests/Running.antt =====
-- A node that answers a ping, whose spreader then begins a new epoch.
use bitcoin_client_rust.Tests.Toy.{toy_ring, toy_bincode, key}
use bitcoin_client_rust.Tests.Nodes.{somewhere}
use bitcoin_client_rust.Blockchain
use bitcoin_client_rust.Message.{ping, pong, write}
use bitcoin_client_rust.Spread.{dandelion_reset_epoch, run_task}
use bitcoin_client_rust.Worker.{handle}
use bitcoin_client_rust.Worker.Keeps.{IsNode}
use bitcoin_client_rust.Node.{Node, start_node, spreading_of, after_spreader}
use bitcoin_client_rust.Node.Reach.{Reach, starts, handles, relays, Reach-IsNode}
use bitcoin_client_rust.Prelude.{refl, [], ◌∷◌, false, arith}

abbrev started : Node
started = start_node 8081 key false

abbrev renewed : Node
renewed = after_spreader (run_task 5 dandelion_reset_epoch (spreading_of started)).0 started

renewed-Reach : Reach 8081 key false renewed
unfolding handle start_node Blockchain.new
renewed-Reach = relays started 5 dandelion_reset_epoch (
    handles started started.shared (write somewhere (pong (3 ∷ [])) ∷ []) 1 (λ i. i) (ping (3 ∷ []))
      somewhere starts tt (omega arith) refl)

Reach-IsNode_example : IsNode renewed.shared
Reach-IsNode_example = Reach-IsNode 8081 key false renewed renewed-Reach
