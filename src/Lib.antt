-- ===== src/Lib.antt =====
-- A verified model of the Bitcoin client of this repository: a peer-to-peer node that keeps a tree of
-- proof-of-work blocks, a UTXO state per block, and a pool of pending transactions.
--
-- The parts and the files that model them:
--   * Ring.antt: what the code takes from the `ring` crate (SHA-256, Ed25519), as a parameter.
--   * Hash.antt: src/crypto/hash.rs, byte arrays, their order, addresses, the difficulty array.
--   * Merkle.antt: src/crypto/merkle.rs, the tree, the proof of a place, `verify`; Merkle/Centre.antt: where its nodes
--     stand. The floats that place them, and those of the delays, are rounded as in Prelude/Float.antt.
--   * Transaction.antt: src/transaction.rs and the signed transactions of src/helper.rs; `bincode` is a parameter.
--   * Printable.antt: the printable forms of src/block.rs and src/transaction.rs.
--   * Block.antt: src/block.rs, headers, contents and the UTXO transition `try_generate_state`.
--   * Blockchain.antt: src/blockchain.rs, the tree of blocks, the buffer of orphans, the tip.
--   * Mempool.antt: src/mempool.rs, pending transactions and the inputs that they claim.
--   * Peers.antt: src/peers.rs, the known addresses; Message.antt: src/network/message.rs.
--   * Worker.antt: src/network/worker.rs, one step on the node for each message, and a round of its loop from the
--     bytes of the channel on.
--   * Miner.antt: src/miner.rs, the control states, the search for a nonce, a found block; Miner/Mined.antt and
--     Miner/Rounds.antt: what a round of the miner tries, and what it leaves of the node.
--   * Control.antt: the handles of src/miner.rs and src/transaction_generator.rs, and the channels to the threads.
--   * Api.antt: src/api/mod.rs, the HTTP interface, one function per endpoint; Api/Asks.antt: what a request asks.
--   * Helper.antt: src/helper.rs, the builders of blocks and the choice of a destination.
--   * Framing.antt: src/network/peer.rs, length-prefixed messages on a socket; Framing/Pipe.antt: a writer
--     and a reader at the two ends of a connection.
--   * Server.antt: src/network/server.rs, the table of peers, broadcasts, event tokens;
--     Server/Events.antt: its event loop; Server/Relay.antt: the loop with the spreaders.
--   * Account.antt, Generator.antt: src/account.rs, src/transaction_generator.rs, the transactions that a
--     node makes of its coins.
--   * Estimator.antt: src/network/estimator.rs, which peer a transaction is taken to come from.
--   * Node.antt: src/main.rs, one node, with what its threads share; Node/Reach.antt: their steps.
--   * Supernode.antt: src/main.rs, the probes of a supernode; Supernode/Reach.antt: the steps of their workers.
--   * Spread.antt: src/spread.rs, the schedules by which transactions are relayed, and the tasks that
--     fire; Spread/Dandelion.antt: the dandelion spreaders and their routing table; Spread/Spreaders.antt: which
--     spreader a node has; Spread/Delays.antt, Spread/Overflow.antt: what a diffusion asks of the timer.
--
-- A block that a peer sends or that the node mines goes through `insert_with_check` or `insert`, which
-- hang it under its parent or buffer it; the state of the parent decides by `try_generate_state`.
-- A transaction enters the pool by `add_with_check`; a block takes transactions out of it. A worker
-- holds the locks for a whole message, so a message is one step; what it sends is a list of effects.
--
-- A struct is a record, an enum a data type, a `HashMap` an association list with one entry per key
-- (Prelude/Map.antt), `&mut self` a state that is passed and returned. A panic, and the fuel of a
-- loop, are outcomes of `Run` (Prelude/Outcome.antt). `insert` runs on fuel for the depth of the
-- orphans that a block sets free: one more than the number of orphans in the buffer is enough.
-- `missing_parent` runs on fuel too, and needs as much as the longest chain of orphans. A number of
-- w bits keeps its wrap-around (`% 2 ^ w`), and the `i64` balance of a transaction is its bit pattern.
--
-- `WriteContext::write` runs on fuel: a round that does not call the socket is followed by at most one
-- more, so three rounds for each call of the socket, and three, are enough.
--
-- A request to the HTTP interface is a function on the node and the two channels of control signals: it ends in
-- one response or in a panic of its thread. A miner or a generator takes one signal of its channel per turn, and
-- drops the channel when it shuts down.
--
-- The timer panics on a delay that leads out of the range of dates, and so does the page of headers on a timestamp
-- that is out of it: which delays and timestamps make a date is asked of the chrono crate.
--
-- Not modelled: the scheduling of threads (a step is atomic; the generator in fact frees the chain
-- before it takes the pool, and then offers a transaction of an older state), the poll and the sockets
-- (an event carries what they deliver, and a registration with the poll succeeds), the HTTP listener, the command
-- line, the server environment and the random primitives of the tests, the file of the network structure, and
-- logging. A lock is not poisoned by a panic of its holder, the server outlives the miner and the generator, so that
-- their broadcasts do not panic, and `flush` of a socket does not fail. SHA-256, Ed25519, bincode, hex, the
-- format of a date, url, tera, the crossbeam channel, the timer and the f64 of the estimator are parameters, the
-- clock and random numbers arguments.
pub mod Prelude
pub mod Ring
pub mod Hash
pub mod Merkle
pub mod Transaction
pub mod Block
pub mod Blockchain
pub mod Mempool
pub mod Peers
pub mod Message
pub mod Worker
pub mod Miner
pub mod Framing
pub mod Printable
pub mod Spread
pub mod Server
pub mod Account
pub mod Generator
pub mod Control
pub mod Api
pub mod Node
pub mod Helper
pub mod Supernode
pub mod Estimator
pub mod Tests
