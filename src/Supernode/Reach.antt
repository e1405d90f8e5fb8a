-- ===== src/Supernode/Reach.antt =====
-- What the workers of a supernode can make of it, and what its HTTP interface answers.
use Prim.Native.String.{String}
use bitcoin_client_rust.Ring.{Ring}
use bitcoin_client_rust.Hash.{H256}
use bitcoin_client_rust.Transaction.{SignedTransaction, Bincode}
use bitcoin_client_rust.Block.{Block}
use bitcoin_client_rust.Blockchain.Waiting.{waiting_count}
use bitcoin_client_rust.Blockchain.Insert.{Extends}
use bitcoin_client_rust.Mempool.{SocketAddr}
use bitcoin_client_rust.Message.{Message, Handle, Effect, blocks}
use bitcoin_client_rust.Worker.{Shared, handle}
use bitcoin_client_rust.Worker.Keeps.{IsNode, NotBlocks, handle-IsNode}
use bitcoin_client_rust.Worker.Blocks.{Falls, Ranked, handle_blocks-IsNode}
use bitcoin_client_rust.Node.Reach.{empty-IsNode, same_end}
use bitcoin_client_rust.Estimator.{Float}
use bitcoin_client_rust.Printable.{Format}
use bitcoin_client_rust.Control.{Crossbeam, IsCrossbeam}
use bitcoin_client_rust.Api.{Web, Api, Response, handle_request}
use bitcoin_client_rust.Api.Asks.{
  IsWeb, Ask, invalid, reads, to_miner, to_generator, ask, Answers, Ends, reads_headers, Shows,
}
use bitcoin_client_rust.Api.Answers.{handle_request-Ends}
use bitcoin_client_rust.Supernode.{Supernode, Probe, run_supernode, nodes_addr, more_addrs, api_of}
use bitcoin_client_rust.Prelude.{
  ℕ, zero, suc, ◌+◌, ◌-◌, ◌%◌, ◌≤◌, ◌<◌, ◌^◌, ◌≡◌, ap, sym, ◌∙◌, some_cancel, inl, inr, some, List,
  In, All, length, get_elem?, Run, ok, panic, Returns, Eq, arith,
}

-- The port of the probe at a place.
abbrev port_at : ℕ → ℕ → ℕ
port_at base k = (base + k % 2 ^ 16) % 2 ^ 16

more_addrs-port :
    (i n j : ℕ) (base a : SocketAddr)
    → get_elem? (more_addrs i n base) j ≡ some a
    → (a.port ≡ port_at base.port (i + j)) × (j < n)
unfolding more_addrs
more_addrs-port i zero j base a e = cc e
more_addrs-port i (suc n) zero base a e =
    let here : i ≡ i + 0 = omega arith in
    (
      ap (λ (x : SocketAddr). x.port) (sym (some_cancel e)) ∙ ap (port_at base.port) here,
      omega arith,
    )
more_addrs-port i (suc n) (suc j) base a e =
    let (port, small) = more_addrs-port (suc i) n j base a e in
    let next : suc i + j ≡ i + suc j = omega arith in
    (port ∙ ap (port_at base.port) next, omega (arith, small))

nodes_addr-port :
    (probe_cnt i : ℕ) (base a : SocketAddr)
    → base.port < 2 ^ 16
    → get_elem? (nodes_addr probe_cnt base) i ≡ some a
    → (a.port ≡ port_at base.port i) × (i < suc (probe_cnt - 1))
unfolding nodes_addr
nodes_addr-port probe_cnt zero base a small e =
    let same = ap (λ (x : SocketAddr). x.port) (sym (some_cancel e)) in
    let kept : base.port ≡ port_at base.port 0 = omega (arith, small) in (same ∙ kept, omega arith)
nodes_addr-port probe_cnt (suc i) base a small e =
    let (port, low) = more_addrs-port 1 (probe_cnt - 1) i base a e in
    let next : 1 + i ≡ suc i = omega arith in
    (port ∙ ap (port_at base.port) next, omega (arith, low))

-- With 2 ^ 16 probes at most, no two probes have one port.
pub nodes_addr-apart :
    (probe_cnt i j : ℕ) (base a b : SocketAddr)
    → base.port < 2 ^ 16
    → probe_cnt ≤ 2 ^ 16
    → get_elem? (nodes_addr probe_cnt base) i ≡ some a
    → get_elem? (nodes_addr probe_cnt base) j ≡ some b
    → a.port ≡ b.port
    → i ≡ j
nodes_addr-apart probe_cnt i j base a b small few e f same =
    let (p, low) = nodes_addr-port probe_cnt i base a small e in
    let (q, high) = nodes_addr-port probe_cnt j base b small f in
    omega (arith, p, q, low, high, same, few, small)

module _ ⦃ring : Ring⦄ ⦃bincode : Bincode⦄ where
  -- The steps: a message that the worker of one of the probes handles. Each is atomic.
  pub data Reach (keys : ℕ → List ℕ) (probe_cnt : ℕ) (addr : SocketAddr) : Supernode → Type 0 where
    starts : Reach keys probe_cnt addr (run_supernode keys probe_cnt addr)
    handles :
        (n : Supernode) (probe : Probe) (s : Shared) (effects : List Effect) (fuel : ℕ)
        (clock : ℕ → ℕ) (m : Message) (peer : Handle)
        → Reach keys probe_cnt addr n
        → In probe n.probes
        → NotBlocks m
        → n.shared.blockchain.max_index < 2 ^ 31
        → handle fuel probe.worker clock m peer n.shared ≡ ok (s, effects)
        → Reach keys probe_cnt addr (record n { shared = s })
    handles_blocks :
        (n : Supernode) (probe : Probe) (s : Shared) (effects : List Effect) (rank : H256 → ℕ)
        (limit : ℕ) (clock : ℕ → ℕ) (bs : List Block) (peer : Handle)
        → Reach keys probe_cnt addr n
        → In probe n.probes
        → Falls rank n.shared.blockchain
        → All (Ranked rank limit) bs
        → waiting_count n.shared.blockchain.orphans_map + length bs ≤ limit
        → handle (suc limit) probe.worker clock (blocks bs) peer n.shared ≡ ok (s, effects)
        → Reach keys probe_cnt addr (record n { shared = s })

  Reach-IsNode :
      (keys : ℕ → List ℕ) (probe_cnt : ℕ) (addr : SocketAddr) (n : Supernode)
      → Reach keys probe_cnt addr n
      → IsNode n.shared
  unfolding run_supernode
  Reach-IsNode keys probe_cnt addr n starts = empty-IsNode
  Reach-IsNode keys probe_cnt addr n
        (handles was probe s effects fuel clock m peer reach runs other small ends) =
      same_end (λ r. IsNode r.0) ends
        (handle-IsNode fuel probe.worker clock m peer was.shared other
          (Reach-IsNode keys probe_cnt addr was reach) small)
  Reach-IsNode keys probe_cnt addr n
        (handles_blocks was probe s effects rank limit clock bs peer reach runs falls ranked enough
          ends) =
      (same_end (λ r. IsNode r.0 × Extends was.shared.blockchain r.0.blockchain) ends
        (handle_blocks-IsNode rank limit probe.worker clock bs peer was.shared
          (Reach-IsNode keys probe_cnt addr was reach) falls ranked enough)).0

module _ (crossbeam : Crossbeam) (float : Float) ⦃ring : Ring⦄ ⦃format : Format⦄ where
  -- A supernode answers what only reads it, or what is no valid request; a request to control panics.
  abbrev pub ReadsOnly :
      Ask → Api crossbeam float → Run (Api crossbeam float × Response crossbeam float) → Type 0
  ReadsOnly invalid before call = Returns call λ r. Answers crossbeam float invalid before r.0 r.1
  ReadsOnly reads before call = Returns call λ r. Answers crossbeam float reads before r.0 r.1
  ReadsOnly reads_headers before call = Shows crossbeam float reads_headers before call
  ReadsOnly (to_miner s) before call = call ≡ panic
  ReadsOnly (to_generator s) before call = call ≡ panic

  module _ ⦃bincode : Bincode⦄ ⦃tran_eq : Eq SignedTransaction⦄ ⦃web : Web⦄ where
    Ends-ReadsOnly :
        (a : Ask) (n : Supernode) (call : Run (Api crossbeam float × Response crossbeam float))
        → IsCrossbeam crossbeam
        → Ends crossbeam float a (api_of crossbeam float n) call
        → ReadsOnly a (api_of crossbeam float n) call
    unfolding api_of
    Ends-ReadsOnly invalid n call law ends = ends
    Ends-ReadsOnly reads n call law ends = ends
    Ends-ReadsOnly reads_headers n call law ends = ends
    Ends-ReadsOnly (to_miner s) n call law (inl (listens, _)) =
        cc (listens, law.hang_up-closed crossbeam.unbounded)
    Ends-ReadsOnly (to_miner s) n call law (inr (gone, panics)) = panics
    Ends-ReadsOnly (to_generator s) n call law (inl (listens, _)) =
        cc (listens, law.hang_up-closed crossbeam.unbounded)
    Ends-ReadsOnly (to_generator s) n call law (inr (gone, panics)) = panics

    -- However the workers of a supernode take turns by the steps of `Reach`, its chain, its pool and its peers stay
    -- valid. While the chain is shorter than 2 ^ 31, with templates that render, each request to its HTTP interface
    -- is answered and changes nothing, but for two kinds: a request that controls the miner or the generator panics,
    -- and so does one for the headers of a chain with a block whose timestamp is out of the range of dates.
    pub Reach-ReadsOnly :
        (keys : ℕ → List ℕ) (probe_cnt : ℕ) (addr : SocketAddr) (n : Supernode) (req_url : String)
        → IsCrossbeam crossbeam
        → IsWeb web
        → Reach keys probe_cnt addr n
        → n.shared.blockchain.max_index < 2 ^ 31
        → IsNode n.shared
          × ReadsOnly
              (ask (web.join req_url))
              (api_of crossbeam float n)
              (handle_request crossbeam float req_url (api_of crossbeam float n))
    unfolding api_of
    Reach-ReadsOnly keys probe_cnt addr n req_url law known reach small =
        let valid = Reach-IsNode keys probe_cnt addr n reach in
        (
          valid,
          Ends-ReadsOnly (ask (web.join req_url)) n
              (handle_request crossbeam float req_url (api_of crossbeam float n)) law
              (handle_request-Ends crossbeam float req_url (api_of crossbeam float n) law known
                (record { chain = valid.chain; small = small })),
        )
