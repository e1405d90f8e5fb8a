-- ===== src/Printable.antt =====
-- The printable forms of src/block.rs and src/transaction.rs, by which the web pages show the node. `hex` and
-- the format of a date are libraries, and parameters.
use Prim.Native.String.{String}
use bitcoin_client_rust.Hash.{H256, H160}
use bitcoin_client_rust.Transaction.{TxInput, TxOutput, SignedTransaction}
use bitcoin_client_rust.Block.{Block, Content, State}
use bitcoin_client_rust.Prelude.{
  ℕ, suc, ◌-◌, ◌≡◌, Option, some, List, [], ◌∷◌, length, if◌then◌else◌, ◌==◌, nat_eq, Run, ok,
  panic, ◌>>=◌, unwrap,
}
pub mod Shown
pub mod Heights

pub record Format : Type 0 where
  pub encode : List ℕ → String  -- hex::encode
  pub date : ℕ → Option String  -- DateTime::<Utc>::from and format, of milliseconds; none where `from` panics

pub record PrintableTxInput : Type 0 where
  pub pre_hash : String
  pub index : ℕ  -- u32

pub record PrintableTxOutput : Type 0 where
  pub rec_address : String
  pub val : ℕ  -- u64

pub record PrintableTransaction : Type 0 where
  pub hash : String
  pub signature : String
  pub public_key : String
  pub inputs : List PrintableTxInput
  pub outputs : List PrintableTxOutput

pub record PrintableBlock : Type 0 where
  pub hash : String
  pub parent_hash : String
  pub index : ℕ
  pub nonce : ℕ
  pub difficulty : String
  pub timestamp : String
  pub merkle_root : String

pub record PrintableContent : Type 0 where
  pub trans : List PrintableTransaction
  pub index : ℕ

pub record PrintableState : Type 0 where
  pub inputs : List PrintableTxInput
  pub outputs : List PrintableTxOutput
  pub pair_num : ℕ

-- The loop of `from_state` over the entries of the state.
unfoldable pub state_inputs : State → List TxInput
state_inputs [] = []
state_inputs ((point, output) ∷ state) =
    record { pre_hash = point.tran_hash; index = point.index } ∷ state_inputs state

unfoldable pub state_outputs : State → List TxOutput
state_outputs [] = []
state_outputs ((point, (val, owner)) ∷ state) =
    record { rec_address = owner; val = val } ∷ state_outputs state

module _ ⦃format : Format⦄ where
  unfoldable pub txinput_to_string_vec : List TxInput → List PrintableTxInput
  txinput_to_string_vec [] = []
  txinput_to_string_vec (i ∷ inputs) =
      record { pre_hash = format.encode i.pre_hash.bytes; index = i.index }
      ∷ txinput_to_string_vec inputs

  unfoldable pub txoutput_to_string_vec : List TxOutput → List PrintableTxOutput
  txoutput_to_string_vec [] = []
  txoutput_to_string_vec (o ∷ outputs) =
      record { rec_address = format.encode o.rec_address.bytes; val = o.val }
      ∷ txoutput_to_string_vec outputs

  -- The body of the loop of `from_signedtx_vec`.
  unfoldable pub from_signedtx : SignedTransaction → PrintableTransaction
  unfolding txinput_to_string_vec txoutput_to_string_vec
  from_signedtx tx = record {
    hash = format.encode tx.hash.bytes;
    signature = format.encode tx.signature;
    public_key = format.encode tx.public_key;
    inputs = txinput_to_string_vec tx.transaction.inputs;
    outputs = txoutput_to_string_vec tx.transaction.outputs;
  }

  unfoldable pub from_signedtx_vec : List SignedTransaction → List PrintableTransaction
  unfolding from_signedtx
  from_signedtx_vec [] = []
  from_signedtx_vec (tx ∷ txs) = from_signedtx tx ∷ from_signedtx_vec txs

  -- The body of the loop of `from_block_vec`, once the timestamp is a date.
  unfoldable pub from_block : String → Block → PrintableBlock
  from_block ts_str b = record {
    hash = format.encode b.hash.bytes;
    parent_hash = format.encode b.header.parent.bytes;
    index = b.index;
    nonce = b.header.nonce;
    difficulty = format.encode b.header.difficulty.bytes;
    timestamp = ts_str;
    merkle_root = format.encode b.header.merkle_root.bytes;
  }

  -- A timestamp that is out of the range of dates panics.
  unfoldable pub from_block_vec : List Block → Run (List PrintableBlock)
  unfolding from_block
  from_block_vec [] = ok []
  from_block_vec (b ∷ blocks) = unwrap (format.date b.header.timestamp) >>= λ ts_str.
      from_block_vec blocks >>= λ pblocks. ok (from_block ts_str b ∷ pblocks)

  -- The loop of `from_content_vec` from the place `index` on, of a chain of `len` contents. The index is below
  -- the length, so `len - 1 - index` does not fall below 0.
  unfoldable pub number_contents : ℕ → ℕ → List Content → List PrintableContent
  unfolding from_signedtx_vec
  number_contents len index [] = []
  number_contents len index (c ∷ contents) =
      record { trans = from_signedtx_vec c.trans; index = len - 1 - index }
      ∷ number_contents len (suc index) contents

  unfoldable pub from_content_vec : List Content → List PrintableContent
  unfolding number_contents
  from_content_vec contents = number_contents (length contents) 0 contents

  -- `PrintableState::from_state`, with its `assert_eq!` on the lengths.
  unfoldable pub from_state : State → Run PrintableState
  unfolding state_inputs state_outputs txinput_to_string_vec txoutput_to_string_vec
  from_state state =
      let pinputs = txinput_to_string_vec (state_inputs state) in
      let poutputs = txoutput_to_string_vec (state_outputs state) in
      if length pinputs == length poutputs
      then ok (record { inputs = pinputs; outputs = poutputs; pair_num = length pinputs })
      else panic
