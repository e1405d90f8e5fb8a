-- ===== src/Account.antt =====
-- src/account.rs: the key pair of a node, and the address and port that it goes by.
use bitcoin_client_rust.Ring.{Ring}
use bitcoin_client_rust.Hash.{H160, address_of_digest}
use bitcoin_client_rust.Prelude.{ℕ, List}

pub record Account : Type 0 where
  pub key_pair : List ℕ
  pub addr : H160
  pub port : ℕ  -- u16
  pub pub_key : List ℕ

-- `Account::new`
unfoldable pub new : ⦃ring : Ring⦄ → ℕ → List ℕ → Account
new ⦃ring⦄ port key_pair =
    let pub_key = ring.public_key key_pair in
    record {
      key_pair = key_pair;
      addr = address_of_digest (ring.sha256 pub_key);
      port = port;
      pub_key = pub_key;
    }

unfoldable pub get_pub_key : Account → List ℕ
get_pub_key account = account.pub_key
