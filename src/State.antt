-- ===== src/State.antt =====
-- The shared state of the server's tasks (src/main.rs): the records and enums that the tasks hold
-- behind `Arc<RwLock<_>>` and `Arc<Mutex<_>>`. A socket's sink is not part of the state: what is sent
-- to a client is an output of the handlers. A public key, a challenge and a socket address are the
-- numbers that their bytes spell; `HashSet<T>` is `HashMap<T, ()>`.
use coal_pool_server.Prelude.{ℕ, Bool, Option, List}
use coal_pool_server.Prelude.Int.{ℤ}
use coal_pool_server.Prelude.HashMap.{HashMap}

abbrev pub Pubkey : Type 0
Pubkey = ℕ

abbrev pub SocketAddr : Type 0
SocketAddr = ℕ

abbrev pub Challenge : Type 0
Challenge = ℕ

-- What the server uses of the `drillx` crate: solutions, their difficulty, nonce and verification.
pub record Drillx : Type 1 where
  pub Solution : Type 0
  pub difficulty : Solution → ℕ
  pub nonce : Solution → ℕ
  pub is_valid : Solution → Challenge → Bool

-- The fields that the server reads of the on-chain `Proof` account.
pub record Proof : Type 0 where
  pub challenge : Challenge
  pub last_hash_at : ℤ
  pub balance : ℕ

pub data ClientVersion : Type 0 where
  v1 v2 : ClientVersion

pub record AppClientConnection : Type 0 where
  pub pubkey : Pubkey
  pub miner_id : ℕ
  pub client_version : ClientVersion

pub record AppState : Type 0 where
  pub sockets : HashMap SocketAddr AppClientConnection
  pub paused : Bool

pub record SubmissionWindow : Type 0 where
  pub closed : Bool

pub record InternalMessageSubmission : Type 0 where
  pub miner_id : ℕ
  pub supplied_diff : ℕ
  pub supplied_nonce : ℕ
  pub hashpower : ℕ

pub record BestHash (S : Type 0) : Type 0 where
  pub solution : Option S
  pub difficulty : ℕ

pub record EpochHashes (S : Type 0) : Type 0 where
  pub challenge : Challenge
  pub best_hash : BestHash S
  pub submissions : HashMap Pubkey InternalMessageSubmission

-- `start..end`, without its end.
pub record Range : Type 0 where
  pub start : ℕ
  pub end : ℕ

pub data ClientMessage (S : Type 0) : Type 0 where
  ready : SocketAddr → ClientMessage S
  mining : SocketAddr → ClientMessage S
  pong : SocketAddr → ClientMessage S
  best_solution : SocketAddr → S → Pubkey → ClientMessage S

-- The state that `serve` shares between the tasks. `pongs` holds the second of each client's last
-- pong.
pub record Server (S : Type 0) : Type 0 where
  pub app_state : AppState
  pub proof : Proof
  pub last_challenge : Challenge
  pub epoch_hashes : EpochHashes S
  pub client_nonce_ranges : HashMap Pubkey (List Range)
  pub ready_clients : HashMap SocketAddr (Unit {0})
  pub nonce : ℕ
  pub submission_window : SubmissionWindow
  pub pongs : HashMap SocketAddr ℕ
