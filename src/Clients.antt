-- ===== src/Clients.antt =====
-- The clients' connections: the websocket handlers of src/main.rs, `client_message_handler_system`
-- (src/systems/client_message_handler_system.rs) and `pong_tracking_system`
-- (src/systems/pong_tracking_system.rs).
pub mod Layout
pub mod Parsing
pub mod Entry
pub mod Liveness
pub mod Sockets
mod Tests
use coal_pool_server.Prelude.{
  ℕ, ◌-◌, Bool, true, false, Option, none, some, List, [], ◌∷◌, ◌++◌, take, drop, length,
  if◌then◌else◌, ltb, nat_beq, nat_eq, leb, sub64,
}
use coal_pool_server.Prelude.Bytes.{from_le_bytes, le_bytes}
use coal_pool_server.Prelude.HashMap.{HashMap, contains_key, insert, remove}
use coal_pool_server.State.{
  Pubkey, SocketAddr, ClientVersion, v1, v2, AppClientConnection, AppState, Server, ClientMessage,
  ready, mining, pong, best_solution,
}
use coal_pool_server.Models.{Miner}
use coal_pool_server.Database.{
  AppDatabaseError, failed_to_get_connection_from_pool, failed_to_update_row, failed_to_insert_row,
  interaction_failed, query_failed, Result, ok, err,
}

-- What the server uses of the crates that read signatures and solutions: whether bytes are UTF-8, the
-- signature that they spell, its check against a key and a message, and the solution of a digest and a
-- nonce.
pub record Signing (S : Type 0) : Type 1 where
  pub Signature : Type 0
  pub is_utf8 : List ℕ → Bool
  pub from_str : List ℕ → Option Signature
  pub verify : Signature → Pubkey → List ℕ → Bool
  pub new_solution : List ℕ → List ℕ → S

-- A message of the websocket.
pub data WsMessage : Type 0 where
  text close pong_frame ping_frame : WsMessage
  binary : List ℕ → WsMessage

-- How `process_message` ends: it goes on, having sent a message to the channel or none; it breaks off; or
-- an index is out of range and its task panics.
pub data Handled (S : Type 0) : Type 0 where
  continues : Option (ClientMessage S) → Handled S
  breaks panics : Handled S

-- The bytes of `d` from an index on, as many as asked for.
abbrev pub slice : ℕ → ℕ → List ℕ → List ℕ
slice index n d = take n (drop index d)

module _ {S : Type 0} (signing : Signing S) where
  open signing use {Signature, is_utf8, from_str, verify, new_solution}

  abbrev pub verified : SocketAddr → S → Pubkey → Bool → Handled S
  verified who solution pubkey true = continues (some (best_solution who solution pubkey))
  verified who solution pubkey false = continues none

  abbrev pub signed : SocketAddr → List ℕ → List ℕ → Pubkey → Option Signature → Handled S
  signed who digest nonce pubkey none = continues none
  signed who digest nonce pubkey (some sig) =
      verified who (new_solution digest nonce) pubkey (verify sig pubkey (digest ++ nonce))

  -- A submission: 16 bytes of digest, 8 of nonce, 32 of key, and the text of the signature.
  unfoldable pub process_solution : SocketAddr → List ℕ → Handled S
  process_solution who d =
      if ltb (length d) 57
      then panics
      else if is_utf8 (drop 57 d)
      then signed who (slice 1 16 d) (slice 17 8 d) (from_le_bytes (slice 25 32 d))
          (from_str (drop 57 d))
      else continues none

  unfoldable pub process_binary : SocketAddr → List ℕ → Handled S
  unfolding process_solution
  process_binary who [] = panics
  process_binary who (message_type ∷ rest) =
      if nat_beq message_type 0
      then continues (some (ready who))
      else if nat_beq message_type 1
      then continues (some (mining who))
      else if nat_beq message_type 2
      then process_solution who (message_type ∷ rest)
      else continues none

  unfoldable pub process_message : WsMessage → SocketAddr → Handled S
  unfolding process_binary
  process_message text who = continues none
  process_message (binary d) who = process_binary who d
  process_message close who = breaks
  process_message pong_frame who = continues (some (pong who))
  process_message ping_frame who = continues none

  abbrev pub sent_by : Option (ClientMessage S) → List (ClientMessage S)
  sent_by none = []
  sent_by (some m) = m ∷ []

  abbrev pub then_reads : Handled S → List (ClientMessage S) → List (ClientMessage S)
  then_reads (continues m) rest = sent_by m ++ rest
  then_reads breaks rest = []
  then_reads panics rest = []

  -- What a connection sends to the channel until its stream ends, it is closed, or its task panics.
  unfoldable pub read_messages : SocketAddr → List WsMessage → List (ClientMessage S)
  unfolding process_message
  read_messages who [] = []
  read_messages who (m ∷ ms) = then_reads (process_message m who) (read_messages who ms)

-- A connection is taken in once it could be pinged, unless its address has one already.
unfoldable pub open_socket :
    Bool → SocketAddr → Pubkey → ℕ → ClientVersion → AppState → Option AppState
open_socket pinged who pubkey miner_id version st =
    if pinged
    then (if contains_key who st.sockets
        then none
        else some (record st {
          sockets =
              insert who (record { pubkey = pubkey; miner_id = miner_id; client_version = version })
                st.sockets;
        }))
    else none

unfoldable pub close_socket : SocketAddr → AppState → AppState
close_socket who st = record st { sockets = remove who st.sockets }

-- The sockets whose ping failed are taken off: the answers of one round.
unfoldable pub check_pings : List (SocketAddr × Bool) → AppState → AppState
unfolding close_socket
check_pings [] st = st
check_pings ((who, sent) ∷ rest) st = check_pings rest (if sent then st else close_socket who st)

-- Why a websocket is refused.
pub data Refusal : Type 0 where
  too_old invalid_pubkey not_signed_up server_error not_enabled invalid_signature sig_failed :
      Refusal

pub data Upgrade : Type 0 where
  refused : Refusal → Upgrade
  upgraded : Pubkey → ℕ → ClientVersion → Upgrade

module _ {Sig : Type 0} (verify : Sig → Pubkey → List ℕ → Bool) where
  abbrev pub check_signature : ClientVersion → Pubkey → ℕ → ℕ → Option Sig → Upgrade
  check_signature version pubkey miner_id timestamp none = refused invalid_signature
  check_signature version pubkey miner_id timestamp (some sig) =
      if verify sig pubkey (le_bytes 8 timestamp)
      then upgraded pubkey miner_id version
      else refused sig_failed

  abbrev pub check_miner : ClientVersion → Pubkey → ℕ → Option Sig → Result Miner → Upgrade
  check_miner version pubkey timestamp sig (err query_failed) = refused not_signed_up
  check_miner version pubkey timestamp sig (err interaction_failed) = refused not_signed_up
  check_miner version pubkey timestamp sig (err failed_to_get_connection_from_pool) =
      refused server_error
  check_miner version pubkey timestamp sig (err failed_to_update_row) = refused server_error
  check_miner version pubkey timestamp sig (err failed_to_insert_row) = refused server_error
  check_miner version pubkey timestamp sig (ok miner) =
      if miner.enabled
      then check_signature version pubkey miner.id timestamp sig
      else refused not_enabled

  abbrev pub check_client :
      ClientVersion → ℕ → Option Pubkey → Option Sig → (Pubkey → Result Miner) → Upgrade
  check_client version timestamp none sig find = refused invalid_pubkey
  check_client version timestamp (some pubkey) sig find =
      check_miner version pubkey timestamp sig (find pubkey)

  -- The handlers of the two versions. `user` and `sig` are what the name and the password of the header
  -- spell, and `find` is the look for the miner.
  unfoldable pub ws_handler : ℕ → ℕ → Option Pubkey → Option Sig → (Pubkey → Result Miner) → Upgrade
  ws_handler now timestamp user sig find =
      if leb 30 (sub64 now timestamp)
      then refused too_old
      else check_client v1 timestamp user sig find

  unfoldable pub ws_handler_v2 :
      ℕ → ℕ → Option Pubkey → Option Sig → (Pubkey → Result Miner) → Upgrade
  ws_handler_v2 now timestamp user sig find =
      if leb 30 (sub64 now timestamp)
      then refused too_old
      else check_client v2 timestamp user sig find

module _ {S : Type 0} where
  -- One message of the channel, at a time; the submissions that go on to their handler come with it.
  unfoldable pub handle_client_message :
      ℕ → Server S → ClientMessage S → Server S × List (SocketAddr × S × Pubkey)
  handle_client_message now st (pong addr) = (record st { pongs = insert addr now st.pongs }, [])
  handle_client_message now st (ready addr) =
      (record st { ready_clients = insert addr tt st.ready_clients }, [])
  handle_client_message now st (mining addr) = (st, [])
  handle_client_message now st (best_solution addr solution pubkey) =
      (st, (addr, solution, pubkey) ∷ [])

  -- A client whose pong is old loses its socket and its pong.
  abbrev pub drop_client : SocketAddr → Server S → Server S
  drop_client who st = record st {
    app_state = record st.app_state { sockets = remove who st.app_state.sockets };
    pongs = remove who st.pongs;
  }

  -- A round over a copy of the pongs.
  unfoldable pub track_pongs : ℕ → HashMap SocketAddr ℕ → Server S → Server S
  track_pongs now [] st = st
  track_pongs now ((who, at) ∷ pongs) st =
      track_pongs now pongs (if ltb 90 (now - at) then drop_client who st else st)
