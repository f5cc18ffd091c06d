-- ===== src/Clients/Sockets.antt =====
-- The maps of the sockets and the pongs, under all that the server does to them: the connections of
-- src/main.rs, `client_message_handler_system` and `pong_tracking_system` (src/systems).
use coal_pool_server.Prelude.{
  ℕ, ◌-◌, ◌≡◌, Bool, true, false, some, List, [], ◌∷◌, arith, ltb, nat_eq, if_rule, subst,
}
use coal_pool_server.Prelude.HashMap.{
  HashMap, insert, HasDistinctKeys, remove-HasDistinctKeys, insert-HasDistinctKeys,
}
use coal_pool_server.State.{
  Pubkey, SocketAddr, ClientVersion, AppClientConnection, AppState, Server, ClientMessage, ready,
  mining, pong, best_solution,
}
use coal_pool_server.Clients.{
  open_socket, close_socket, check_pings, handle_client_message, drop_client, track_pongs,
}

open_socket-distinct :
    (pinged : Bool) (who : SocketAddr) (pubkey : Pubkey) (miner_id : ℕ) (version : ClientVersion)
    (st a : AppState)
    → HasDistinctKeys st.sockets
    → open_socket pinged who pubkey miner_id version st ≡ some a
    → HasDistinctKeys a.sockets
unfolding open_socket
open_socket-distinct false who pubkey miner_id version st a d e = absurd (cc e)
open_socket-distinct true who pubkey miner_id version st a d e =
    let its : insert who (record { pubkey = pubkey; miner_id = miner_id; client_version = version })
          st.sockets
        ≡ a.sockets =
      ground (arith, e) in
    subst (λ (m : HashMap SocketAddr AppClientConnection). HasDistinctKeys m) its
      (insert-HasDistinctKeys who _ st.sockets d)

check_pings-distinct :
    (answers : List (SocketAddr × Bool)) (st : AppState)
    → HasDistinctKeys st.sockets
    → HasDistinctKeys (check_pings answers st).sockets
unfolding check_pings close_socket
check_pings-distinct [] st d = d
check_pings-distinct ((who, true) ∷ rest) st d = check_pings-distinct rest st d
check_pings-distinct ((who, false) ∷ rest) st d =
    check_pings-distinct rest (close_socket who st) (remove-HasDistinctKeys who st.sockets d)

module _ {S : Type 0} where
  abbrev with_app_state : Server S → AppState → Server S
  with_app_state st a = record st { app_state = a }

  -- What the tasks of the connections do to the server. A round over the pongs works on an older copy.
  pub data ClientStep : Server S → Server S → Type 0 where
    opens :
        (st : Server S) (a : AppState) (pinged : Bool) (who : SocketAddr) (pubkey : Pubkey)
        (miner_id : ℕ) (version : ClientVersion)
        → open_socket pinged who pubkey miner_id version st.app_state ≡ some a
        → ClientStep st (with_app_state st a)
    ends :
        (st : Server S) (who : SocketAddr)
        → ClientStep st (with_app_state st (close_socket who st.app_state))
    pings :
        (st : Server S) (answers : List (SocketAddr × Bool))
        → ClientStep st (with_app_state st (check_pings answers st.app_state))
    tracks :
        (st : Server S) (now : ℕ) (pongs : HashMap SocketAddr ℕ)
        → ClientStep st (track_pongs now pongs st)
    tells :
        (st : Server S) (now : ℕ) (m : ClientMessage S)
        → ClientStep st (handle_client_message now st m).0

  pub data ClientRun (start : Server S) : Server S → Type 0 where
    begun : ClientRun start start
    goes_on : {s t : Server S} → ClientRun start s → ClientStep s t → ClientRun start t

  -- No address is listed twice.
  abbrev pub IsDistinct : Server S → Type 0
  IsDistinct st =
      HasDistinctKeys st.app_state.sockets
      × HasDistinctKeys st.pongs
      × HasDistinctKeys st.ready_clients

  track_pongs-IsDistinct :
      (now : ℕ) (pongs : HashMap SocketAddr ℕ) (st : Server S)
      → IsDistinct st
      → IsDistinct (track_pongs now pongs st)
  unfolding track_pongs
  track_pongs-IsDistinct now [] st d = d
  track_pongs-IsDistinct now ((who, at) ∷ pongs) st (d, d', d'') =
      if_rule (λ (s : Server S). IsDistinct (track_pongs now pongs s)) (ltb 90 (now - at))
        (λ old. track_pongs-IsDistinct now pongs (drop_client who st) (
          remove-HasDistinctKeys who st.app_state.sockets d,
          remove-HasDistinctKeys who st.pongs d',
          d'',
        ))
        λ young. track_pongs-IsDistinct now pongs st (d, d', d'')

  ClientStep-IsDistinct : {s t : Server S} → ClientStep s t → IsDistinct s → IsDistinct t
  unfolding close_socket handle_client_message
  ClientStep-IsDistinct (opens st a pinged who pubkey miner_id version e) (d, d', d'') =
      (open_socket-distinct pinged who pubkey miner_id version st.app_state a d e, d', d'')
  ClientStep-IsDistinct (ends st who) (d, d', d'') =
      (remove-HasDistinctKeys who st.app_state.sockets d, d', d'')
  ClientStep-IsDistinct (pings st answers) (d, d', d'') =
      (check_pings-distinct answers st.app_state d, d', d'')
  ClientStep-IsDistinct (tracks st now pongs) d = track_pongs-IsDistinct now pongs st d
  ClientStep-IsDistinct (tells st now (pong addr)) (d, d', d'') =
      (d, insert-HasDistinctKeys addr now st.pongs d', d'')
  ClientStep-IsDistinct (tells st now (ready addr)) (d, d', d'') =
      (d, d', insert-HasDistinctKeys addr tt st.ready_clients d'')
  ClientStep-IsDistinct (tells st now (mining addr)) d = d
  ClientStep-IsDistinct (tells st now (best_solution addr solution pubkey)) d = d

  -- If no address is listed twice among the sockets, the pongs and the clients that are ready, then
  -- none is after any connections, ends of connections, rounds of pings and of pongs, and messages.
  pub ClientRun-IsDistinct : {s t : Server S} → IsDistinct s → ClientRun s t → IsDistinct t
  ClientRun-IsDistinct d begun = d
  ClientRun-IsDistinct d (goes_on run step) =
      ClientStep-IsDistinct step (ClientRun-IsDistinct d run)
