-- ===== src/ReadyClients/Frame.antt =====
-- What a round over the ready clients leaves alone.
use coal_pool_server.Prelude.{
  ℕ, ◌≡◌, refl, ◌∙◌, not, List, [], ◌∷◌, Option-cases, inl, inr, if_rule, nat_eq,
}
use coal_pool_server.Prelude.HashMap.{get}
use coal_pool_server.Prelude.Int.{ℤ}
use coal_pool_server.Cutoff.{get_cutoff}
use coal_pool_server.State.{SocketAddr, Challenge, Server}
use coal_pool_server.ReadyClients.{
  Sent, assign, serve_client, serve_clients, should_mine, handle_ready_clients,
}

module _ {S : Type 0} where
  -- The proof, the hashes and the window are the same.
  abbrev pub SameEpoch : Server S → Server S → Type 0
  SameEpoch st st' =
      (st'.proof ≡ st.proof)
      × (st'.epoch_hashes ≡ st.epoch_hashes)
      × (st'.submission_window ≡ st.submission_window)

  serve_client-SameEpoch :
      (st : Server S) (challenge : Challenge) (cutoff : ℤ) (client : SocketAddr)
      → SameEpoch st (serve_client st challenge cutoff client).0
  unfolding serve_client assign
  serve_client-SameEpoch st challenge cutoff client =
      elim (Option-cases (get client st.app_state.sockets)) [
        | inl e ↦ rw (e, serve_client) (refl, refl, refl)
        | inr (sender, e) ↦ rw (e, serve_client) (refl, refl, refl)
      ]

  serve_clients-SameEpoch :
      (st : Server S) (challenge : Challenge) (cutoff : ℤ) (clients : List SocketAddr)
      → SameEpoch st (serve_clients st challenge cutoff clients).0
  unfolding serve_clients
  serve_clients-SameEpoch st challenge cutoff [] = (refl, refl, refl)
  serve_clients-SameEpoch st challenge cutoff (client ∷ clients) =
      let a = serve_client-SameEpoch st challenge cutoff client in
      let b =
        serve_clients-SameEpoch (serve_client st challenge cutoff client).0 challenge cutoff
          clients in
      (b.0 ∙ a.0, b.1 ∙ a.1, b.2 ∙ a.2)

  pub handle_ready_clients-SameEpoch :
      (st : Server S) (now : ℕ) → SameEpoch st (handle_ready_clients st now).0
  unfolding handle_ready_clients
  handle_ready_clients-SameEpoch st now =
      let P = λ (r : Server S × List Sent). SameEpoch st r.0 in
      if_rule P st.app_state.paused (λ paused. (refl, refl, refl))
        λ running.
          if_rule P (not (should_mine st (get_cutoff st.proof 4 now))) (λ idle. (refl, refl, refl))
            λ mine. serve_clients-SameEpoch st _ _ _
