-- ===== src/Clients/Liveness.antt =====
-- Which clients lose their socket: `pong_tracking_system` (src/systems/pong_tracking_system.rs), and in
-- src/main.rs the round of pings and the end of a connection.
use coal_pool_server.Prelude.{
  ℕ, ◌-◌, ◌≡◌, ◌≢◌, refl, sym, ap, ◌∙◌, inl, inr, Bool, false, Option, none, some, [], ◌∷◌, arith,
  if◌then◌else◌, ltb, nat_eq, ℕ_discrete, Bool-cases,
}
use coal_pool_server.Prelude.HashMap.{
  HashMap, get, remove, HasDistinctKeys, get-remove_ne, get-remove_self, remove-HasDistinctKeys,
}
use coal_pool_server.State.{SocketAddr, Server}
use coal_pool_server.Clients.{drop_client, track_pongs}

-- The last pong is more than 90 seconds old.
abbrev pub is_old : ℕ → Option ℕ → Bool
is_old now none = false
is_old now (some at) = ltb 90 (now - at)

-- What a round takes off one of the maps.
abbrev sweep : {V : Type 0} → ℕ → HashMap SocketAddr ℕ → HashMap SocketAddr V → HashMap SocketAddr V
sweep now [] m = m
sweep now ((who, at) ∷ pongs) m = sweep now pongs (if ltb 90 (now - at) then remove who m else m)

get-sweep :
    {V : Type 0} (now : ℕ) (who : SocketAddr) (pongs : HashMap SocketAddr ℕ)
    (m : HashMap SocketAddr V)
    → HasDistinctKeys pongs
    → HasDistinctKeys m
    → get who (sweep now pongs m) ≡ (if is_old now (get who pongs) then none else get who m)
get-sweep now who [] m d d' = refl
get-sweep now who ((j, at) ∷ pongs) m (new, d) d' =
    let absent : j ≡ who → get who pongs ≡ none = λ e. ap (λ k. get k pongs) (sym e) ∙ new in
    let gone : j ≡ who → get who (remove j m) ≡ none =
      λ e. ap (λ k. get who (remove k m)) e ∙ get-remove_self who m d' in
    let stays : j ≢ who → get who (remove j m) ≡ get who m = λ e. get-remove_ne who j m e in
    let kept = get-sweep now who pongs m d d' in
    let taken = get-sweep now who pongs (remove j m) d (remove-HasDistinctKeys j m d') in
    elim (ℕ_discrete j who) [
      | yes same ↦ elim (Bool-cases (ltb 90 (now - at))) [
        | inl old ↦ ground (arith, old, same, absent same, gone same, taken)
        | inr young ↦ ground (arith, young, same, absent same, kept)
      ]
      | no other ↦ elim (Bool-cases (ltb 90 (now - at))) [
        | inl old ↦ ground (arith, old, other, stays other, taken)
        | inr young ↦ ground (arith, young, other, kept)
      ]
    ]

module _ {S : Type 0} where
  track_pongs-sweep :
      (now : ℕ) (pongs : HashMap SocketAddr ℕ) (st : Server S)
      → ((track_pongs now pongs st).app_state.sockets ≡ sweep now pongs st.app_state.sockets)
        × ((track_pongs now pongs st).pongs ≡ sweep now pongs st.pongs)
  unfolding track_pongs
  track_pongs-sweep now [] st = (refl, refl)
  track_pongs-sweep now ((who, at) ∷ pongs) st =
      let st' = if ltb 90 (now - at) then drop_client who st else st in
      let (sockets, answers) = track_pongs-sweep now pongs st' in
      let same : (st'.app_state.sockets
            ≡ (if ltb 90 (now - at) then remove who st.app_state.sockets else st.app_state.sockets))
          × (st'.pongs ≡ (if ltb 90 (now - at) then remove who st.pongs else st.pongs)) =
        elim (Bool-cases (ltb 90 (now - at))) [
          | inl old ↦ rw old (refl, refl)
          | inr young ↦ rw young (refl, refl)
        ] in
      (sockets ∙ ap (sweep now pongs) same.0, answers ∙ ap (sweep now pongs) same.1)

  -- After a round in which the pongs have not changed, a client whose last pong is more than 90 seconds
  -- old has neither a socket nor a pong, and every other one, also one that has sent no pong yet, has what
  -- it had, provided that no address is listed twice.
  pub track_pongs_lem :
      (now : ℕ) (who : SocketAddr) (st : Server S)
      → HasDistinctKeys st.pongs
      → HasDistinctKeys st.app_state.sockets
      → (get who (track_pongs now st.pongs st).app_state.sockets
          ≡ (if is_old now (get who st.pongs) then none else get who st.app_state.sockets))
        × (get who (track_pongs now st.pongs st).pongs
            ≡ (if is_old now (get who st.pongs) then none else get who st.pongs))
  track_pongs_lem now who st d d' =
      let (sockets, answers) = track_pongs-sweep now st.pongs st in
      (
        ap (get who) sockets ∙ get-sweep now who st.pongs st.app_state.sockets d d',
        ap (get who) answers ∙ get-sweep now who st.pongs st.pongs d d,
      )
