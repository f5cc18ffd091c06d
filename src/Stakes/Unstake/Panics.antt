-- ===== src/Stakes/Unstake/Panics.antt =====
-- Which requests to the unstake routes of src/main.rs panic.
use Prim.Native.String.{String}
use coal_pool_server.Prelude.{
  ℕ, ◌≡◌, ◌≢◌, ◌↔◌, ◌⊎◌, inl, inr, Option, none, some, arith, Option-cases,
}
use coal_pool_server.State.{Pubkey}
use coal_pool_server.Claims.{Response, bad_request, internal_server_error}
use coal_pool_server.Stakes.{
  with_keys, Crates, Node, WalletExtension, Instruction, Handled, panics,
  get_delegated_stake_account, get_delegated_boost_account, get_delegated_boost_account_v2, respond,
}
use coal_pool_server.Stakes.Passing.{with_keys_iff}
use coal_pool_server.Stakes.Unstake.Requests.{
  IsEmptyRequest, IsUnsignableRequest, panics-IsBeyond, unstake_panics_iff,
}
use coal_pool_server.Stakes.Unstake.{
  UnstakeParams, UnstakeBoostParams, submit_and_wait, send_and_confirm, unstake, post_unstake,
  post_unstake_boost, post_unstake_boost_v2,
}

module _ (crates : Crates) (node : Node) (wallet : WalletExtension) where
  open crates use {pubkey_from_str}
  open wallet use {miner_wallet}

  -- The body is a transaction with no instruction, or one that passes the check and cannot be signed.
  abbrev pub Stuck : String → Instruction → Type 0
  Stuck body base_ix = IsEmptyRequest crates body ⊎ IsUnsignableRequest crates wallet body base_ix

  boost_panics_iff :
      (accounts : Pubkey → Pubkey → Option ℕ) (refusal : Response)
      (base_ix : Pubkey → Pubkey → Instruction) (params : UnstakeBoostParams) (body : String)
      → (with_keys crates params.pubkey params.mint (λ user mint.
            unstake crates wallet body
              (accounts user mint)
              refusal
              (base_ix user mint)
              (send_and_confirm node))
          ≡ panics)
        ↔ ((user : Pubkey) × (mint : Pubkey) × (pubkey_from_str params.pubkey ≡ some user)
            × (pubkey_from_str params.mint ≡ some mint)
            × ((crates.decode body ≡ none)
                ⊎ ((accounts user mint ≢ none) × Stuck body (base_ix user mint))))
  boost_panics_iff accounts refusal base_ix params body =
      let go : Pubkey → Pubkey → Handled = λ (user mint : Pubkey).
        unstake crates wallet body (accounts user mint) refusal (base_ix user mint)
          (send_and_confirm node) in
      let keys = with_keys_iff crates params.pubkey params.mint go panics panics-IsBeyond in
      let one = λ (user mint : Pubkey).
        unstake_panics_iff crates wallet body (accounts user mint) refusal (base_ix user mint)
          (send_and_confirm node) in
      (
        λ h.
            let (user, mint, its_user, its_mint, goes) = keys.0 h in
            (user, mint, its_user, its_mint, (one user mint).0 goes),
        λ (user, mint, its_user, its_mint, cause).
            keys.1 (user, mint, its_user, its_mint, (one user mint).1 cause),
      )

  -- A request to an unstake route whose keys can be read panics the handler exactly when its body is not
  -- base64, or the delegated account is there and the body is either a transaction with no instruction, or
  -- one with the route's instruction on which the signing for the fee wallet panics; with a key that cannot
  -- be read it never does.
  pub unstake_routes_panic_iff :
      (stake : UnstakeParams) (boost : UnstakeBoostParams) (body : String)
      → ((post_unstake crates node wallet stake body ≡ panics) ↔ (
          (user : Pubkey) × (pubkey_from_str stake.pubkey ≡ some user)
          × ((crates.decode body ≡ none)
              ⊎ ((get_delegated_stake_account crates node user miner_wallet ≢ none)
                  × Stuck body (
                      crates.undelegate_stake user miner_wallet
                        (crates.get_associated_token_address user crates.ore_mint)
                        stake.amount)))))
        × ((post_unstake_boost crates node wallet boost body ≡ panics) ↔ (
            (user : Pubkey) × (mint : Pubkey) × (pubkey_from_str boost.pubkey ≡ some user)
            × (pubkey_from_str boost.mint ≡ some mint)
            × ((crates.decode body ≡ none)
                ⊎ ((get_delegated_boost_account crates node user miner_wallet mint ≢ none)
                    × Stuck body (crates.undelegate_boost user miner_wallet mint boost.amount)))))
        × ((post_unstake_boost_v2 crates node wallet boost body ≡ panics) ↔ (
            (user : Pubkey) × (mint : Pubkey) × (pubkey_from_str boost.pubkey ≡ some user)
            × (pubkey_from_str boost.mint ≡ some mint)
            × ((crates.decode body ≡ none)
                ⊎ ((get_delegated_boost_account_v2 crates node user miner_wallet mint ≢ none)
                    × Stuck body
                        (crates.undelegate_boost_v2 user miner_wallet mint boost.amount)))))
  unfolding post_unstake post_unstake_boost post_unstake_boost_v2
  unstake_routes_panic_iff stake boost body =
      let one = λ (user : Pubkey).
        unstake_panics_iff crates wallet body
          (get_delegated_stake_account crates node user miner_wallet)
          (respond bad_request "No delegate stake account exists")
          (crates.undelegate_stake user miner_wallet
            (crates.get_associated_token_address user crates.ore_mint) stake.amount)
          (submit_and_wait node) in
      (
        (
          λ h. elim (Option-cases (pubkey_from_str stake.pubkey)) [
            | inl no_user ↦ absurd (ground (arith, h, no_user))
            | inr (user, its_user) ↦ (user, its_user, (one user).0 (ground (arith, h, its_user)))
          ],
          λ (user, its_user, cause).
              let goes = (one user).1 cause in ground (arith, its_user, goes),
        ),
        boost_panics_iff
            (λ user mint. get_delegated_boost_account crates node user miner_wallet mint)
            (respond internal_server_error "Failed to unstake boost")
            (λ user mint. crates.undelegate_boost user miner_wallet mint boost.amount) boost body,
        boost_panics_iff
            (λ user mint. get_delegated_boost_account_v2 crates node user miner_wallet mint)
            (respond internal_server_error "Failed to unstake boost")
            (λ user mint. crates.undelegate_boost_v2 user miner_wallet mint boost.amount) boost
            body,
      )
