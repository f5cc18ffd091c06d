-- ===== src/Stakes/Unstake/Submissions.antt =====
-- Which requests to the unstake routes of src/main.rs send a transaction to the node.
use Prim.Native.String.{String}
use coal_pool_server.Prelude.{ℕ, ◌≡◌, ◌≢◌, ◌↔◌, inl, inr, Option, none, some, arith, Option-cases}
use coal_pool_server.State.{Pubkey}
use coal_pool_server.Claims.{Response, bad_request, internal_server_error}
use coal_pool_server.Stakes.{
  with_keys, Crates, Node, WalletExtension, Instruction, Transaction, Handled, submits,
  get_delegated_stake_account, get_delegated_boost_account, get_delegated_boost_account_v2, respond,
}
use coal_pool_server.Stakes.Passing.{with_keys_iff}
use coal_pool_server.Stakes.Unstake.Requests.{IsRequestFor, submits-IsBeyond, unstake_iff}
use coal_pool_server.Stakes.Unstake.{
  UnstakeParams, UnstakeBoostParams, submit_and_wait, send_and_confirm, unstake, post_unstake,
  post_unstake_boost, post_unstake_boost_v2,
}

module _ (crates : Crates) (node : Node) (wallet : WalletExtension) where
  open crates use {pubkey_from_str}
  open wallet use {miner_wallet}

  -- The two routes on boosts, over their accounts and instructions.
  boost_iff :
      (accounts : Pubkey → Pubkey → Option ℕ) (refusal : Response)
      (base_ix : Pubkey → Pubkey → Instruction) (params : UnstakeBoostParams) (body : String)
      (signed : Transaction) (r : Option Response)
      → (with_keys crates params.pubkey params.mint (λ user mint.
            unstake crates wallet body
              (accounts user mint)
              refusal
              (base_ix user mint)
              (send_and_confirm node))
          ≡ submits signed r)
        ↔ ((user : Pubkey) × (mint : Pubkey) × (pubkey_from_str params.pubkey ≡ some user)
            × (pubkey_from_str params.mint ≡ some mint)
            × (accounts user mint ≢ none)
            × (r ≡ send_and_confirm node signed)
            × IsRequestFor crates wallet body (base_ix user mint) signed)
  boost_iff accounts refusal base_ix params body signed r =
      let go : Pubkey → Pubkey → Handled = λ (user mint : Pubkey).
        unstake crates wallet body (accounts user mint) refusal (base_ix user mint)
          (send_and_confirm node) in
      let keys =
        with_keys_iff crates params.pubkey params.mint go (submits signed r)
          (submits-IsBeyond signed r) in
      let one = λ (user mint : Pubkey).
        unstake_iff crates wallet body (accounts user mint) refusal (base_ix user mint)
          (send_and_confirm node) signed r in
      (
        λ h.
            let (user, mint, its_user, its_mint, goes) = keys.0 h in
            let (has, answer, request) = (one user mint).0 goes in
            (user, mint, its_user, its_mint, has, answer, request),
        λ (user, mint, its_user, its_mint, has, answer, request).
            keys.1 (user, mint, its_user, its_mint, (one user mint).1 (has, answer, request)),
      )

  -- A request to `post_unstake` makes the server hand a transaction to the node, as `signed` and with
  -- the answer `r`, exactly when its key can be read, the delegated stake account is there, the body is
  -- a transaction of one instruction with the data of `undelegate_stake` for that key and amount,
  -- `signed` is that transaction with the fee wallet's signature, with none missing, and `r` is what
  -- sending it and waiting for it answers. The same holds of the two routes on boosts, with a mint that
  -- can be read, the boost account of the version and its instruction, and the node's own wait.
  pub unstake_routes_iff :
      (stake : UnstakeParams) (boost : UnstakeBoostParams) (body : String) (signed : Transaction)
      (r : Option Response)
      → ((post_unstake crates node wallet stake body ≡ submits signed r) ↔ (
          (user : Pubkey) × (pubkey_from_str stake.pubkey ≡ some user)
          × (get_delegated_stake_account crates node user miner_wallet ≢ none)
          × (r ≡ submit_and_wait node signed)
          × IsRequestFor crates wallet body
              (crates.undelegate_stake user miner_wallet
                (crates.get_associated_token_address user crates.ore_mint)
                stake.amount)
              signed))
        × ((post_unstake_boost crates node wallet boost body ≡ submits signed r) ↔ (
            (user : Pubkey) × (mint : Pubkey) × (pubkey_from_str boost.pubkey ≡ some user)
            × (pubkey_from_str boost.mint ≡ some mint)
            × (get_delegated_boost_account crates node user miner_wallet mint ≢ none)
            × (r ≡ send_and_confirm node signed)
            × IsRequestFor crates wallet body
                (crates.undelegate_boost user miner_wallet mint boost.amount)
                signed))
        × ((post_unstake_boost_v2 crates node wallet boost body ≡ submits signed r) ↔ (
            (user : Pubkey) × (mint : Pubkey) × (pubkey_from_str boost.pubkey ≡ some user)
            × (pubkey_from_str boost.mint ≡ some mint)
            × (get_delegated_boost_account_v2 crates node user miner_wallet mint ≢ none)
            × (r ≡ send_and_confirm node signed)
            × IsRequestFor crates wallet body
                (crates.undelegate_boost_v2 user miner_wallet mint boost.amount)
                signed))
  unfolding post_unstake post_unstake_boost post_unstake_boost_v2
  unstake_routes_iff stake boost body signed r =
      let stake_ix : Pubkey → Instruction = λ (user : Pubkey).
        crates.undelegate_stake user miner_wallet
          (crates.get_associated_token_address user crates.ore_mint) stake.amount in
      let one = λ (user : Pubkey).
        unstake_iff crates wallet body (get_delegated_stake_account crates node user miner_wallet)
          (respond bad_request "No delegate stake account exists") (stake_ix user)
          (submit_and_wait node) signed r in
      (
        (
          λ h. elim (Option-cases (pubkey_from_str stake.pubkey)) [
            | inl no_user ↦ absurd (ground (arith, h, no_user))
            | inr (user, its_user) ↦
                let (has, answer, request) = (one user).0 (ground (arith, h, its_user)) in
                (user, its_user, has, answer, request)
          ],
          λ (user, its_user, has, answer, request).
              let goes = (one user).1 (has, answer, request) in ground (arith, its_user, goes),
        ),
        boost_iff (λ user mint. get_delegated_boost_account crates node user miner_wallet mint)
            (respond internal_server_error "Failed to unstake boost")
            (λ user mint. crates.undelegate_boost user miner_wallet mint boost.amount) boost body
            signed r,
        boost_iff (λ user mint. get_delegated_boost_account_v2 crates node user miner_wallet mint)
            (respond internal_server_error "Failed to unstake boost")
            (λ user mint. crates.undelegate_boost_v2 user miner_wallet mint boost.amount) boost body
            signed r,
      )
