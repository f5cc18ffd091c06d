-- ===== src/Stakes/Migrate/Migrations.antt =====
-- Which requests to `post_migrate_boost_v2` (src/main.rs) send a transaction to the node.
use Prim.Native.String.{String}
use coal_pool_server.Prelude.{
  ℕ, ◌≡◌, ◌≢◌, refl, ap, ◌∙◌, ◌↔◌, ◌⊎◌, inl, inr, Bool, true, false, Option, none, some, List, [],
  ◌∷◌, arith, length,
}
use coal_pool_server.State.{Pubkey}
use coal_pool_server.Claims.{Response}
use coal_pool_server.Stakes.{
  Crates, Node, WalletExtension, Instruction, CompiledInstruction, Transaction, Handled, submits,
  get_delegated_boost_account_v2, matching, with_transaction, sign_and_submit,
}
use coal_pool_server.Stakes.Passing.{
  at_most-IsBeyond, with_transaction-IsBeyond, at_most-eq, with_transaction-eq, with_keys_iff,
}
use coal_pool_server.Stakes.Unstake.{send_and_confirm}
use coal_pool_server.Stakes.Migrate.Steps.{
  IsSignedAs, no_third, no_second, beyond, step_iff, signing_iff,
}
use coal_pool_server.Stakes.Migrate.{
  MigrateBoostParams, migrate_init, migrate_only, migrate, post_migrate_boost_v2,
}

-- The transaction has the instructions that the request asks for: with `init` those that open the
-- account, which is not there yet, and move the boost, else the latter alone, for an account that is
-- there.
abbrev pub IsMigration :
    Bool → Option ℕ → Instruction → Instruction → List CompiledInstruction → Type 0
IsMigration init account init_ix migrate_ix ixs =
    ((init ≡ true)
      × (account ≡ none)
      × ((a : CompiledInstruction) × (b : CompiledInstruction) × (ixs ≡ a ∷ (b ∷ []))
          × (a.bytes ≡ init_ix.bytes)
          × (b.bytes ≡ migrate_ix.bytes)))
    ⊎ ((init ≡ false)
        × (account ≢ none)
        × ((a : CompiledInstruction) × (ixs ≡ a ∷ []) × (a.bytes ≡ migrate_ix.bytes)))

module _ (crates : Crates) (node : Node) (wallet : WalletExtension) (user mint : Pubkey)
    (tx signed : Transaction) (r : Option Response) where
  open wallet use {miner_wallet, fee_wallet}

  -- The transaction is what the request asks for, with its signatures, and the answer is the node's.
  abbrev pub IsSent : Bool → Option ℕ → Type 0
  IsSent init account =
      IsMigration init account (crates.init_delegate_boost_v2 user miner_wallet fee_wallet mint)
        (crates.migrate_boost_to_v2 user miner_wallet mint) tx.instructions
      × IsSignedAs crates wallet tx signed
      × (r ≡ send_and_confirm node signed)

  migrate_init_iff :
      (account : Option ℕ)
      → (migrate_init crates node wallet user mint account tx ≡ submits signed r)
        ↔ IsSent true account
  unfolding migrate_init
  migrate_init_iff (some account) = (
    λ h. absurd (cc h),
    λ (asked, signs, answer). elim asked [
      | inl (on, absent, found) ↦ absurd (cc absent)
      | inr (off, present, found) ↦ absurd (cc off)
    ],
  )
  migrate_init_iff none =
      let finish : List CompiledInstruction → Handled = λ (others : List CompiledInstruction).
        sign_and_submit crates wallet tx (send_and_confirm node) in
      let second : List CompiledInstruction → Handled = λ (rest : List CompiledInstruction).
        matching rest (crates.migrate_boost_to_v2 user miner_wallet mint) finish in
      let first : Handled =
        matching tx.instructions (crates.init_delegate_boost_v2 user miner_wallet fee_wallet mint)
          second in
      (
        λ h.
            let (le, h1) = at_most-IsBeyond (submits signed r) (beyond signed r) 2 tx first h in
            let (a, rest, e, same, h2) =
              (step_iff signed r (crates.init_delegate_boost_v2 user miner_wallet fee_wallet mint)
                  tx.instructions second).0
                h1 in
            let (b, others, e', same', h3) =
              (step_iff signed r (crates.migrate_boost_to_v2 user miner_wallet mint) rest finish).0
                h2 in
            let (signs, answer) =
              (signing_iff crates wallet tx signed (send_and_confirm node) r).0 h3 in
            let both = no_third tx.instructions others a b (e ∙ ap (◌∷◌ a) e') le in
            (inl (refl, refl, (a, b, both, same, same')), signs, answer),
        λ (asked, signs, answer). elim asked [
          | inr (off, present, found) ↦ absurd (cc off)
          | inl (on, absent, (a, b, both, same, same')) ↦
              let size : length tx.instructions ≡ 2 = ap length both in
              let h3 =
                (signing_iff crates wallet tx signed (send_and_confirm node) r).1 (signs, answer) in
              let h2 =
                (step_iff signed r (crates.migrate_boost_to_v2 user miner_wallet mint) (b ∷ [])
                    finish).1
                  (b, [], refl, same', h3) in
              at_most-eq 2 tx first (omega (arith, size))
              ∙ (step_iff signed r (crates.init_delegate_boost_v2 user miner_wallet fee_wallet mint)
                    tx.instructions second).1
                  (a, b ∷ [], both, same, h2)
        ],
      )

  migrate_only_iff :
      (account : Option ℕ)
      → (migrate_only crates node wallet user mint account tx ≡ submits signed r)
        ↔ IsSent false account
  unfolding migrate_only
  migrate_only_iff none = (
    λ h. absurd (cc h),
    λ (asked, signs, answer). elim asked [
      | inl (on, absent, found) ↦ absurd (cc on)
      | inr (off, present, found) ↦ absurd (present refl)
    ],
  )
  migrate_only_iff (some account) =
      let finish : List CompiledInstruction → Handled = λ (others : List CompiledInstruction).
        sign_and_submit crates wallet tx (send_and_confirm node) in
      let first : Handled =
        matching tx.instructions (crates.migrate_boost_to_v2 user miner_wallet mint) finish in
      (
        λ h.
            let (le, h1) = at_most-IsBeyond (submits signed r) (beyond signed r) 1 tx first h in
            let (a, rest, e, same, h2) =
              (step_iff signed r (crates.migrate_boost_to_v2 user miner_wallet mint) tx.instructions
                  finish).0
                h1 in
            let (signs, answer) =
              (signing_iff crates wallet tx signed (send_and_confirm node) r).0 h2 in
            let one = no_second tx.instructions rest a e le in
            (inr (refl, λ absent. cc absent, (a, one, same)), signs, answer),
        λ (asked, signs, answer). elim asked [
          | inl (on, absent, found) ↦ absurd (cc on)
          | inr (off, present, (a, one, same)) ↦
              let size : length tx.instructions ≡ 1 = ap length one in
              let h2 =
                (signing_iff crates wallet tx signed (send_and_confirm node) r).1 (signs, answer) in
              at_most-eq 1 tx first (omega (arith, size))
              ∙ (step_iff signed r (crates.migrate_boost_to_v2 user miner_wallet mint)
                    tx.instructions finish).1
                  (a, [], one, same, h2)
        ],
      )

  migrate_iff :
      (init : Bool)
      → (migrate crates node wallet user mint init tx ≡ submits signed r)
        ↔ IsSent init (get_delegated_boost_account_v2 crates node user miner_wallet mint)
  unfolding migrate
  migrate_iff true =
      migrate_init_iff (get_delegated_boost_account_v2 crates node user miner_wallet mint)
  migrate_iff false =
      migrate_only_iff (get_delegated_boost_account_v2 crates node user miner_wallet mint)

-- A request to `post_migrate_boost_v2` makes the server hand a transaction to the node, as `signed` and
-- with the answer `r`, exactly when its key and its mint can be read, the body is a transaction, whose
-- instructions are, by their data and their number, those that open the boost account of the second
-- version, which is not there yet, and move the boost, if the request asks for `init`, and the latter
-- alone, for an account that is there, if not, `signed` is that transaction with the fee wallet's
-- signature, with none missing, and `r` is the answer for what the node then says.
pub post_migrate_boost_v2_iff :
    (crates : Crates) (node : Node) (wallet : WalletExtension) (params : MigrateBoostParams)
    (body : String) (signed : Transaction) (r : Option Response)
    → (post_migrate_boost_v2 crates node wallet params body ≡ submits signed r) ↔ (
        (user : Pubkey) × (mint : Pubkey) × (crates.pubkey_from_str params.pubkey ≡ some user)
        × (crates.pubkey_from_str params.mint ≡ some mint)
        × ((bytes : List ℕ) × (tx : Transaction) × (crates.decode body ≡ some bytes)
            × (crates.deserialize bytes ≡ some tx)
            × IsSent crates node wallet user mint tx signed r params.init
                (get_delegated_boost_account_v2 crates node user wallet.miner_wallet mint)))
unfolding post_migrate_boost_v2
post_migrate_boost_v2_iff crates node wallet params body signed r =
    let go : Pubkey → Pubkey → Handled = λ (user mint : Pubkey).
      with_transaction crates body (migrate crates node wallet user mint params.init) in
    let keys =
      with_keys_iff crates params.pubkey params.mint go (submits signed r) (beyond signed r) in
    (
      λ h.
          let (user, mint, its_user, its_mint, goes) = keys.0 h in
          elim (with_transaction-IsBeyond (submits signed r) (beyond signed r) crates body
            (migrate crates node wallet user mint params.init) goes) [
              | inl (garbled, e) ↦ absurd (cc e)
              | inr (bytes, tx, decoded, read, goes') ↦
                  let sends =
                    (migrate_iff crates node wallet user mint tx signed r params.init).0 goes' in
                  (user, mint, its_user, its_mint, (bytes, tx, decoded, read, sends))
            ],
      λ (user, mint, its_user, its_mint, (bytes, tx, decoded, read, sends)). keys.1 (
        user,
        mint,
        its_user,
        its_mint,
        with_transaction-eq crates body (migrate crates node wallet user mint params.init) bytes tx
              decoded read
            ∙ (migrate_iff crates node wallet user mint tx signed r params.init).1 sends,
      ),
    )
