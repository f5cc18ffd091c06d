-- ===== src/Claims/Process/StakerSettlement.antt =====
-- What a finalised claim of a staker writes to the database: `settle_staker` of src/systems/claim_system.rs.
use coal_pool_server.Prelude.{
  ℕ, ◌+◌, ◌-◌, ◌≤◌, ◌<◌, ◌≡◌, refl, sym, ◌∙◌, ◌⊎◌, inl, inr, some, List, [], ◌∷◌, map, arith,
  if◌then◌else◌, u64_mod, nat_eq, nat_beq, nat_beq_iff, All, subst, Bool-cases,
}
use coal_pool_server.Prelude.HashMap.{get}
use coal_pool_server.Models.{Pool, StakeAccount}
use coal_pool_server.State.{Pubkey}
use coal_pool_server.Database.{ok, granted, for_rows}
use coal_pool_server.Database.Attempts.{Reaches}
use coal_pool_server.Claims.Ledger.{
  Ledger, Progress, done, panicked, trying, Step, ◌>>=◌, ◌>>◌, unwrap, until_ok,
  get_stake_account_for_staker, get_pool_by_authority_pubkey, decrease_stake_row,
  decrease_stakers_rewards, update_pool_claimed, add_new_txn, find_pool_stake,
}
use coal_pool_server.Claims.Process.{Accesses, settle_staker}
use coal_pool_server.Claims.Process.Steps.{
  counted, signed, until_ok-cases, until_ok-Reaches, update_pool_claimed-eq, bind-done,
  unwrap-granted, unwrap-cases, get_pool_by_authority_pubkey-eq, bind-panicked, then-cases,
}

-- The account without what was claimed.
abbrev pub debit_stake : ℕ → ℕ → StakeAccount → StakeAccount
debit_stake id amount row =
    if nat_beq row.id id then record row { rewards_balance = row.rewards_balance - amount } else row

abbrev pub CoversStake : ℕ → ℕ → StakeAccount → Type 0
CoversStake id amount row = row.id ≡ id → amount ≤ row.rewards_balance

decrease_stake_row-eq :
    (id amount : ℕ) (row : StakeAccount)
    → CoversStake id amount row
    → decrease_stake_row id amount row ≡ ok (debit_stake id amount row)
unfolding decrease_stake_row
decrease_stake_row-eq id amount row covers = elim (Bool-cases (nat_beq row.id id)) [
  | inl hit ↦
      let enough : amount ≤ row.rewards_balance = covers ((nat_beq_iff row.id id).0 hit) in
      ground (arith, hit, enough)
  | inr miss ↦ rw miss
]

for_rows-debit_stake :
    (id amount : ℕ) (rows : List StakeAccount)
    → All (CoversStake id amount) rows
    → for_rows (decrease_stake_row id amount) rows ≡ ok (map (debit_stake id amount) rows)
for_rows-debit_stake id amount [] h = refl
for_rows-debit_stake id amount (row ∷ rows) h =
    rw (for_rows, decrease_stake_row-eq id amount row h.0, for_rows-debit_stake id amount rows h.1)

abbrev pub debited_stake : ℕ → ℕ → Ledger → Ledger
debited_stake id amount l = record l {
  stake_accounts = map (debit_stake id amount) l.stake_accounts;
}

decrease_stakers_rewards-eq :
    (id amount : ℕ) (l : Ledger)
    → All (CoversStake id amount) l.stake_accounts
    → decrease_stakers_rewards id amount l ≡ ok (debited_stake id amount l)
unfolding decrease_stakers_rewards
decrease_stakers_rewards-eq id amount l h = rw (for_rows-debit_stake id amount l.stake_accounts h)

-- The three writes in the order in which they are made.
abbrev pub staker_settled : Pubkey → ℕ → Pool → ℕ → ℕ → Ledger → Ledger
staker_settled wallet id pool amount signature l =
    signed signature (counted wallet pool amount (debited_stake id amount l))

-- The tables fit a claim: the pool and the staker's account in it are known, the account covers the
-- amount and the total of the pool has room for it.
abbrev pub FitsStaker : Pubkey → Pubkey → Pubkey → ℕ → StakeAccount → Pool → Ledger → Type 0
FitsStaker wallet staker mint amount account pool l =
    (get wallet l.pools ≡ some pool)
    × (find_pool_stake pool.id staker mint l.stake_accounts ≡ some account)
    × All (CoversStake account.id amount) l.stake_accounts
    × (pool.claimed_rewards + amount < u64_mod)

-- A settlement ends with its three writes made, or it stops with a part of them made, in their order.
pub data StakerOutcome (wallet : Pubkey) (id : ℕ) (pool : Pool) (amount signature : ℕ) (l : Ledger)
    : Progress (Unit {0}) × Ledger → Type 0 where
  whole :
      StakerOutcome wallet id pool amount signature l
        (done tt, staker_settled wallet id pool amount signature l)
  partial :
      (p : Progress (Unit {0})) (l' : Ledger)
      → ((p ≡ panicked) ⊎ (p ≡ trying))
      → ((l' ≡ l)
          ⊎ ((l' ≡ debited_stake id amount l)
              ⊎ (l' ≡ counted wallet pool amount (debited_stake id amount l))))
      → StakerOutcome wallet id pool amount signature l (p, l')

module _ (a : Accesses) (wallet staker mint : Pubkey) (amount signature : ℕ)
    (account : StakeAccount) (pool : Pool) (l : Ledger) where
  -- What is left of a settlement before each of its reads and writes.
  abbrev signing : Step (Unit {0})
  signing = until_ok a.txn (add_new_txn signature)

  abbrev counting : Step (Unit {0})
  counting = until_ok a.claimed (update_pool_claimed wallet amount) >> signing

  abbrev writing : StakeAccount → Step (Unit {0})
  writing found = until_ok a.decrease (decrease_stakers_rewards found.id amount) >> counting

  abbrev knowing : Pool → Step (Unit {0})
  knowing db_pool =
      unwrap a.account (get_stake_account_for_staker db_pool.id staker mint) >>= writing

  known_stake :
      FitsStaker wallet staker mint amount account pool l
      → get_stake_account_for_staker pool.id staker mint l ≡ ok account
  unfolding get_stake_account_for_staker
  known_stake fits = rw (fits.1)

  settle_staker-writing :
      unwrap a.pool (get_pool_by_authority_pubkey wallet) l ≡ (done pool, l)
      → unwrap a.account (get_stake_account_for_staker pool.id staker mint) l ≡ (done account, l)
      → settle_staker a wallet staker mint amount signature l ≡ writing account l
  unfolding settle_staker
  settle_staker-writing e1 e2 =
      bind-done (unwrap a.pool (get_pool_by_authority_pubkey wallet)) knowing l l pool e1
      ∙ bind-done (unwrap a.account (get_stake_account_for_staker pool.id staker mint)) writing l l
          account e2

  -- If the reads and some attempt of each write get through, all three writes are made.
  pub settle_staker-whole :
      FitsStaker wallet staker mint amount account pool l
      → (a.account ≡ granted) × (a.pool ≡ granted)
      → Reaches a.decrease × Reaches a.claimed × Reaches a.txn
      → settle_staker a wallet staker mint amount signature l
        ≡ (done tt, staker_settled wallet account.id pool amount signature l)
  unfolding add_new_txn
  settle_staker-whole fits reads reaches =
      let l1 = debited_stake account.id amount l in
      let l2 = counted wallet pool amount l1 in
      settle_staker-writing
        (unwrap-granted a.pool (get_pool_by_authority_pubkey wallet) l pool reads.1
          (get_pool_by_authority_pubkey-eq wallet pool l fits.0))
        (unwrap-granted a.account (get_stake_account_for_staker pool.id staker mint) l account
          reads.0 (known_stake fits))
      ∙ bind-done (until_ok a.decrease (decrease_stakers_rewards account.id amount)) (λ _. counting)
          l l1 tt
          (until_ok-Reaches a.decrease (decrease_stakers_rewards account.id amount) l l1 reaches.0
            (decrease_stakers_rewards-eq account.id amount l fits.2))
      ∙ bind-done (until_ok a.claimed (update_pool_claimed wallet amount)) (λ _. signing) l1 l2 tt
          (until_ok-Reaches a.claimed (update_pool_claimed wallet amount) l1 l2 reaches.1
            (update_pool_claimed-eq wallet amount pool l1 fits.0 fits.3))
      ∙ until_ok-Reaches a.txn (add_new_txn signature) l2 (signed signature l2) reaches.2 refl

  writing-StakerOutcome :
      FitsStaker wallet staker mint amount account pool l
      → StakerOutcome wallet account.id pool amount signature l (writing account l)
  unfolding add_new_txn
  writing-StakerOutcome fits =
      let l1 = debited_stake account.id amount l in
      let l2 = counted wallet pool amount l1 in
      let P = StakerOutcome wallet account.id pool amount signature l in
      then-cases P (until_ok a.decrease (decrease_stakers_rewards account.id amount))
        (λ _. counting) l l1 tt
        (until_ok-cases a.decrease (decrease_stakers_rewards account.id amount) l l1
          (decrease_stakers_rewards-eq account.id amount l fits.2))
        (partial trying l (inr refl) (inl refl))
        (then-cases P (until_ok a.claimed (update_pool_claimed wallet amount)) (λ _. signing) l1 l2
          tt
          (until_ok-cases a.claimed (update_pool_claimed wallet amount) l1 l2
            (update_pool_claimed-eq wallet amount pool l1 fits.0 fits.3))
          (partial trying l1 (inr refl) (inr (inl refl)))
          (elim (until_ok-cases a.txn (add_new_txn signature) l2 (signed signature l2) refl) [
            | inl stuck ↦ subst P (sym stuck) (partial trying l2 (inr refl) (inr (inr refl)))
            | inr over ↦ subst P (sym over) whole
          ]))

  -- If the tables fit the claim of a staker, whatever the queries answer, the settlement either makes
  -- its three writes and is done, or it panics or is still trying with the first few of them made, in
  -- their order.
  pub settle_staker-Outcome :
      FitsStaker wallet staker mint amount account pool l
      → StakerOutcome wallet account.id pool amount signature l
          (settle_staker a wallet staker mint amount signature l)
  unfolding settle_staker
  settle_staker-Outcome fits =
      let P = StakerOutcome wallet account.id pool amount signature l in
      let read_pool = unwrap a.pool (get_pool_by_authority_pubkey wallet) in
      let read_account = unwrap a.account (get_stake_account_for_staker pool.id staker mint) in
      let stop : P (panicked, l) = partial panicked l (inl refl) (inl refl) in
      elim (unwrap-cases a.pool (get_pool_by_authority_pubkey wallet) l pool
        (get_pool_by_authority_pubkey-eq wallet pool l fits.0)) [
          | inl fails ↦ subst P (sym (bind-panicked read_pool knowing l l fails)) stop
          | inr e1 ↦
              elim (unwrap-cases a.account (get_stake_account_for_staker pool.id staker mint) l
                account (known_stake fits)) [
                  | inl fails ↦
                      subst P
                        (sym (
                          bind-done read_pool knowing l l pool e1
                          ∙ bind-panicked read_account writing l l fails))
                        stop
                  | inr e2 ↦
                      subst P (sym (settle_staker-writing e1 e2)) (writing-StakerOutcome fits)
                ]
        ]
