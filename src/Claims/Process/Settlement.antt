-- ===== src/Claims/Process/Settlement.antt =====
-- What a finalised claim of a miner writes to the database: `settle_miner` of src/systems/claim_system.rs.
use coal_pool_server.Prelude.{ℕ, ◌≡◌, refl, sym, ◌∙◌, ◌⊎◌, inl, inr, nat_eq, length, subst}
use coal_pool_server.Models.{Pool}
use coal_pool_server.State.{Pubkey}
use coal_pool_server.Database.{granted}
use coal_pool_server.Database.Attempts.{Reaches}
use coal_pool_server.Claims.Ledger.{
  Ledger, Progress, done, panicked, trying, Step, ◌>>=◌, ◌>>◌, unwrap, until_ok, until_found,
  get_miner_by_pubkey_str, get_pool_by_authority_pubkey, decrease_reward, update_pool_claimed,
  add_new_txn, get_txn_by_sig, add_new_claim,
}
use coal_pool_server.Claims.Process.{Accesses, settle_miner}
use coal_pool_server.Claims.Process.Steps.{
  debited, counted, signed, claimed, settled_by, until_ok-cases, until_ok-Reaches,
  until_found-Reaches, until_found-cases, Fits, decrease_reward-eq, update_pool_claimed-eq,
  get_txn_by_sig-eq, bind-done, IsPart, unwrap-granted, unwrap-cases, get_miner_by_pubkey_str-eq,
  get_pool_by_authority_pubkey-eq, bind-panicked, then-cases,
}

-- What is left of a settlement before each of its writes.
module _ (a : Accesses) (wallet : Pubkey) (amount signature miner_id : ℕ) (pool : Pool) where
  abbrev recording : ℕ → Step (Unit {0})
  recording txn_id = until_ok a.claim (
      add_new_claim
        (record { miner_id = miner_id; pool_id = pool.id; txn_id = txn_id; amount = amount }))

  abbrev finding : Step (Unit {0})
  finding = until_found a.txn_id (get_txn_by_sig signature) >>= recording

  abbrev signing : Step (Unit {0})
  signing = until_ok a.txn (add_new_txn signature) >> finding

  abbrev counting : Step (Unit {0})
  counting = until_ok a.claimed (update_pool_claimed wallet amount) >> signing

  abbrev writing : Step (Unit {0})
  writing = until_ok a.decrease (decrease_reward miner_id amount) >> counting

-- A settlement ends with its four writes made, or it stops with a part of them made, in their order.
pub data Outcome (wallet : Pubkey) (miner_id : ℕ) (pool : Pool) (amount signature : ℕ) (l : Ledger)
    : Progress (Unit {0}) × Ledger → Type 0 where
  whole :
      Outcome wallet miner_id pool amount signature l
        (done tt, settled_by wallet miner_id pool amount signature l)
  partial :
      (p : Progress (Unit {0})) (l' : Ledger)
      → ((p ≡ panicked) ⊎ (p ≡ trying))
      → IsPart wallet miner_id pool amount signature l l'
      → Outcome wallet miner_id pool amount signature l (p, l')

module _ (a : Accesses) (wallet miner_pubkey : Pubkey) (amount signature miner_id : ℕ) (pool : Pool)
    (l : Ledger) where
  -- The settlement once its miner is known.
  abbrev knowing : ℕ → Step (Unit {0})
  knowing id =
      unwrap a.pool (get_pool_by_authority_pubkey wallet) >>= writing a wallet amount signature id

  -- The reads are done, and the writes are left.
  settle_miner-writing :
      Fits wallet miner_pubkey amount miner_id pool l
      → unwrap a.account (get_miner_by_pubkey_str miner_pubkey) l ≡ (done miner_id, l)
      → unwrap a.pool (get_pool_by_authority_pubkey wallet) l ≡ (done pool, l)
      → settle_miner a wallet miner_pubkey amount signature l
        ≡ writing a wallet amount signature miner_id pool l
  unfolding settle_miner
  settle_miner-writing fits e1 e2 =
      bind-done (unwrap a.account (get_miner_by_pubkey_str miner_pubkey)) knowing l l miner_id e1
      ∙ bind-done (unwrap a.pool (get_pool_by_authority_pubkey wallet))
          (writing a wallet amount signature miner_id) l l pool e2

  -- If the tables fit the claim and every query gets through at some attempt, the settlement ends
  -- with exactly the four writes: the rows of the miner are debited, the pool's total is raised,
  -- the transaction is recorded, and the claim is recorded under the id of that transaction.
  pub settle_miner-eq :
      Fits wallet miner_pubkey amount miner_id pool l
      → (a.account ≡ granted) × (a.pool ≡ granted)
      → Reaches a.decrease × Reaches a.claimed × Reaches a.txn × Reaches a.txn_id × Reaches a.claim
      → settle_miner a wallet miner_pubkey amount signature l
        ≡ (done tt, settled_by wallet miner_id pool amount signature l)
  unfolding add_new_txn add_new_claim
  settle_miner-eq fits reads reaches =
      let l1 = debited miner_id amount l in
      let l2 = counted wallet pool amount l1 in
      let l3 = signed signature l2 in
      let claim = recording a wallet amount signature miner_id pool in
      settle_miner-writing fits
        (unwrap-granted a.account (get_miner_by_pubkey_str miner_pubkey) l miner_id reads.0
          (get_miner_by_pubkey_str-eq miner_pubkey miner_id l fits.0))
        (unwrap-granted a.pool (get_pool_by_authority_pubkey wallet) l pool reads.1
          (get_pool_by_authority_pubkey-eq wallet pool l fits.1))
      ∙ bind-done (until_ok a.decrease (decrease_reward miner_id amount))
          (λ _. counting a wallet amount signature miner_id pool) l l1 tt
          (until_ok-Reaches a.decrease (decrease_reward miner_id amount) l l1 reaches.0
            (decrease_reward-eq miner_id amount l fits.2))
      ∙ bind-done (until_ok a.claimed (update_pool_claimed wallet amount))
          (λ _. signing a wallet amount signature miner_id pool) l1 l2 tt
          (until_ok-Reaches a.claimed (update_pool_claimed wallet amount) l1 l2 reaches.1
            (update_pool_claimed-eq wallet amount pool l1 fits.1 fits.3))
      ∙ bind-done (until_ok a.txn (add_new_txn signature))
          (λ _. finding a wallet amount signature miner_id pool) l2 l3 tt
          (until_ok-Reaches a.txn (add_new_txn signature) l2 l3 reaches.2 refl)
      ∙ bind-done (until_found a.txn_id (get_txn_by_sig signature)) claim l3 l3 (length l.txns) (
          until_found-Reaches a.txn_id (get_txn_by_sig signature) l3 (length l.txns) reaches.3
            (get_txn_by_sig-eq signature l2))
      ∙ until_ok-Reaches a.claim
          (add_new_claim (record {
            miner_id = miner_id;
            pool_id = pool.id;
            txn_id = length l.txns;
            amount = amount;
          }))
          l3 (claimed miner_id pool.id (length l.txns) amount l3) reaches.4 refl

  writing-Outcome :
      Fits wallet miner_pubkey amount miner_id pool l
      → Outcome wallet miner_id pool amount signature l
          (writing a wallet amount signature miner_id pool l)
  unfolding add_new_txn add_new_claim
  writing-Outcome fits =
      let l1 = debited miner_id amount l in
      let l2 = counted wallet pool amount l1 in
      let l3 = signed signature l2 in
      let l4 = claimed miner_id pool.id (length l.txns) amount l3 in
      let P = Outcome wallet miner_id pool amount signature l in
      let claim = recording a wallet amount signature miner_id pool in
      then-cases P (until_ok a.decrease (decrease_reward miner_id amount))
        (λ _. counting a wallet amount signature miner_id pool) l l1 tt
        (until_ok-cases a.decrease (decrease_reward miner_id amount) l l1
          (decrease_reward-eq miner_id amount l fits.2))
        (partial trying l (inr refl) (inl refl))
        (then-cases P (until_ok a.claimed (update_pool_claimed wallet amount))
          (λ _. signing a wallet amount signature miner_id pool) l1 l2 tt
          (until_ok-cases a.claimed (update_pool_claimed wallet amount) l1 l2
            (update_pool_claimed-eq wallet amount pool l1 fits.1 fits.3))
          (partial trying l1 (inr refl) (inr (inl refl)))
          (then-cases P (until_ok a.txn (add_new_txn signature))
            (λ _. finding a wallet amount signature miner_id pool) l2 l3 tt
            (until_ok-cases a.txn (add_new_txn signature) l2 l3 refl)
            (partial trying l2 (inr refl) (inr (inr (inl refl))))
            (then-cases P (until_found a.txn_id (get_txn_by_sig signature)) claim l3 l3
              (length l.txns)
              (until_found-cases a.txn_id (get_txn_by_sig signature) l3 (length l.txns)
                (get_txn_by_sig-eq signature l2))
              (partial trying l3 (inr refl) (inr (inr (inr refl))))
              (elim (until_ok-cases a.claim
                (add_new_claim (record {
                  miner_id = miner_id;
                  pool_id = pool.id;
                  txn_id = length l.txns;
                  amount = amount;
                }))
                l3 l4 refl) [
                  | inl stuck ↦
                      subst P (sym stuck) (partial trying l3 (inr refl) (inr (inr (inr refl))))
                  | inr over ↦ subst P (sym over) whole
                ]))))

  -- Whatever the queries answer, a settlement whose tables fit the claim either makes the four
  -- writes and is done, or it panics or is still trying with the first few of them made, in their
  -- order.
  pub settle_miner-Outcome :
      Fits wallet miner_pubkey amount miner_id pool l
      → Outcome wallet miner_id pool amount signature l
          (settle_miner a wallet miner_pubkey amount signature l)
  unfolding settle_miner
  settle_miner-Outcome fits =
      let P = Outcome wallet miner_id pool amount signature l in
      let read_miner = unwrap a.account (get_miner_by_pubkey_str miner_pubkey) in
      let read_pool = unwrap a.pool (get_pool_by_authority_pubkey wallet) in
      let stop : P (panicked, l) = partial panicked l (inl refl) (inl refl) in
      elim (unwrap-cases a.account (get_miner_by_pubkey_str miner_pubkey) l miner_id
        (get_miner_by_pubkey_str-eq miner_pubkey miner_id l fits.0)) [
          | inl fails ↦ subst P (sym (bind-panicked read_miner knowing l l fails)) stop
          | inr e1 ↦
              elim (unwrap-cases a.pool (get_pool_by_authority_pubkey wallet) l pool
                (get_pool_by_authority_pubkey-eq wallet pool l fits.1)) [
                  | inl fails ↦
                      subst P
                        (sym (
                          bind-done read_miner knowing l l miner_id e1
                          ∙ bind-panicked read_pool (writing a wallet amount signature miner_id) l l
                              fails))
                        stop
                  | inr e2 ↦ subst P (sym (settle_miner-writing fits e1 e2)) (writing-Outcome fits)
                ]
        ]
