-- ===== src/Claims/Process/Steps.antt =====
-- The writes of a settlement, and how steps that read and write the tables follow one another.
use coal_pool_server.Prelude.{
  ℕ, ◌+◌, ◌-◌, ◌≤◌, ◌<◌, ◌≡◌, refl, sym, ap, ◌⊎◌, inl, inr, true, some, List, [], ◌∷◌, map, arith,
  if◌then◌else◌, ltb, u64_mod, nat_eq, nat_beq, nat_beq_iff, length, All, subst, Bool-cases,
}
use coal_pool_server.Prelude.HashMap.{get, insert}
use coal_pool_server.Models.{Reward, Pool}
use coal_pool_server.State.{Pubkey}
use coal_pool_server.Database.{
  Result, ok, Access, granted, no_connection, broken, for_rows, decrease_row, decrease_miner_reward,
}
use coal_pool_server.Database.Attempts.{Reaches}
use coal_pool_server.Claims.Ledger.{
  Ledger, Progress, done, panicked, trying, Step, ◌>>=◌, unwrap, until_ok, until_found,
  get_miner_by_pubkey_str, get_pool_by_authority_pubkey, decrease_reward, update_pool_claimed,
  get_txn_by_sig, find_txn,
}

-- A row without what was claimed.
abbrev pub debit : ℕ → ℕ → Reward → Reward
debit miner_id amount row =
    if nat_beq row.miner_id miner_id then record row { balance = row.balance - amount } else row

-- A row of the miner has the amount.
abbrev pub Covers : ℕ → ℕ → Reward → Type 0
Covers miner_id amount row = row.miner_id ≡ miner_id → amount ≤ row.balance

pub decrease_row-eq :
    (miner_id amount : ℕ) (row : Reward)
    → Covers miner_id amount row
    → decrease_row miner_id amount row ≡ ok (debit miner_id amount row)
unfolding decrease_row
decrease_row-eq miner_id amount row covers = elim (Bool-cases (nat_beq row.miner_id miner_id)) [
  | inl hit ↦
      let enough : amount ≤ row.balance = covers ((nat_beq_iff row.miner_id miner_id).0 hit) in
      ground (arith, hit, enough)
  | inr miss ↦ rw miss
]

pub for_rows-debit :
    (miner_id amount : ℕ) (rows : List Reward)
    → All (Covers miner_id amount) rows
    → for_rows (decrease_row miner_id amount) rows ≡ ok (map (debit miner_id amount) rows)
for_rows-debit miner_id amount [] h = refl
for_rows-debit miner_id amount (row ∷ rows) h =
    rw (for_rows, decrease_row-eq miner_id amount row h.0, for_rows-debit miner_id amount rows h.1)

-- The tables after each of the four writes of a settlement.
abbrev pub debited : ℕ → ℕ → Ledger → Ledger
debited miner_id amount l = record l { rewards = map (debit miner_id amount) l.rewards }

abbrev pub counted : Pubkey → Pool → ℕ → Ledger → Ledger
counted wallet pool amount l = record l {
  pools = insert wallet (record pool { claimed_rewards = pool.claimed_rewards + amount }) l.pools;
}

abbrev pub signed : ℕ → Ledger → Ledger
signed signature l = record l { txns = signature ∷ l.txns }

abbrev pub claimed : ℕ → ℕ → ℕ → ℕ → Ledger → Ledger
claimed miner_id pool_id txn_id amount l = record l {
  claims =
      record { miner_id = miner_id; pool_id = pool_id; txn_id = txn_id; amount = amount }
      ∷ l.claims;
}

-- The four writes in the order in which they are made.
abbrev pub settled_by : Pubkey → ℕ → Pool → ℕ → ℕ → Ledger → Ledger
settled_by wallet miner_id pool amount signature l =
    claimed miner_id pool.id (length l.txns) amount
      (signed signature (counted wallet pool amount (debited miner_id amount l)))

-- A retried write either goes through or is still tried, with the tables as they were.
pub until_ok-cases :
    (accesses : List Access) (update : Ledger → Result Ledger) (l l' : Ledger)
    → update l ≡ ok l'
    → (until_ok accesses update l ≡ (trying, l)) ⊎ (until_ok accesses update l ≡ (done tt, l'))
until_ok-cases [] update l l' e = inl refl
until_ok-cases (granted ∷ rest) update l l' e = inr (rw (until_ok, e))
until_ok-cases (no_connection ∷ rest) update l l' e = until_ok-cases rest update l l' e
until_ok-cases (broken ∷ rest) update l l' e = until_ok-cases rest update l l' e

pub until_ok-Reaches :
    (accesses : List Access) (update : Ledger → Result Ledger) (l l' : Ledger)
    → Reaches accesses
    → update l ≡ ok l'
    → until_ok accesses update l ≡ (done tt, l')
until_ok-Reaches [] update l l' reaches e = absurd reaches
until_ok-Reaches (granted ∷ rest) update l l' reaches e = rw (until_ok, e)
until_ok-Reaches (no_connection ∷ rest) update l l' reaches e =
    until_ok-Reaches rest update l l' reaches e
until_ok-Reaches (broken ∷ rest) update l l' reaches e = until_ok-Reaches rest update l l' reaches e

pub until_found-Reaches :
    {A : Type 0} (accesses : List Access) (query : Ledger → Result A) (l : Ledger) (x : A)
    → Reaches accesses
    → query l ≡ ok x
    → until_found accesses query l ≡ (done x, l)
until_found-Reaches [] query l x reaches e = absurd reaches
until_found-Reaches (granted ∷ rest) query l x reaches e = rw (until_found, e)
until_found-Reaches (no_connection ∷ rest) query l x reaches e =
    until_found-Reaches rest query l x reaches e
until_found-Reaches (broken ∷ rest) query l x reaches e =
    until_found-Reaches rest query l x reaches e

pub until_found-cases :
    {A : Type 0} (accesses : List Access) (query : Ledger → Result A) (l : Ledger) (x : A)
    → query l ≡ ok x
    → (until_found accesses query l ≡ (trying, l)) ⊎ (until_found accesses query l ≡ (done x, l))
until_found-cases [] query l x e = inl refl
until_found-cases (granted ∷ rest) query l x e = inr (rw (until_found, e))
until_found-cases (no_connection ∷ rest) query l x e = until_found-cases rest query l x e
until_found-cases (broken ∷ rest) query l x e = until_found-cases rest query l x e

-- The tables fit a claim: its miner and its pool are known, the rows of the miner cover the amount
-- and the total of the pool has room for it.
abbrev pub Fits : Pubkey → Pubkey → ℕ → ℕ → Pool → Ledger → Type 0
Fits wallet miner_pubkey amount miner_id pool l =
    (get miner_pubkey l.miners ≡ some miner_id)
    × (get wallet l.pools ≡ some pool)
    × All (Covers miner_id amount) l.rewards
    × (pool.claimed_rewards + amount < u64_mod)

pub decrease_reward-eq :
    (miner_id amount : ℕ) (l : Ledger)
    → All (Covers miner_id amount) l.rewards
    → decrease_reward miner_id amount l ≡ ok (debited miner_id amount l)
unfolding decrease_reward decrease_miner_reward
decrease_reward-eq miner_id amount l h = rw (for_rows-debit miner_id amount l.rewards h)

pub update_pool_claimed-eq :
    (wallet : Pubkey) (amount : ℕ) (pool : Pool) (l : Ledger)
    → get wallet l.pools ≡ some pool
    → pool.claimed_rewards + amount < u64_mod
    → update_pool_claimed wallet amount l ≡ ok (counted wallet pool amount l)
unfolding update_pool_claimed
update_pool_claimed-eq wallet amount pool l known room =
    let test : ltb (pool.claimed_rewards + amount) u64_mod ≡ true = ground (arith, room) in
    rw (update_pool_claimed, known, test)

pub get_txn_by_sig-eq :
    (signature : ℕ) (l : Ledger)
    → get_txn_by_sig signature (signed signature l) ≡ ok (length l.txns)
unfolding get_txn_by_sig find_txn
get_txn_by_sig-eq signature l = rw ((nat_beq_iff signature signature).1 refl)

-- What follows a step that has come to `r`.
abbrev pub after : {A B : Type 0} → (A → Step B) → Progress A × Ledger → Progress B × Ledger
after f r = elim r.0 [ done x ↦ f x r.1 | panicked ↦ (panicked, r.1) | trying ↦ (trying, r.1) ]

pub bind-done :
    {A B : Type 0} (m : Step A) (f : A → Step B) (l l' : Ledger) (x : A)
    → m l ≡ (done x, l')
    → (m >>= f) l ≡ f x l'
bind-done m f l l' x e = ap (after f) e

pub bind-trying :
    {A B : Type 0} (m : Step A) (f : A → Step B) (l l' : Ledger)
    → m l ≡ (trying, l')
    → (m >>= f) l ≡ (trying, l')
bind-trying m f l l' e = ap (after f) e

-- What a settlement can leave behind if it does not come to its end: the tables after one of its
-- writes, and so never a claim without its debit.
abbrev pub IsPart : Pubkey → ℕ → Pool → ℕ → ℕ → Ledger → Ledger → Type 0
IsPart wallet miner_id pool amount signature l l' =
    let l1 = debited miner_id amount l in
    let l2 = counted wallet pool amount l1 in
    (l' ≡ l) ⊎ ((l' ≡ l1) ⊎ ((l' ≡ l2) ⊎ (l' ≡ signed signature l2)))

pub unwrap-granted :
    {A : Type 0} (access : Access) (query : Ledger → Result A) (l : Ledger) (x : A)
    → access ≡ granted
    → query l ≡ ok x
    → unwrap access query l ≡ (done x, l)
unwrap-granted access query l x reached e = rw (reached, unwrap, e)

pub unwrap-cases :
    {A : Type 0} (access : Access) (query : Ledger → Result A) (l : Ledger) (x : A)
    → query l ≡ ok x
    → (unwrap access query l ≡ (panicked, l)) ⊎ (unwrap access query l ≡ (done x, l))
unwrap-cases granted query l x e = inr (rw (unwrap, e))
unwrap-cases no_connection query l x e = inl refl
unwrap-cases broken query l x e = inl refl

pub get_miner_by_pubkey_str-eq :
    (pubkey : Pubkey) (miner_id : ℕ) (l : Ledger)
    → get pubkey l.miners ≡ some miner_id
    → get_miner_by_pubkey_str pubkey l ≡ ok miner_id
unfolding get_miner_by_pubkey_str
get_miner_by_pubkey_str-eq pubkey miner_id l e = rw e

pub get_pool_by_authority_pubkey-eq :
    (wallet : Pubkey) (pool : Pool) (l : Ledger)
    → get wallet l.pools ≡ some pool
    → get_pool_by_authority_pubkey wallet l ≡ ok pool
unfolding get_pool_by_authority_pubkey
get_pool_by_authority_pubkey-eq wallet pool l e = rw e

pub bind-panicked :
    {A B : Type 0} (m : Step A) (f : A → Step B) (l l' : Ledger)
    → m l ≡ (panicked, l')
    → (m >>= f) l ≡ (panicked, l')
bind-panicked m f l l' e = ap (after f) e

-- A step of a settlement, with what holds if it is still tried and with what follows it.
pub then-cases :
    {A B : Type 0} (P : Progress B × Ledger → Type 0) (m : Step A) (f : A → Step B) (l l' : Ledger)
    (x : A)
    → (m l ≡ (trying, l)) ⊎ (m l ≡ (done x, l'))
    → P (trying, l)
    → P (f x l')
    → P ((m >>= f) l)
then-cases P m f l l' x (inl e) stuck next = subst P (sym (bind-trying m f l l e)) stuck
then-cases P m f l l' x (inr e) stuck next = subst P (sym (bind-done m f l l' x e)) next
