-- ===== src/Stakes/Refresh/Sync.antt =====
-- The refresh of the staked balances (src/scripts.rs) makes the table agree with the chain.
use coal_pool_server.Prelude.{
  ℕ, ◌≡◌, refl, sym, ap, ◌∙◌, Option, none, some, List, [], ◌∷◌, map, arith, if◌then◌else◌, nat_beq,
  nat_eq, All, subst,
}
use coal_pool_server.Prelude.HashMap.{
  HashMap, get, HasDistinctKeys, get-insert, insert-HasDistinctKeys,
}
use coal_pool_server.State.{Pubkey}
use coal_pool_server.Models.{UpdateStakeAccount}
use coal_pool_server.Database.{Access, chunks}
use coal_pool_server.Database.Attempts.{ReachesAll}
use coal_pool_server.Database.Bulk.{Fits, updated, applied, write_chunks-eq}
use coal_pool_server.Database.Stakes.{
  StakeRow, row_key, restaked, stake_row, stake_entry, update_stake_accounts_staked_balance,
}
use coal_pool_server.Stakes.Refresh.{
  staked_update, write_staked_balances, insert_boost, gather, update_stake_accounts, push_boost,
  delegated_boosts_of, update_delegate_boost_stake_accounts,
}

abbrev else_get : Option ℕ → Option ℕ → Option ℕ
else_get none later = later
else_get (some x) later = some x

else_get_assoc : (a b c : Option ℕ) → else_get a (else_get b c) ≡ else_get (else_get a b) c
else_get_assoc none b c = refl
else_get_assoc (some x) b c = refl

else_get-none : (a : Option ℕ) → else_get a none ≡ a
else_get-none none = refl
else_get-none (some x) = refl

abbrev only_at : ℕ → ℕ → Option ℕ → Option ℕ
only_at address k o = if nat_beq address k then o else none

get-insert_boost :
    (k : ℕ) (o : Option ℕ) (address : Pubkey) (boosts : HashMap Pubkey ℕ)
    → get k (insert_boost o address boosts) ≡ else_get (only_at address k o) (get k boosts)
get-insert_boost k none address boosts = ground arith
get-insert_boost k (some x) address boosts = ground (arith, get-insert k address x boosts)

insert_boost-HasDistinctKeys :
    (o : Option ℕ) (address : Pubkey) (boosts : HashMap Pubkey ℕ)
    → HasDistinctKeys boosts
    → HasDistinctKeys (insert_boost o address boosts)
insert_boost-HasDistinctKeys none address boosts h = h
insert_boost-HasDistinctKeys (some x) address boosts h = insert-HasDistinctKeys address x boosts h

module _ (from_bytes : List ℕ → Option ℕ) where
  -- What the chain holds for an address: the last of its accounts that can be read.
  abbrev pub staked_on_chain : Pubkey → List (Pubkey × List ℕ) → Option ℕ
  staked_on_chain k [] = none
  staked_on_chain k ((address, bytes) ∷ rest) =
      else_get (staked_on_chain k rest) (if nat_beq address k then from_bytes bytes else none)

  -- A row that the chain knows has the chain's balance, and no row is changed otherwise.
  abbrev pub refreshed : List (Pubkey × List ℕ) → StakeRow → StakeRow
  refreshed program_accounts row =
      applied restaked (staked_on_chain (row_key row) program_accounts) row

  get-gather :
      (k : ℕ) (accounts : List (Pubkey × List ℕ)) (boosts : HashMap Pubkey ℕ)
      → get k (gather from_bytes accounts boosts)
        ≡ else_get (staked_on_chain k accounts) (get k boosts)
  unfolding gather
  get-gather k [] boosts = refl
  get-gather k ((address, bytes) ∷ rest) boosts =
      get-gather k rest (insert_boost (from_bytes bytes) address boosts)
      ∙ ap (else_get (staked_on_chain k rest))
          (get-insert_boost k (from_bytes bytes) address boosts)
      ∙ else_get_assoc (staked_on_chain k rest) (only_at address k (from_bytes bytes))
          (get k boosts)

  gather-HasDistinctKeys :
      (accounts : List (Pubkey × List ℕ)) (boosts : HashMap Pubkey ℕ)
      → HasDistinctKeys boosts
      → HasDistinctKeys (gather from_bytes accounts boosts)
  unfolding gather
  gather-HasDistinctKeys [] boosts h = h
  gather-HasDistinctKeys ((address, bytes) ∷ rest) boosts h =
      gather-HasDistinctKeys rest (insert_boost (from_bytes bytes) address boosts)
        (insert_boost-HasDistinctKeys (from_bytes bytes) address boosts h)

updates-entries : (l : List (Pubkey × ℕ)) → map stake_entry (map staked_update l) ≡ l
updates-entries [] = refl
updates-entries ((k, x) ∷ l) = ap (◌∷◌ (k, x)) (updates-entries l)

all_fit :
    (entries : HashMap ℕ ℕ) (rows : List StakeRow)
    → All (Fits row_key stake_row restaked entries) rows
all_fit entries [] = tt
all_fit entries (row ∷ rows) = (λ x found. refl, all_fit entries rows)

updated_nil : (rows : List StakeRow) → map (updated row_key stake_row restaked []) rows ≡ rows
updated_nil [] = refl
updated_nil (row ∷ rows) = ap (◌∷◌ row) (updated_nil rows)

write_staked_balances-eq :
    (attempts : List (List Access)) (us : List UpdateStakeAccount) (rows : List StakeRow)
    → ReachesAll attempts (chunks 200 us)
    → HasDistinctKeys (map stake_entry us)
    → write_staked_balances attempts us rows
      ≡ some (map (updated row_key stake_row restaked (map stake_entry us)) rows)
unfolding write_staked_balances update_stake_accounts_staked_balance
write_staked_balances-eq attempts [] rows reaches distinct = ap some (sym (updated_nil rows))
write_staked_balances-eq attempts (u ∷ us) rows reaches distinct =
    write_chunks-eq row_key stake_row restaked (λ x row. refl) stake_entry 199 attempts (u ∷ us)
      rows reaches distinct (all_fit (map stake_entry (u ∷ us)) rows)

-- An iteration visits each entry of a map once, in some order.
abbrev pub Visits : (HashMap Pubkey ℕ → List (Pubkey × ℕ)) → HashMap Pubkey ℕ → Type 0
Visits iter m = HasDistinctKeys (iter m) × ((k : ℕ) → get k (iter m) ≡ get k m)

map_cong :
    (f g : StakeRow → StakeRow) (rows : List StakeRow)
    → ((row : StakeRow) → f row ≡ g row)
    → map f rows ≡ map g rows
map_cong f g [] h = refl
map_cong f g (row ∷ rows) h = cc (h row, map_cong f g rows h)

-- Whatever the order in which the map of the boosts is iterated, if each batch of 200 gets through to
-- the database at last, the script ends, and each row of the table whose address the chain knows has
-- the balance that the chain shows for it; the other rows, and the other columns, are as they were. If
-- the node does not list the accounts, the table is as it was.
pub update_stake_accounts-eq :
    (from_bytes : List ℕ → Option ℕ) (iter : HashMap Pubkey ℕ → List (Pubkey × ℕ))
    (attempts : List (List Access)) (program_accounts : List (Pubkey × List ℕ))
    (rows : List StakeRow)
    → ((m : HashMap Pubkey ℕ) → HasDistinctKeys m → Visits iter m)
    → ReachesAll attempts
        (chunks 200 (map staked_update (iter (gather from_bytes program_accounts []))))
    → (update_stake_accounts from_bytes iter attempts (some program_accounts) rows
        ≡ some (map (refreshed from_bytes program_accounts) rows))
      × (update_stake_accounts from_bytes iter attempts none rows ≡ some rows)
unfolding update_stake_accounts
update_stake_accounts-eq from_bytes iter attempts program_accounts rows visits reaches =
    let m = gather from_bytes program_accounts [] in
    let (distinct, same) = visits m (gather-HasDistinctKeys from_bytes program_accounts [] tt) in
    let entries = updates-entries (iter m) in
    let written =
      write_staked_balances-eq attempts (map staked_update (iter m)) rows reaches
        (subst (λ (l : HashMap ℕ ℕ). HasDistinctKeys l) (sym entries) distinct) in
    let pointwise : (row : StakeRow)
        → updated row_key stake_row restaked (map stake_entry (map staked_update (iter m))) row
          ≡ refreshed from_bytes program_accounts row =
      λ row.
        ap (λ (o : Option ℕ). applied restaked o row)
          (ap (get (row_key row)) entries
            ∙ same (row_key row)
            ∙ get-gather from_bytes (row_key row) program_accounts []
            ∙ else_get-none (staked_on_chain from_bytes (row_key row) program_accounts)) in
    (written ∙ ap some (map_cong _ _ rows pointwise), refl)

get-push_boost :
    (k : ℕ) (o : Option ℕ) (address : Pubkey) (us : List UpdateStakeAccount) (later : Option ℕ)
    → HasDistinctKeys (map stake_entry (push_boost o address us))
    → get k (map stake_entry us) ≡ later
    → get k (map stake_entry (push_boost o address us)) ≡ else_get later (only_at address k o)
get-push_boost k none address us later distinct h = h ∙ ground (arith, else_get-none later)
get-push_boost k (some x) address us none distinct h = ground (arith, h)
get-push_boost k (some x) address us (some y) distinct h = ground (arith, h, distinct.0)

push_boost_tail :
    (o : Option ℕ) (address : Pubkey) (us : List UpdateStakeAccount)
    → HasDistinctKeys (map stake_entry (push_boost o address us))
    → HasDistinctKeys (map stake_entry us)
push_boost_tail none address us distinct = distinct
push_boost_tail (some x) address us distinct = distinct.1

get-delegated_boosts_of :
    (from_bytes : List ℕ → Option ℕ) (k : ℕ) (accounts : List (Pubkey × List ℕ))
    → HasDistinctKeys (map stake_entry (delegated_boosts_of from_bytes accounts))
    → get k (map stake_entry (delegated_boosts_of from_bytes accounts))
      ≡ staked_on_chain from_bytes k accounts
unfolding delegated_boosts_of
get-delegated_boosts_of from_bytes k [] distinct = refl
get-delegated_boosts_of from_bytes k ((address, bytes) ∷ rest) distinct =
    let boosts = delegated_boosts_of from_bytes rest in
    get-push_boost k (from_bytes bytes) address boosts (staked_on_chain from_bytes k rest) distinct
      (get-delegated_boosts_of from_bytes k rest
        (push_boost_tail (from_bytes bytes) address boosts distinct))

-- If no address stands twice among the boosts of the chain and each batch of 200 gets through to the
-- database at last, the loop in src/main.rs leaves the same table.
pub update_delegate_boost_stake_accounts-eq :
    (from_bytes : List ℕ → Option ℕ) (attempts : List (List Access))
    (program_accounts : List (Pubkey × List ℕ)) (rows : List StakeRow)
    → HasDistinctKeys (map stake_entry (delegated_boosts_of from_bytes program_accounts))
    → ReachesAll attempts (chunks 200 (delegated_boosts_of from_bytes program_accounts))
    → update_delegate_boost_stake_accounts from_bytes attempts (some program_accounts) rows
      ≡ some (map (refreshed from_bytes program_accounts) rows)
unfolding update_delegate_boost_stake_accounts
update_delegate_boost_stake_accounts-eq from_bytes attempts program_accounts rows distinct reaches =
    let us = delegated_boosts_of from_bytes program_accounts in
    let pointwise : (row : StakeRow)
        → updated row_key stake_row restaked (map stake_entry us) row
          ≡ refreshed from_bytes program_accounts row =
      λ row.
        ap (λ (o : Option ℕ). applied restaked o row)
          (get-delegated_boosts_of from_bytes (row_key row) program_accounts distinct) in
    write_staked_balances-eq attempts us rows reaches distinct
    ∙ ap some (map_cong _ _ rows pointwise)
