-- ===== src/Rewards/Stakers/Pages.antt =====
-- The pages in which `process_stakers_rewards` (src/systems/pool_mine_success_system.rs) reads the stake
-- accounts of a mint, by `get_staker_accounts_for_mint` of src/app_database.rs. The table is in the order
-- of its ids.
use coal_pool_server.Prelude.{
  ℕ, ◌*◌, ◌<◌, ◌≡◌, refl, ◌∙◌, ◌&&◌, Option, none, some, List, [], ◌∷◌, length, arith,
  if◌then◌else◌, if_rule, leb, nat_beq,
}
use coal_pool_server.State.{Pubkey}
use coal_pool_server.Models.{StakeAccount}
use coal_pool_server.Database.Pages.{
  page_of, page_turn, read_pages, Ascends, Ascends-weaken, grants, read_pages-eq,
}
use coal_pool_server.Database.{Result, Access}

-- The accounts of a pool and a mint with a least balance.
unfoldable pub of_mint : ℕ → Pubkey → ℕ → List StakeAccount → List StakeAccount
of_mint pool_id mint minimum [] = []
of_mint pool_id mint minimum (a ∷ rest) =
    let others = of_mint pool_id mint minimum rest in
    if nat_beq a.pool_id pool_id && (nat_beq a.mint_pubkey mint && leb minimum a.staked_balance)
    then a ∷ others
    else others

-- The id of a row.
abbrev pub account_id : StakeAccount → ℕ
account_id a = a.id

unfoldable pub get_staker_accounts_for_mint :
    Access → ℕ → Pubkey → ℕ → ℕ → List StakeAccount → Result (List StakeAccount)
unfolding of_mint page_of
get_staker_accounts_for_mint access pool_id mint last_id minimum rows =
    page_of account_id access (of_mint pool_id mint minimum rows) last_id

-- The loop, over the accesses of its queries; no value means that it is still reading.
unfoldable pub read_accounts :
    List Access
    → ℕ
    → Pubkey
    → List StakeAccount
    → ℕ
    → List StakeAccount
    → Option (List StakeAccount)
unfolding get_staker_accounts_for_mint
read_accounts [] pool_id mint rows last_id acc = none
read_accounts (access ∷ rest) pool_id mint rows last_id acc =
    page_turn account_id (get_staker_accounts_for_mint access pool_id mint last_id 1 rows) last_id
      acc (read_accounts rest pool_id mint rows)

of_mint-Ascends :
    (pool_id mint minimum bound : ℕ) (rows : List StakeAccount)
    → Ascends account_id bound rows
    → Ascends account_id bound (of_mint pool_id mint minimum rows)
unfolding of_mint
of_mint-Ascends pool_id mint minimum bound [] h = tt
of_mint-Ascends pool_id mint minimum bound (a ∷ rest) (above, h) =
    let ih = of_mint-Ascends pool_id mint minimum a.id rest h in
    if_rule (Ascends account_id bound)
      (nat_beq a.pool_id pool_id && (nat_beq a.mint_pubkey mint && leb minimum a.staked_balance))
      (λ wanted. (above, ih))
      λ other.
        Ascends-weaken account_id bound a.id (of_mint pool_id mint minimum rest)
          (omega (arith, above)) ih

-- The loop is that over the pages of the accounts of the mint.
read_accounts_pages :
    (accesses : List Access) (pool_id : ℕ) (mint : Pubkey) (rows : List StakeAccount) (last_id : ℕ)
    (acc : List StakeAccount)
    → read_accounts accesses pool_id mint rows last_id acc
      ≡ read_pages account_id accesses (of_mint pool_id mint 1 rows) last_id acc
unfolding read_accounts get_staker_accounts_for_mint read_pages
read_accounts_pages [] pool_id mint rows last_id acc = refl
read_accounts_pages (access ∷ rest) pool_id mint rows last_id acc = λ i.
    page_turn account_id (page_of account_id access (of_mint pool_id mint 1 rows) last_id) last_id
      acc (λ last d. read_accounts_pages rest pool_id mint rows last d i)

-- If the ids of the table rise from above zero and the database grants a look for each 500 accounts of
-- the mint, and one more, then the loop over the pages ends, whatever looks fail in between, and it has
-- read each account of the pool and the mint that has a stake, once and in the order of the ids.
pub read_accounts-eq :
    (accesses : List Access) (pool_id : ℕ) (mint : Pubkey) (rows : List StakeAccount)
    → Ascends account_id 0 rows
    → length (of_mint pool_id mint 1 rows) < 500 * grants accesses
    → read_accounts accesses pool_id mint rows 0 [] ≡ some (of_mint pool_id mint 1 rows)
read_accounts-eq accesses pool_id mint rows rises room =
    read_accounts_pages accesses pool_id mint rows 0 []
    ∙ read_pages-eq account_id accesses (of_mint pool_id mint 1 rows)
        (of_mint-Ascends pool_id mint 1 0 rows rises) room
