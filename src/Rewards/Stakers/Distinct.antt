-- ===== src/Rewards/Stakers/Distinct.antt =====
-- No address stands twice among the updates of the stakers' rewards, where none stands twice in the
-- table: for the updates that src/systems/pool_mine_success_system.rs writes in batches.
use coal_pool_server.Prelude.{
  ℕ, ◌≡◌, ◌≢◌, refl, sym, ap, ◌∙◌, subst, ◌⊎◌, inl, inr, ◌&&◌, Option, none, some, List, [], ◌∷◌,
  ◌++◌, map, arith, if_rule, ltb, leb, nat_beq, nat_eq,
}
use coal_pool_server.Prelude.HashMap.{HashMap, get, HasDistinctKeys}
use coal_pool_server.Models.{StakeAccount, UpdateStakeAccountRewards}
use coal_pool_server.Database.Bulk.{map-append}
use coal_pool_server.Database.Stakes.{reward_entry}
use coal_pool_server.Rewards.Stakers.{total_boosted, stake_reward, share_out}
use coal_pool_server.Rewards.Stakers.Pages.{of_mint}

-- The addresses of accounts.
abbrev pub addresses : List StakeAccount → HashMap ℕ ℕ
addresses = map (λ (a : StakeAccount). (a.stake_pda, a.id))

shares_absent :
    (t total k : ℕ) (accounts : List StakeAccount)
    → get k (addresses accounts) ≡ none
    → get k (map reward_entry (map (stake_reward t total) accounts)) ≡ none
unfolding stake_reward
shares_absent t total k [] h = refl
shares_absent t total k (a ∷ rest) h = ground (arith, shares_absent t total k rest)

shares-HasDistinctKeys :
    (t total : ℕ) (accounts : List StakeAccount)
    → HasDistinctKeys (addresses accounts)
    → HasDistinctKeys (map reward_entry (map (stake_reward t total) accounts))
unfolding stake_reward
shares-HasDistinctKeys t total [] h = tt
shares-HasDistinctKeys t total (a ∷ rest) h =
    (shares_absent t total a.stake_pda rest h.0, shares-HasDistinctKeys t total rest h.1)

share_out_absent :
    (t k : ℕ) (accounts : List StakeAccount)
    → get k (addresses accounts) ≡ none
    → get k (map reward_entry (share_out t accounts)) ≡ none
unfolding share_out
share_out_absent t k accounts h =
    if_rule (λ (us : List UpdateStakeAccountRewards). get k (map reward_entry us) ≡ none)
      (ltb 0 (total_boosted 0 accounts))
      (λ staked. shares_absent t (total_boosted 0 accounts) k accounts h) λ nothing. refl

share_out-HasDistinctKeys :
    (t : ℕ) (accounts : List StakeAccount)
    → HasDistinctKeys (addresses accounts)
    → HasDistinctKeys (map reward_entry (share_out t accounts))
unfolding share_out
share_out-HasDistinctKeys t accounts h =
    if_rule (λ (us : List UpdateStakeAccountRewards). HasDistinctKeys (map reward_entry us))
      (ltb 0 (total_boosted 0 accounts))
      (λ staked. shares-HasDistinctKeys t (total_boosted 0 accounts) accounts h) λ nothing. tt

module _ (pool_id minimum : ℕ) where
  of_mint_absent :
      (mint k : ℕ) (rows : List StakeAccount)
      → get k (addresses rows) ≡ none
      → get k (addresses (of_mint pool_id mint minimum rows)) ≡ none
  unfolding of_mint
  of_mint_absent mint k [] h = refl
  of_mint_absent mint k (a ∷ rest) h = ground (arith, of_mint_absent mint k rest)

  pub of_mint-HasDistinctKeys :
      (mint : ℕ) (rows : List StakeAccount)
      → HasDistinctKeys (addresses rows)
      → HasDistinctKeys (addresses (of_mint pool_id mint minimum rows))
  unfolding of_mint
  of_mint-HasDistinctKeys mint [] h = tt
  of_mint-HasDistinctKeys mint (a ∷ rest) h =
      if_rule (λ (l : List StakeAccount). HasDistinctKeys (addresses l))
        (nat_beq a.pool_id pool_id && (nat_beq a.mint_pubkey mint && leb minimum a.staked_balance))
        (λ wanted.
          (of_mint_absent mint a.stake_pda rest h.0, of_mint-HasDistinctKeys mint rest h.1))
        λ other. of_mint-HasDistinctKeys mint rest h.1

  -- An address belongs to one mint.
  of_mint_disjoint :
      (mint mint' k : ℕ) (rows : List StakeAccount)
      → mint ≢ mint'
      → HasDistinctKeys (addresses rows)
      → (get k (addresses (of_mint pool_id mint minimum rows)) ≡ none)
        ⊎ (get k (addresses (of_mint pool_id mint' minimum rows)) ≡ none)
  unfolding of_mint
  of_mint_disjoint mint mint' k [] ne h = inl refl
  of_mint_disjoint mint mint' k (a ∷ rest) ne h = ground (
    arith,
    ne,
    of_mint_disjoint mint mint' k rest ne h.1,
    of_mint_absent mint a.stake_pda rest h.0,
    of_mint_absent mint' a.stake_pda rest h.0,
  )

get-append_none :
    (k : ℕ) (xs ys : HashMap ℕ ℕ) → get k xs ≡ none → get k ys ≡ none → get k (xs ++ ys) ≡ none
get-append_none k [] ys h h' = h'
get-append_none k ((j, x) ∷ xs) ys h h' = ground (arith, get-append_none k xs ys)

got_self : (j x : ℕ) (xs : HashMap ℕ ℕ) → get j ((j, x) ∷ xs) ≡ some x
got_self j x xs = ground arith

missing_later : {o p : Option ℕ} {x : ℕ} → (o ≡ none) ⊎ (p ≡ none) → o ≡ some x → p ≡ none
missing_later (inl e) h = absurd (cc (e, h))
missing_later (inr e) h = e

apart_tail :
    (j x k : ℕ) (xs ys : HashMap ℕ ℕ)
    → (get k ((j, x) ∷ xs) ≡ none) ⊎ (get k ys ≡ none)
    → (get k xs ≡ none) ⊎ (get k ys ≡ none)
apart_tail j x k xs ys (inl h) = inl (ground (arith, h))
apart_tail j x k xs ys (inr h) = inr h

append-HasDistinctKeys :
    (xs ys : HashMap ℕ ℕ)
    → HasDistinctKeys xs
    → HasDistinctKeys ys
    → ((k : ℕ) → (get k xs ≡ none) ⊎ (get k ys ≡ none))
    → HasDistinctKeys (xs ++ ys)
append-HasDistinctKeys [] ys h h' apart = h'
append-HasDistinctKeys ((j, x) ∷ xs) ys h h' apart = (
  get-append_none j xs ys h.0 (missing_later (apart j) (got_self j x xs)),
  append-HasDistinctKeys xs ys h.1 h' λ k. apart_tail j x k xs ys (apart k),
)

apart_both :
    (k : ℕ) (xs ys zs : HashMap ℕ ℕ)
    → (get k xs ≡ none) ⊎ (get k ys ≡ none)
    → (get k xs ≡ none) ⊎ (get k zs ≡ none)
    → (get k xs ≡ none) ⊎ (get k (ys ++ zs) ≡ none)
apart_both k xs ys zs (inl h) other = inl h
apart_both k xs ys zs (inr h) (inl h') = inl h'
apart_both k xs ys zs (inr h) (inr h') = inr (get-append_none k ys zs h h')

module _ (pool_id minimum : ℕ) (rows : List StakeAccount)
    (distinct : HasDistinctKeys (addresses rows)) where
  -- The entries for a mint's part.
  abbrev entries : ℕ → ℕ → HashMap ℕ ℕ
  entries mint t = map reward_entry (share_out t (of_mint pool_id mint minimum rows))

  entries-HasDistinctKeys : (mint t : ℕ) → HasDistinctKeys (entries mint t)
  entries-HasDistinctKeys mint t =
      share_out-HasDistinctKeys t (of_mint pool_id mint minimum rows)
        (of_mint-HasDistinctKeys pool_id minimum mint rows distinct)

  entries_apart :
      (m m' t t' k : ℕ) → m ≢ m' → (get k (entries m t) ≡ none) ⊎ (get k (entries m' t') ≡ none)
  entries_apart m m' t t' k ne = elim (of_mint_disjoint pool_id minimum m m' k rows ne distinct) [
    | inl h ↦ inl (share_out_absent t k (of_mint pool_id m minimum rows) h)
    | inr h ↦ inr (share_out_absent t' k (of_mint pool_id m' minimum rows) h)
  ]

  -- The shares of three mints together.
  pub three_shares-HasDistinctKeys :
      (m1 m2 m3 t1 t2 t3 : ℕ)
      → m1 ≢ m2
      → m1 ≢ m3
      → m2 ≢ m3
      → HasDistinctKeys (
          map reward_entry (
            share_out t1 (of_mint pool_id m1 minimum rows)
            ++ (share_out t2 (of_mint pool_id m2 minimum rows)
                ++ share_out t3 (of_mint pool_id m3 minimum rows))))
  three_shares-HasDistinctKeys m1 m2 m3 t1 t2 t3 ne12 ne13 ne23 =
      let s1 = share_out t1 (of_mint pool_id m1 minimum rows) in
      let s2 = share_out t2 (of_mint pool_id m2 minimum rows) in
      let s3 = share_out t3 (of_mint pool_id m3 minimum rows) in
      let e1 = entries m1 t1 in
      let e2 = entries m2 t2 in
      let e3 = entries m3 t3 in
      let later =
        append-HasDistinctKeys e2 e3 (entries-HasDistinctKeys m2 t2) (entries-HasDistinctKeys m3 t3)
          λ k. entries_apart m2 m3 t2 t3 k ne23 in
      let all = append-HasDistinctKeys e1 (e2 ++ e3) (entries-HasDistinctKeys m1 t1) later λ k.
        apart_both k e1 e2 e3 (entries_apart m1 m2 t1 t2 k ne12)
          (entries_apart m1 m3 t1 t3 k ne13) in
      let joined : map reward_entry (s1 ++ (s2 ++ s3)) ≡ e1 ++ (e2 ++ e3) =
        map-append reward_entry s1 (s2 ++ s3)
        ∙ ap (λ (l : HashMap ℕ ℕ). e1 ++ l) (map-append reward_entry s2 s3) in
      subst (λ (l : HashMap ℕ ℕ). HasDistinctKeys l) (sym joined) all
