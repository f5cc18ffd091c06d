-- ===== src/Claims/Cooldown.antt =====
-- One claim of a miner in 48 hours: `post_claim` and `post_claim_v2` of src/main.rs.
use Prim.Native.String.{String}
use coal_pool_server.Prelude.{
  ℕ, ◌-◌, ◌<◌, ◌≡◌, ap, ◌∙◌, inl, inr, true, none, some, arith, ltb, nat_eq, option_eq, pair_eq,
}
use coal_pool_server.Prelude.HashMap.{HashMap, get, insert, get-insert_self}
use coal_pool_server.State.{Pubkey}
use coal_pool_server.Claims.{
  cooldown_time, Solana, ClaimsQueueItem, ClaimsQueue, ClaimKey, status_ok, enqueue, in_cooldown,
}
use coal_pool_server.Claims.Requests.{
  miner_item, Surroundings, ClaimParams, ClaimParamsV2, post_claim, post_claim_v2,
}
use coal_pool_server.Claims.Admission.{Refuses, post_claim_cases, post_claim_v2_admits}

-- The cooldown begins when a claim is queued.
in_cooldown-enqueue :
    (cq : ClaimsQueue) (key : ClaimKey) (item : ClaimsQueueItem) (now later : ℕ)
    → later - now < cooldown_time
    → in_cooldown (enqueue cq key item now) key.0 later ≡ true
in_cooldown-enqueue cq key item now later soon =
    let e : get key.0 (insert key.0 now cq.claim_cooldown) ≡ some now =
      get-insert_self key.0 now cq.claim_cooldown in
    let test : ltb (later - now) cooldown_time ≡ true = ground (arith, soon) in
    rw (in_cooldown, e, test)

module _ (solana : Solana) where
  open solana use {pubkey_from_str}

  -- What is left of a claim after it has left the queue: the cooldown of its key.
  cools-after_claim :
      (env : Surroundings) (cq : ClaimsQueue) (params : ClaimParams) (later : ℕ)
      (queue : HashMap ClaimKey ClaimsQueueItem)
      → (post_claim solana env cq params).1.status ≡ status_ok
      → later - env.now < cooldown_time
      → (miner : Pubkey) × (pubkey_from_str params.pubkey ≡ some miner)
        × (in_cooldown (record (post_claim solana env cq params).0 { queue = queue }) miner later
            ≡ true)
  cools-after_claim env cq params later queue accepted soon =
      elim (post_claim_cases solana env cq params) [
        | inl refused ↦ absurd (refused.1 accepted)
        | inr (miner, e, queued) ↦ (
          miner,
          e,
          ap (λ (c : ClaimsQueue). in_cooldown c miner later) queued.0
              ∙ in_cooldown-enqueue cq (miner, none) (miner_item miner params.amount) env.now later
                  soon,
        )
      ]

  -- After `post_claim` has queued a claim, requests of the same key to `post_claim` or, under its
  -- signature, to `post_claim_v2` within 48 hours are refused, whatever has happened to the queue
  -- in the meantime.
  pub post_claim_twice :
      (env env' : Surroundings) (cq : ClaimsQueue) (params params' : ClaimParams)
      (password : String) (params'' : ClaimParamsV2) (queue : HashMap ClaimKey ClaimsQueueItem)
      → (post_claim solana env cq params).1.status ≡ status_ok
      → env'.now - env.now < cooldown_time
      → params'.pubkey ≡ params.pubkey
      → let cq' = record (post_claim solana env cq params).0 { queue = queue } in
        Refuses cq' (post_claim solana env' cq' params')
        × Refuses cq' (post_claim_v2 solana env' cq' params.pubkey password params'')
  post_claim_twice env env' cq params params' password params'' queue accepted soon same =
      let (miner, e, cools) = cools-after_claim env cq params env'.now queue accepted soon in
      let cq' = record (post_claim solana env cq params).0 { queue = queue } in
      (
        elim (post_claim_cases solana env' cq' params') [
          | inl refused ↦ refused
          | inr (miner', e', queued) ↦
              let one : miner' ≡ miner = cc in absurd (cc (one, queued.3, cools))
        ],
        elim (post_claim_v2_admits solana env' cq' params.pubkey password params'') [
          | inl refused ↦ refused
          | inr (miner', r, g, e', er, eg, signed, queued) ↦
              let one : miner' ≡ miner = cc in absurd (cc (one, queued.3, cools))
        ],
      )
