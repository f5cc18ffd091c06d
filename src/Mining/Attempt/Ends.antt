-- ===== src/Mining/Attempt/Ends.antt =====
-- When an attempt of `pool_submission_system` (src/systems/pool_submission_system.rs) has mined.
use coal_pool_server.Prelude.{
  ℕ, zero, suc, ◌+◌, ◌≤◌, ◌≡◌, refl, sym, ap, ◌∙◌, inl, inr, true, false, Option, none, some, List,
  [], ◌∷◌, arith, leb, Bool-cases,
}
use coal_pool_server.State.{Proof, Drillx}
use coal_pool_server.Claims.Transaction.{
  Sending, sent, given_up, sending, Poll, Confirmation, confirmed, expired, failed, confirming,
  confirm,
}
use coal_pool_server.Claims.Transaction.Sends.{failing, Confirms, confirm-Confirms}
use coal_pool_server.Mining.Attempt.{
  MineConfig, Findings, send_mine, mined, after_wait, after_send, outdated, unless_outdated,
  transact, attempt,
}

-- The sendings that the loop gets through to the signature: a few that fail, and then it.
abbrev pub SentAfter : ℕ → ℕ → List (Option ℕ) → Type 0
SentAfter most signature sends =
    (n : ℕ) × (rest : List (Option ℕ)) × (n ≤ most) × (sends ≡ failing n (some signature ∷ rest))

send_mine-SentAfter :
    (k most signature : ℕ) (sends : List (Option ℕ))
    → k + most ≡ 4
    → send_mine k sends ≡ sent signature
    → SentAfter most signature sends
unfolding send_mine
send_mine-SentAfter k most signature [] fuel h = absurd (cc h)
send_mine-SentAfter k most signature (some s ∷ rest) fuel h =
    let same : s ≡ signature = cc h in (0, rest, omega arith, ap (λ (x : ℕ). some x ∷ rest) same)
send_mine-SentAfter k zero signature (none ∷ rest) fuel h =
    let over : leb 5 (k + 1) ≡ true = ground (arith, fuel) in absurd (ground (arith, h, over))
send_mine-SentAfter k (suc most) signature (none ∷ rest) fuel h =
    let more : leb 5 (k + 1) ≡ false = ground (arith, fuel) in
    let goes_on : send_mine (k + 1) rest ≡ sent signature = ground (arith, h, more) in
    let (n, after, few, same) =
      send_mine-SentAfter (k + 1) most signature rest (omega (arith, fuel)) goes_on in
    (suc n, after, omega (arith, few), ap (λ (xs : List (Option ℕ)). none ∷ xs) same)

after_wait-mined :
    (s signature : ℕ) (c : Confirmation)
    → after_wait s c ≡ mined signature
    → (s ≡ signature) × (c ≡ confirmed)
after_wait-mined s signature confirmed h = (cc h, refl)
after_wait-mined s signature expired h = absurd (cc h)
after_wait-mined s signature failed h = absurd (cc h)
after_wait-mined s signature confirming h = absurd (cc h)

-- The transaction was sent and seen final.
abbrev pub WentThrough : ℕ → List (Option ℕ) → List Poll → Type 0
WentThrough signature sends polls = SentAfter 3 signature sends × Confirms 200 polls

after_send-WentThrough :
    (signature : ℕ) (sends : List (Option ℕ)) (polls : List Poll) (s : Sending)
    → send_mine 1 sends ≡ s
    → after_send polls s ≡ mined signature
    → WentThrough signature sends polls
after_send-WentThrough signature sends polls (sent x) its h =
    let (same, final) = after_wait-mined x signature (confirm 200 polls) h in
    (
      send_mine-SentAfter 1 3 signature sends refl (its ∙ ap (λ (y : ℕ). sent y) same),
      confirm-Confirms 200 polls final,
    )
after_send-WentThrough signature sends polls given_up its h = absurd (cc h)
after_send-WentThrough signature sends polls sending its h = absurd (cc h)

module _ (drillx : Drillx) where
  open drillx use {Solution, is_valid}

  -- What the success of an attempt shows.
  pub record HasMined (best : Solution) (f : Findings) (signature : ℕ) : Type 0 where
    pub current :
        (p : Proof) (config : MineConfig)
        → f.loaded ≡ some (p, config)
        → is_valid best p.challenge ≡ true
    pub had_blockhash : f.has_blockhash ≡ true
    pub simulated : f.is_invalid_hash ≡ false
    pub went_through : WentThrough signature f.sends f.polls

  transact-mined :
      (best : Solution) (f : Findings) (signature : ℕ)
      → ((p : Proof) (config : MineConfig)
          → f.loaded ≡ some (p, config)
          → is_valid best p.challenge ≡ true)
      → transact drillx f ≡ mined signature
      → HasMined best f signature
  transact-mined best f signature current h = elim (Bool-cases f.has_blockhash) [
    | inr lacks ↦ absurd (ground (arith, h, lacks))
    | inl has ↦ elim (Bool-cases f.is_invalid_hash) [
      | inl invalid ↦ absurd (ground (arith, h, has, invalid))
      | inr fine ↦
          let went : after_send f.polls (send_mine 1 f.sends) ≡ mined signature =
            ground (arith, h, has, fine) in
          record {
            current = current;
            had_blockhash = has;
            simulated = fine;
            went_through =
                after_send-WentThrough signature f.sends f.polls (send_mine 1 f.sends) refl went;
          }
    ]
  ]

  -- The proof that a solution is not outdated for is one that it solves.
  outdated-none :
      (best : Solution) (o : Option (Proof × MineConfig)) (p : Proof) (config : MineConfig)
      → outdated drillx best o ≡ none
      → o ≡ some (p, config)
      → is_valid best p.challenge ≡ true
  unfolding outdated
  outdated-none best none p config h e = absurd (cc e)
  outdated-none best (some (q, c)) p config h e =
      let same : q ≡ p = cc e in
      ap (λ (x : Proof). is_valid best x.challenge) (sym same) ∙ ground (arith, h)

  attempt-current :
      (best : Solution) (f : Findings) (signature : ℕ) (o : Option Proof)
      → outdated drillx best f.loaded ≡ o
      → unless_outdated drillx o (transact drillx f) ≡ mined signature
      → HasMined best f signature
  attempt-current best f signature none none_yet h =
      transact-mined best f signature (λ p config. outdated-none best f.loaded p config none_yet) h
  attempt-current best f signature (some p) its h = absurd (cc h)

  -- If an attempt has mined, then its solution solves the challenge of the latest proof if that could be
  -- loaded, there was a block hash, the simulation did not refuse the hash, the node took the transaction
  -- after three failures at most, and its signature was seen final, without an error, within 200 seconds.
  pub attempt-HasMined :
      (best : Solution) (f : Findings) (signature : ℕ)
      → attempt drillx best f ≡ mined signature
      → HasMined best f signature
  unfolding attempt
  attempt-HasMined best f signature h =
      attempt-current best f signature (outdated drillx best f.loaded) refl h
