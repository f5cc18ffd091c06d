-- ===== src/Mining/Records.antt =====
-- Which challenge the turns of `pool_submission_system` (src/systems/pool_submission_system.rs) record when
-- they begin an epoch.
use coal_pool_server.Prelude.{
  ℕ, ◌≡◌, ◌≢◌, refl, sym, ap, ◌∙◌, inl, inr, false, Option, none, some, List, arith, if_rule,
  nat_beq, nat_beq_iff, subst,
}
use coal_pool_server.Database.{Access}
use coal_pool_server.Database.Challenges.{
  ChallengeTable, ChallengeRow, find_challenge, record_challenge, Knows, Extends, Recorded,
  record_challenge-Recorded,
}
use coal_pool_server.State.{Challenge, Proof}
use coal_pool_server.Mining.{
  World, Turn, over, adopt, adopt_if_new, follow, resend_turn, await_turn,
}

-- Recording one challenge does not bring another.
Extends-none :
    (c d : Challenge) (t t' : ChallengeTable)
    → d ≢ c
    → find_challenge d t.rows ≡ none
    → Extends c t t'
    → find_challenge d t'.rows ≡ none
unfolding find_challenge
Extends-none c d t t' other lacks (inl same) =
    ap (λ (u : ChallengeTable). find_challenge d u.rows) same ∙ lacks
Extends-none c d t t' other lacks (inr (r, its, rows)) =
    ap (find_challenge d) rows
    ∙ if_rule (λ (o : Option ChallengeRow). o ≡ none) (nat_beq r.challenge d)
        (λ same. absurd (other (sym ((nat_beq_iff r.challenge d).0 same) ∙ its))) λ differs. lacks

module _ {S : Type 0} where
  -- The turn that is over has the challenge of its epoch in the table.
  abbrev KnowsEpoch : Turn × World S → Type 0
  KnowsEpoch (turn, w) = turn ≡ over → Knows w.challenges w.server.epoch_hashes.challenge

  adopt-KnowsEpoch :
      (w : World S) (p : Proof) (last : Challenge) (o : Option ChallengeTable)
      → Recorded w.challenges p.challenge o
      → KnowsEpoch (adopt w p last o)
  unfolding adopt
  adopt-KnowsEpoch w p last none r e = absurd (cc e)
  adopt-KnowsEpoch w p last (some t) (inl still) e = absurd (cc still)
  adopt-KnowsEpoch w p last (some t) (inr (t', same, knows, extends)) e =
      let its : t ≡ t' = cc same in
      subst (λ (u : ChallengeTable). Knows u p.challenge) (sym its) knows

  follow-KnowsEpoch :
      (w : World S) (old : Proof) (o : Option ChallengeTable)
      → Recorded w.challenges w.server.proof.challenge o
      → KnowsEpoch (follow w old o)
  unfolding follow
  follow-KnowsEpoch w old none r e = absurd (cc e)
  follow-KnowsEpoch w old (some t) (inl still) e = absurd (cc still)
  follow-KnowsEpoch w old (some t) (inr (t', same, knows, extends)) e =
      let its : t ≡ t' = cc same in
      subst (λ (u : ChallengeTable). Knows u w.server.proof.challenge) (sym its) knows

  adopt_if_new-KnowsEpoch :
      (pool_id : ℕ) (w : World S) (old : Proof) (last : Challenge) (answer : Option Proof)
      (accesses : List (Access × Access))
      → KnowsEpoch (
          adopt_if_new w old last answer
            λ p. record_challenge accesses pool_id p.challenge w.challenges)
  adopt_if_new-KnowsEpoch pool_id w old last none accesses = λ e. absurd (cc e)
  adopt_if_new-KnowsEpoch pool_id w old last (some p) accesses =
      if_rule KnowsEpoch (nat_beq old.challenge p.challenge) (λ same e. absurd (cc e))
        λ other.
          adopt-KnowsEpoch w p last (record_challenge accesses pool_id p.challenge w.challenges)
            (record_challenge-Recorded accesses pool_id p.challenge w.challenges)

  -- If a task that sends a transaction again ends without having been told to stop, then an epoch has
  -- begun whose challenge is in the table, whether the node or the websocket brought the proof and
  -- whatever the accesses to the database were.
  pub resend_turn-Knows :
      (pool_id : ℕ) (w : World S) (old : Proof) (answer : Option Proof)
      (accesses : List (Access × Access))
      → (resend_turn pool_id w old false answer accesses).0 ≡ over
      → Knows
          (resend_turn pool_id w old false answer accesses).1.challenges
          (resend_turn pool_id w old false answer accesses).1.server.epoch_hashes.challenge
  unfolding resend_turn
  resend_turn-Knows pool_id w old answer accesses =
      if_rule KnowsEpoch (nat_beq old.challenge w.server.proof.challenge)
        (λ same. adopt_if_new-KnowsEpoch pool_id w old old.challenge answer accesses)
        λ other.
          follow-KnowsEpoch w old
            (record_challenge accesses pool_id w.server.proof.challenge w.challenges)
            (record_challenge-Recorded accesses pool_id w.server.proof.challenge w.challenges)

  adopt-none :
      (w : World S) (p : Proof) (last c : Challenge) (o : Option ChallengeTable)
      → p.challenge ≢ c
      → find_challenge p.challenge w.challenges.rows ≡ none
      → Recorded w.challenges c o
      → (find_challenge p.challenge (adopt w p last o).1.challenges.rows ≡ none)
        × ((adopt w p last o).1.server.epoch_hashes.challenge ≡ p.challenge)
  unfolding adopt
  adopt-none w p last c none other lacks r = (lacks, refl)
  adopt-none w p last c (some t) other lacks (inl still) = absurd (cc still)
  adopt-none w p last c (some t) other lacks (inr (t', same, knows, extends)) =
      let its : t ≡ t' = cc same in
      (
        ap (λ (u : ChallengeTable). find_challenge p.challenge u.rows) its
            ∙ Extends-none c p.challenge w.challenges t' other lacks extends,
        refl,
      )

  -- If the loop that waits for the next proof gets it from the node, while the proof in hand is still
  -- the old one, the epoch of the new challenge begins, but the challenge is still missing in a table
  -- that lacked it, whatever the accesses to the database.
  pub await_turn_misses :
      (pool_id : ℕ) (w : World S) (old p : Proof) (accesses : List (Access × Access))
      → old.challenge ≡ w.server.proof.challenge
      → p.challenge ≢ old.challenge
      → find_challenge p.challenge w.challenges.rows ≡ none
      → (find_challenge p.challenge (await_turn pool_id w old (some p) accesses).1.challenges.rows
          ≡ none)
        × ((await_turn pool_id w old (some p) accesses).1.server.epoch_hashes.challenge
            ≡ p.challenge)
  unfolding await_turn
  await_turn_misses pool_id w old p accesses same other lacks =
      let c = w.server.proof.challenge in
      let differs : nat_beq old.challenge p.challenge ≡ false = ground (arith, other) in
      rw ((nat_beq_iff old.challenge c).1 same, differs)
        (adopt-none w p w.server.last_challenge c (record_challenge accesses pool_id c w.challenges)
          (λ e. other (e ∙ sym same)) lacks
          (record_challenge-Recorded accesses pool_id c w.challenges))
