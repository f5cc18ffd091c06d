-- ===== src/Mining/Machine/Quiet.antt =====
-- What the turns of `pool_submission_system` (src/systems/pool_submission_system.rs) do to the counter of nonces
-- and to the ranges that are registered: nothing, or they reset both.
use coal_pool_server.Prelude.{
  ℕ, ◌+◌, ◌≡◌, refl, ◌⊎◌, inl, inr, Bool, Option, none, some, List, [], if_rule, nat_beq, ltb,
}
use coal_pool_server.Prelude.HashMap.{HashMap}
use coal_pool_server.Database.{Access}
use coal_pool_server.Database.Challenges.{ChallengeTable}
use coal_pool_server.State.{Pubkey, Challenge, Proof, Range, Server}
use coal_pool_server.Mining.{
  World, Turn, adopt, adopt_if_new, follow, catch_up, clear, start_epoch, resend_turn, await_turn,
}
use coal_pool_server.Mining.Attempt.{
  AttemptEnd, stale, invalid_hash, not_sent, no_blockhash, unconfirmed, mined, waiting,
}
use coal_pool_server.Mining.Machine.{System, close_with, give_up, next_attempt, after_attempt}

module _ {S : Type 0} where
  abbrev pub ranges_of : Server S → ℕ × HashMap Pubkey (List Range)
  ranges_of st = (st.nonce, st.client_nonce_ranges)

  -- The counter and the ranges are the same, or an epoch begins without any.
  abbrev pub Turned : Server S → Server S → Type 0
  Turned st st' = (ranges_of st' ≡ ranges_of st) ⊎ (ranges_of st' ≡ (0, []))

  adopt-Turned :
      (w : World S) (p : Proof) (last : Challenge) (table : Option ChallengeTable)
      → Turned w.server (adopt w p last table).1.server
  unfolding adopt start_epoch
  adopt-Turned w p last none = inr refl
  adopt-Turned w p last (some t) = inr refl

  adopt_if_new-Turned :
      (w : World S) (old : Proof) (last : Challenge) (answer : Option Proof)
      (table : Proof → Option ChallengeTable)
      → Turned w.server (adopt_if_new w old last answer table).1.server
  adopt_if_new-Turned w old last none table = inl refl
  adopt_if_new-Turned w old last (some p) table =
      if_rule (λ (r : Turn × World S). Turned w.server r.1.server)
        (nat_beq old.challenge p.challenge) (λ same. inl refl)
        λ other. adopt-Turned w p last (table p)

  follow-Turned :
      (w : World S) (old : Proof) (table : Option ChallengeTable)
      → Turned w.server (follow w old table).1.server
  unfolding follow start_epoch
  follow-Turned w old none = inl refl
  follow-Turned w old (some t) = inr refl

  catch_up-Turned :
      (w : World S) (table : Option ChallengeTable) → Turned w.server (catch_up w table).1.server
  unfolding catch_up start_epoch
  catch_up-Turned w none = inr refl
  catch_up-Turned w (some t) = inr refl

  pub resend_turn-Turned :
      (pool_id : ℕ) (w : World S) (old : Proof) (stop : Bool) (answer : Option Proof)
      (accesses : List (Access × Access))
      → Turned w.server (resend_turn pool_id w old stop answer accesses).1.server
  unfolding resend_turn
  resend_turn-Turned pool_id w old stop answer accesses =
      let P = λ (r : Turn × World S). Turned w.server r.1.server in
      if_rule P stop (λ stops. inl refl)
        λ goes_on.
          if_rule P (nat_beq old.challenge w.server.proof.challenge)
            (λ same. adopt_if_new-Turned w old old.challenge answer _)
            λ other. follow-Turned w old _

  pub await_turn-Turned :
      (pool_id : ℕ) (w : World S) (old : Proof) (answer : Option Proof)
      (accesses : List (Access × Access))
      → Turned w.server (await_turn pool_id w old answer accesses).1.server
  unfolding await_turn
  await_turn-Turned pool_id w old answer accesses =
      let P = λ (r : Turn × World S). Turned w.server r.1.server in
      if_rule P (nat_beq old.challenge w.server.proof.challenge)
        (λ same. adopt_if_new-Turned w old w.server.last_challenge answer _)
        λ other.
          if_rule P (nat_beq w.server.proof.challenge w.server.epoch_hashes.challenge)
            (λ current. inl refl) λ late. catch_up-Turned w _

  -- A turn that spawns no registration and ends none.
  abbrev pub IsQuiet : System S → System S → Type 0
  IsQuiet sys sys' = (sys'.pending ≡ sys.pending) × Turned sys.world.server sys'.world.server

  pub give_up-IsQuiet : (sys : System S) → IsQuiet sys (give_up sys)
  unfolding give_up clear
  give_up-IsQuiet sys = (refl, inr refl)

  next_attempt-IsQuiet :
      (sys : System S) (i : ℕ) (old : Proof) (best : S) → IsQuiet sys (next_attempt sys i old best)
  unfolding next_attempt
  next_attempt-IsQuiet sys i old best =
      if_rule (IsQuiet sys) (ltb (i + 1) 10) (λ more. (refl, inl refl)) λ none. give_up-IsQuiet sys

  pub after_attempt-IsQuiet :
      (sys : System S) (i : ℕ) (old : Proof) (best : S) (v : AttemptEnd)
      → IsQuiet sys (after_attempt sys i old best v)
  unfolding after_attempt give_up clear
  after_attempt-IsQuiet sys i old best (stale p) = (refl, inr refl)
  after_attempt-IsQuiet sys i old best invalid_hash = give_up-IsQuiet sys
  after_attempt-IsQuiet sys i old best not_sent = give_up-IsQuiet sys
  after_attempt-IsQuiet sys i old best no_blockhash = next_attempt-IsQuiet sys i old best
  after_attempt-IsQuiet sys i old best unconfirmed = next_attempt-IsQuiet sys i old best
  after_attempt-IsQuiet sys i old best (mined signature) = (refl, inl refl)
  after_attempt-IsQuiet sys i old best waiting = (refl, inl refl)

  pub close_with-IsQuiet : (sys : System S) (o : Option S) → IsQuiet sys (close_with sys o)
  close_with-IsQuiet sys none = (refl, inl refl)
  close_with-IsQuiet sys (some best) = (refl, inl refl)
