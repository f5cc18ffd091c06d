-- ===== src/Mining/Machine/Turns.antt =====
-- Each turn of the parts of `pool_submission_system`
-- (src/systems/pool_submission_system.rs) keeps the epoch and the window in order.
use coal_pool_server.Prelude.{
  ℕ, ◌≡◌, refl, ◌∙◌, ◌≢◌, ◌⊎◌, inl, inr, Bool, false, Option, none, some, List, [], arith, if_rule,
  nat_beq,
}
use coal_pool_server.Database.{Access}
use coal_pool_server.Database.Challenges.{ChallengeTable}
use coal_pool_server.State.{Challenge, Drillx, Proof, Server}
use coal_pool_server.Submissions.Epoch.{IsSound}
use coal_pool_server.Mining.{
  World, Turn, stuck, clear, start_epoch, adopt, adopt_if_new, follow, catch_up, resend_turn,
  await_turn,
}
use coal_pool_server.Mining.Machine.{Phase, idle, attempting, awaiting, recording, phase_after}

module _ {S : Type 0} where
  abbrev pub IsOpen : Server S → Type 0
  IsOpen st = st.submission_window.closed ≡ false

  -- While the system works on an old proof the window is open, or the old proof is the one in hand, or
  -- the epoch is still that of another challenge.
  abbrev pub IsUnderWay : Server S → Proof → Type 0
  IsUnderWay st old =
      IsOpen st
      ⊎ ((st.proof.challenge ≡ old.challenge) ⊎ (st.epoch_hashes.challenge ≢ st.proof.challenge))

  -- The window is open unless the system is at work.
  abbrev pub Window : Server S → Phase S → Type 0
  Window st idle = IsOpen st
  Window st (attempting i old best) = IsUnderWay st old
  Window st (awaiting old) = IsUnderWay st old
  Window st recording = IsOpen st

  -- An open window suits every phase.
  pub open-Window : (st : Server S) (phase : Phase S) → IsOpen st → Window st phase
  open-Window st idle h = h
  open-Window st (attempting i old best) h = inl h
  open-Window st (awaiting old) h = inl h
  open-Window st recording h = h

  -- The window's part depends on these three only.
  pub same-Window :
      (st st' : Server S) (phase : Phase S)
      → st'.submission_window.closed ≡ st.submission_window.closed
      → st'.proof.challenge ≡ st.proof.challenge
      → st'.epoch_hashes.challenge ≡ st.epoch_hashes.challenge
      → Window st phase
      → Window st' phase
  same-Window st st' idle c p e h = c ∙ h
  same-Window st st' (attempting i old best) c p e h = grind (arith, c, p, e, h)
  same-Window st st' (awaiting old) c p e h = grind (arith, c, p, e, h)
  same-Window st st' recording c p e h = c ∙ h

module _ (drillx : Drillx) where
  open drillx use {Solution}

  -- The part of it that speaks of the state alone.
  abbrev pub IsKept : Server Solution → Type 0
  IsKept st = IsSound drillx st.epoch_hashes

  empty-IsSound :
      (challenge : Challenge)
      → IsSound drillx (record {
        challenge = challenge;
        best_hash = record { solution = none; difficulty = 0 };
        submissions = [];
      })
  empty-IsSound challenge = record { distinct = tt; recorded = tt; best = (refl, refl) }

  pub clear-IsKept : (st : Server Solution) → IsKept (clear st) × IsOpen (clear st)
  unfolding clear
  clear-IsKept st = (empty-IsSound st.epoch_hashes.challenge, refl)

  start_epoch-IsKept :
      (st : Server Solution) (c : Challenge) → IsKept (start_epoch st c) × IsOpen (start_epoch st c)
  unfolding start_epoch
  start_epoch-IsKept st c = (empty-IsSound c, refl)

  -- A turn leaves the state as it is, or begins an epoch.
  abbrev pub Resets : World Solution → Turn × World Solution → Type 0
  Resets w (turn, w') = (w'.server ≡ w.server) ⊎ (IsKept w'.server × IsOpen w'.server)

  adopt-IsKept :
      (w : World Solution) (p : Proof) (last : Challenge) (table : Option ChallengeTable)
      → IsKept (adopt w p last table).1.server × IsOpen (adopt w p last table).1.server
  unfolding adopt
  adopt-IsKept w p last none =
      start_epoch-IsKept (record w.server { proof = p; last_challenge = last }) p.challenge
  adopt-IsKept w p last (some t) =
      start_epoch-IsKept (record w.server { proof = p; last_challenge = last }) p.challenge

  adopt_if_new-Resets :
      (w : World Solution) (old : Proof) (last : Challenge) (answer : Option Proof)
      (table : Proof → Option ChallengeTable)
      → Resets w (adopt_if_new w old last answer table)
  adopt_if_new-Resets w old last none table = inl refl
  adopt_if_new-Resets w old last (some p) table =
      if_rule (Resets w) (nat_beq old.challenge p.challenge) (λ same. inl refl)
        λ other. inr (adopt-IsKept w p last (table p))

  follow-Resets :
      (w : World Solution) (old : Proof) (table : Option ChallengeTable)
      → (follow w old table).0 ≢ stuck
      → Resets w (follow w old table)
  unfolding follow
  follow-Resets w old none going = absurd (going refl)
  follow-Resets w old (some t) going = inr (
      start_epoch-IsKept (record w.server { last_challenge = old.challenge })
        w.server.proof.challenge)

  pub resend_turn-Resets :
      (pool_id : ℕ) (w : World Solution) (old : Proof) (stop : Bool) (answer : Option Proof)
      (accesses : List (Access × Access))
      → (resend_turn pool_id w old stop answer accesses).0 ≢ stuck
      → Resets w (resend_turn pool_id w old stop answer accesses)
  unfolding resend_turn
  resend_turn-Resets pool_id w old stop answer accesses =
      let P = λ (r : Turn × World Solution). r.0 ≢ stuck → Resets w r in
      if_rule P stop (λ stops going. inl refl)
        λ goes_on.
          if_rule P (nat_beq old.challenge w.server.proof.challenge)
            (λ same going. adopt_if_new-Resets w old old.challenge answer _)
            λ other. follow-Resets w old _

  -- A turn of the wait keeps what holds of the phase.
  abbrev pub IsAwaited : Proof → Turn × World Solution → Type 0
  IsAwaited old (turn, w) = IsKept w.server × Window w.server (phase_after turn old)

  adopt_if_new-IsAwaited :
      (w : World Solution) (old : Proof) (last : Challenge) (answer : Option Proof)
      (table : Proof → Option ChallengeTable)
      → IsKept w.server
      → IsUnderWay w.server old
      → IsAwaited old (adopt_if_new w old last answer table)
  adopt_if_new-IsAwaited w old last none table kept way = (kept, way)
  adopt_if_new-IsAwaited w old last (some p) table kept way =
      if_rule (IsAwaited old) (nat_beq old.challenge p.challenge) (λ same. (kept, way))
        λ other.
          let (kept', opened) = adopt-IsKept w p last (table p) in
          (
            kept',
            open-Window (adopt w p last (table p)).1.server
                (phase_after (adopt w p last (table p)).0 old) opened,
          )

  catch_up-IsAwaited :
      (w : World Solution) (old : Proof) (table : Option ChallengeTable)
      → IsAwaited old (catch_up w table)
  unfolding catch_up
  catch_up-IsAwaited w old none = start_epoch-IsKept w.server w.server.proof.challenge
  catch_up-IsAwaited w old (some t) = start_epoch-IsKept w.server w.server.proof.challenge

  pub await_turn-IsAwaited :
      (pool_id : ℕ) (w : World Solution) (old : Proof) (answer : Option Proof)
      (accesses : List (Access × Access))
      → IsKept w.server
      → IsUnderWay w.server old
      → IsAwaited old (await_turn pool_id w old answer accesses)
  unfolding await_turn
  await_turn-IsAwaited pool_id w old answer accesses kept way =
      if_rule (IsAwaited old) (nat_beq old.challenge w.server.proof.challenge)
        (λ same. adopt_if_new-IsAwaited w old w.server.last_challenge answer _ kept way)
        λ other.
          if_rule (IsAwaited old) (nat_beq w.server.proof.challenge w.server.epoch_hashes.challenge)
            (λ current. (kept, grind (arith, way, other, current)))
            λ late. catch_up-IsAwaited w old _
