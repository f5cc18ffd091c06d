-- ===== src/Mining.antt =====
-- `pool_submission_system` (src/systems/pool_submission_system.rs): when the minute of a challenge is
-- over, the server closes the submission window, sends the best solution, and opens the window again for
-- the next challenge, or for the same one if it gives up. Here is what the system does to the state that
-- it shares; Attempt is what it sends, and Machine how its parts and the other tasks take turns.
pub mod Attempt
pub mod Machine
pub mod Records
pub mod Success
mod Tests
use coal_pool_server.Prelude.{
  ℕ, Bool, true, false, Option, none, some, List, [], ◌∷◌, if◌then◌else◌, nat_beq,
}
use coal_pool_server.Database.{Access}
use coal_pool_server.Database.Challenges.{ChallengeTable, record_challenge}
use coal_pool_server.State.{Challenge, Proof, Server}

-- The shared state with the table of challenges.
pub record World (S : Type 0) : Type 0 where
  pub server : Server S
  pub challenges : ChallengeTable

-- How a turn of a loop ends: the loop is over, it takes another turn, or it is stuck in the loop that
-- records a challenge.
pub data Turn : Type 0 where
  over again stuck : Turn

module _ {S : Type 0} where
  -- The server gives up: nonce, ranges and hashes are reset, and the window opens.
  unfoldable pub clear : Server S → Server S
  clear st = record st {
    nonce = 0;
    client_nonce_ranges = [];
    epoch_hashes = record st.epoch_hashes {
      best_hash = record { solution = none; difficulty = 0 };
      submissions = [];
    };
    submission_window = record { closed = false };
  }

  -- The same for a new challenge.
  unfoldable pub start_epoch : Server S → Challenge → Server S
  start_epoch st challenge = record st {
    nonce = 0;
    client_nonce_ranges = [];
    epoch_hashes = record {
      challenge = challenge;
      best_hash = record { solution = none; difficulty = 0 };
      submissions = [];
    };
    submission_window = record { closed = false };
  }

  -- What follows the recording of a challenge, by what has become of it.
  abbrev pub recorded :
      Option ChallengeTable → World S → (ChallengeTable → World S) → Turn × World S
  recorded none w next = (stuck, w)
  recorded (some t) w next = (over, next t)

  -- A proof that a call has brought, with another challenge, begins an epoch.
  unfoldable pub adopt : World S → Proof → Challenge → Option ChallengeTable → Turn × World S
  unfolding start_epoch
  adopt w p last table =
      let st = start_epoch (record w.server { proof = p; last_challenge = last }) p.challenge in
      recorded table (record w { server = st }) λ t. record { server = st; challenges = t }

  abbrev pub adopt_if_new :
      World S → Proof → Challenge → Option Proof → (Proof → Option ChallengeTable) → Turn × World S
  adopt_if_new w old last none table = (again, w)
  adopt_if_new w old last (some p) table =
      if nat_beq old.challenge p.challenge then (again, w) else adopt w p last (table p)

  -- The websocket has brought the new proof: first the challenge is recorded, then the epoch begins.
  unfoldable pub follow : World S → Proof → Option ChallengeTable → Turn × World S
  unfolding start_epoch
  follow w old table =
      let st = record w.server { last_challenge = old.challenge } in
      recorded table (record w { server = st })
        λ t. record { server = start_epoch st st.proof.challenge; challenges = t }

  -- A turn of the task that sends the transaction again, after its sending: `stop` is the message that
  -- ends it, `answer` what the node says of the proof.
  unfoldable pub resend_turn :
      ℕ → World S → Proof → Bool → Option Proof → List (Access × Access) → Turn × World S
  unfolding adopt follow
  resend_turn pool_id w old stop answer accesses =
      if stop
      then (over, w)
      else if nat_beq old.challenge w.server.proof.challenge
      then adopt_if_new w old old.challenge answer
          (λ p. record_challenge accesses pool_id p.challenge w.challenges)
      else follow w old (record_challenge accesses pool_id w.server.proof.challenge w.challenges)

  -- The epoch begins, and then its challenge is recorded.
  unfoldable pub catch_up : World S → Option ChallengeTable → Turn × World S
  unfolding start_epoch
  catch_up w table =
      let st = start_epoch w.server w.server.proof.challenge in
      recorded table (record w { server = st }) λ t. record { server = st; challenges = t }

  -- A turn of the loop that waits for the next proof, after a transaction that was final. The challenge
  -- that it records is that of the proof that it read before.
  unfoldable pub await_turn :
      ℕ → World S → Proof → Option Proof → List (Access × Access) → Turn × World S
  unfolding adopt catch_up
  await_turn pool_id w old answer accesses =
      let table = record_challenge accesses pool_id w.server.proof.challenge w.challenges in
      if nat_beq old.challenge w.server.proof.challenge
      then adopt_if_new w old w.server.last_challenge answer (λ p. table)
      else if nat_beq w.server.proof.challenge w.server.epoch_hashes.challenge
      then (over, w)
      else catch_up w table
