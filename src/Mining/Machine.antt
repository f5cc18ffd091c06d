-- ===== src/Mining/Machine.antt =====
-- How the parts of `pool_submission_system` (src/systems/pool_submission_system.rs) and the other tasks of
-- the server take turns. The main task of the system is in one of four phases, and each transaction that
-- it sends has a task that sends it again. A step is one turn of a task. The ranges of nonces that
-- `handle_ready_clients_system` gives out are registered by tasks of their own, at any later time.
pub mod Turns
pub mod Invariant
pub mod Quiet
pub mod Reserved
use coal_pool_server.Prelude.{
  ℕ, ◌+◌, ◌*◌, ◌<◌, ◌≡◌, ◌≢◌, ◌⊎◌, Bool, true, false, Option, none, some, List, [], ◌∷◌, ◌++◌,
  if◌then◌else◌, ltb, u64_mod, length, nat_beq,
}
use coal_pool_server.Prelude.HashMap.{HashMap}
use coal_pool_server.Prelude.Int.{pos, leb_ℤ}
use coal_pool_server.Cutoff.{get_cutoff}
use coal_pool_server.Database.{Access}
use coal_pool_server.Database.Challenges.{ChallengeTable}
use coal_pool_server.State.{Pubkey, SocketAddr, Challenge, Drillx, Proof, AppState, Server}
use coal_pool_server.Submissions.{handle_submissions}
use coal_pool_server.ReadyClients.{Sent, run_task, nonce_range_size, handle_ready_clients}
use coal_pool_server.Mining.{World, Turn, over, again, stuck, clear, resend_turn, await_turn}
use coal_pool_server.Mining.Attempt.{
  Findings, AttemptEnd, stale, invalid_hash, not_sent, no_blockhash, unconfirmed, mined, waiting,
  attempt,
}

-- The main task waits for its time, is in the `i`-th turn of its attempts for a proof and a solution,
-- waits for the next proof, or is only left to record a challenge.
pub data Phase (S : Type 0) : Type 0 where
  idle : Phase S
  attempting : ℕ → Proof → S → Phase S
  awaiting : Proof → Phase S
  recording : Phase S

-- `resenders` has the old proof of each task that sends a transaction again, and `pending` the tasks that
-- have a range of nonces to register.
pub record System (S : Type 0) : Type 0 where
  pub world : World S
  pub phase : Phase S
  pub resenders : List Proof
  pub pending : List Sent

module _ {S : Type 0} where
  abbrev pub with_server : System S → Server S → System S
  with_server sys st = record sys { world = record sys.world { server = st } }

  -- The window closes if there is a solution, which is then the one that is sent.
  abbrev pub close_with : System S → Option S → System S
  close_with sys none = sys
  close_with sys (some best) = record {
    world = record sys.world {
      server = record sys.world.server { submission_window = record { closed = true } };
    };
    phase = attempting 0 sys.world.server.proof best;
    resenders = sys.resenders;
    pending = sys.pending;
  }

  -- The top of the loop, with three seconds of the minute kept for the transaction.
  unfoldable pub open_round : System S → ℕ → System S
  unfolding get_cutoff
  open_round sys now =
      if leb_ℤ (get_cutoff sys.world.server.proof 3 now) (pos 0)
      then close_with sys sys.world.server.epoch_hashes.best_hash.solution
      else sys

  -- The end of a round without success.
  unfoldable pub give_up : System S → System S
  unfolding clear
  give_up sys = record (with_server sys (clear sys.world.server)) { phase = idle }

  -- The next of the ten turns, if there is one.
  unfoldable pub next_attempt : System S → ℕ → Proof → S → System S
  unfolding give_up
  next_attempt sys i old best =
      if ltb (i + 1) 10 then record sys { phase = attempting (i + 1) old best } else give_up sys

  unfoldable pub after_attempt : System S → ℕ → Proof → S → AttemptEnd → System S
  unfolding next_attempt
  after_attempt sys i old best (stale p) =
      give_up (with_server sys (record sys.world.server { proof = p }))
  after_attempt sys i old best invalid_hash = give_up sys
  after_attempt sys i old best not_sent = give_up sys
  after_attempt sys i old best no_blockhash = next_attempt sys i old best
  after_attempt sys i old best unconfirmed = next_attempt sys i old best
  after_attempt sys i old best (mined signature) = record sys { phase = awaiting old }
  after_attempt sys i old best waiting = sys

  abbrev pub phase_after : Turn → Proof → Phase S
  phase_after over old = idle
  phase_after again old = awaiting old
  phase_after stuck old = recording

  unfoldable pub await : ℕ → System S → Proof → Option Proof → List (Access × Access) → System S
  unfolding await_turn
  await pool_id sys old answer accesses =
      let (turn, w) = await_turn pool_id sys.world old answer accesses in
      record sys { world = w; phase = phase_after turn old }

  -- The websocket brings a proof (`proof_tracking_system` of src/systems/proof_tracking_system.rs).
  unfoldable pub track_proof : Server S → Proof → Server S
  track_proof st p = if nat_beq st.last_challenge p.challenge then st else record st { proof = p }

  -- Its challenge is that of the proof in hand, or not that of the epoch: the chain comes back to no
  -- challenge.
  abbrev pub IsFresh : Server S → Proof → Type 0
  IsFresh st p = (p.challenge ≡ st.proof.challenge) ⊎ (p.challenge ≢ st.epoch_hashes.challenge)

-- The tasks that are left when one of them has taken a turn.
abbrev pub left_after : Turn → List Proof → Proof → List Proof → List Proof
left_after over before old after = before ++ after
left_after again before old after = before ++ old ∷ after
left_after stuck before old after = before ++ old ∷ after

module _ (drillx : Drillx) (pool_id : ℕ) where
  open drillx use {Solution}

  pub data Step : System Solution → System Solution → Type 0 where
    opens : (sys : System Solution) (now : ℕ) → sys.phase ≡ idle → Step sys (open_round sys now)
    attempts :
        (sys : System Solution) (i : ℕ) (old : Proof) (best : Solution) (f : Findings)
        → sys.phase ≡ attempting i old best
        → Step sys (after_attempt sys i old best (attempt drillx best f))
    spawns :
        (sys : System Solution) (i : ℕ) (old : Proof) (best : Solution)
        → sys.phase ≡ attempting i old best
        → Step sys (record sys { resenders = old ∷ sys.resenders })
    awaits :
        (sys : System Solution) (old : Proof) (answer : Option Proof)
        (accesses : List (Access × Access))
        → sys.phase ≡ awaiting old
        → Step sys (await pool_id sys old answer accesses)
    records :
        (sys : System Solution) (t : ChallengeTable)
        → sys.phase ≡ recording
        → Step sys (record sys { world = record sys.world { challenges = t }; phase = idle })
    resends :
        (sys : System Solution) (before after : List Proof) (old : Proof) (stop : Bool)
        (answer : Option Proof) (accesses : List (Access × Access))
        → sys.resenders ≡ before ++ old ∷ after
        → (resend_turn pool_id sys.world old stop answer accesses).0 ≢ stuck
        → Step sys (record sys {
          world = (resend_turn pool_id sys.world old stop answer accesses).1;
          resenders =
              left_after
                (resend_turn pool_id sys.world old stop answer accesses).0
                before
                old
                after;
        })
    submits :
        (sys : System Solution) (msgs : List (SocketAddr × Solution × Pubkey))
        → Step sys (with_server sys (handle_submissions drillx sys.world.server msgs).0)
    serves :
        (sys : System Solution) (now : ℕ)
        → sys.world.server.nonce + length sys.world.server.ready_clients * nonce_range_size
          < u64_mod
        → Step sys (record (with_server sys (handle_ready_clients sys.world.server now).0) {
          pending = sys.pending ++ (handle_ready_clients sys.world.server now).1;
        })
    registers :
        (sys : System Solution) (before after : List Sent) (task : Sent)
        → sys.pending ≡ before ++ task ∷ after
        → Step sys (record (with_server sys (run_task task sys.world.server)) {
          pending = before ++ after;
        })
    tracks :
        (sys : System Solution) (p : Proof)
        → IsFresh sys.world.server p
        → Step sys (with_server sys (track_proof sys.world.server p))
    connects :
        (sys : System Solution) (app_state : AppState)
        (ready_clients : HashMap SocketAddr (Unit {0})) (pongs : HashMap SocketAddr ℕ)
        → Step sys (
            with_server sys (record sys.world.server {
              app_state = app_state;
              ready_clients = ready_clients;
              pongs = pongs;
            }))

  pub data Reach (start : System Solution) : System Solution → Type 0 where
    here : Reach start start
    next : {s t : System Solution} → Reach start s → Step s t → Reach start t
