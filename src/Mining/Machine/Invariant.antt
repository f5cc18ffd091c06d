-- ===== src/Mining/Machine/Invariant.antt =====
-- What holds in every state that the tasks of `pool_submission_system`
-- (src/systems/pool_submission_system.rs) and the others reach.
use coal_pool_server.Prelude.{
  ℕ, ◌+◌, ◌≡◌, refl, sym, ap, ◌∙◌, inl, inr, Option, none, some, List, if_rule, subst, nat_beq, ltb,
}
use coal_pool_server.Prelude.Int.{pos, leb_ℤ}
use coal_pool_server.Cutoff.{get_cutoff}
use coal_pool_server.Database.{Access}
use coal_pool_server.State.{Drillx, Proof, Server}
use coal_pool_server.Submissions.{handle_submissions}
use coal_pool_server.Submissions.Epoch.{IsSound}
use coal_pool_server.Submissions.Batch.{handle_submissions-IsSound}
use coal_pool_server.Submissions.Frame.{handle_submissions-Frames}
use coal_pool_server.ReadyClients.{run_task, handle_ready_clients}
use coal_pool_server.ReadyClients.Frame.{handle_ready_clients-SameEpoch}
use coal_pool_server.Mining.{World, Turn, resend_turn}
use coal_pool_server.Mining.Attempt.{
  AttemptEnd, stale, invalid_hash, not_sent, no_blockhash, unconfirmed, mined, waiting, attempt,
}
use coal_pool_server.Mining.Machine.{
  Phase, idle, attempting, awaiting, recording, System, with_server, close_with, open_round,
  give_up, next_attempt, after_attempt, await, track_proof, IsFresh, Step, opens, attempts, spawns,
  awaits, records, resends, submits, serves, registers, tracks, connects, Reach, here, next,
}
use coal_pool_server.Mining.Machine.Turns.{
  IsUnderWay, Window, open-Window, same-Window, IsKept, clear-IsKept, Resets, resend_turn-Resets,
  await_turn-IsAwaited,
}

module _ (drillx : Drillx) where
  open drillx use {Solution}

  pub record IsFine (sys : System Solution) : Type 0 where
    pub sound : IsSound drillx sys.world.server.epoch_hashes
    pub window : Window sys.world.server sys.phase

  give_up-IsFine : (sys : System Solution) → IsFine (give_up sys)
  unfolding give_up
  give_up-IsFine sys =
      let (kept, opened) = clear-IsKept drillx sys.world.server in
      record { sound = kept; window = opened }

  -- The state is kept in a phase that the window suits.
  fine :
      (sys : System Solution) (st : Server Solution) (phase : Phase Solution)
      → sys.world.server ≡ st
      → sys.phase ≡ phase
      → IsKept drillx st
      → Window st phase
      → IsFine sys
  fine sys st phase e p kept window = record {
    sound = subst (λ (s : Server Solution). IsSound drillx s.epoch_hashes) (sym e) kept;
    window = rw (e, p) window;
  }

  close_with-IsFine :
      (sys : System Solution) (o : Option Solution) → IsFine sys → IsFine (close_with sys o)
  close_with-IsFine sys none f = f
  close_with-IsFine sys (some best) f = record { sound = f.sound; window = inr (inl refl) }

  next_attempt-IsFine :
      (sys : System Solution) (i : ℕ) (old : Proof) (best : Solution)
      → IsUnderWay sys.world.server old
      → IsFine sys
      → IsFine (next_attempt sys i old best)
  unfolding next_attempt
  next_attempt-IsFine sys i old best way f =
      if_rule IsFine (ltb (i + 1) 10) (λ more. record { sound = f.sound; window = way })
        λ none. give_up-IsFine sys

  after_attempt-IsFine :
      (sys : System Solution) (i : ℕ) (old : Proof) (best : Solution) (v : AttemptEnd)
      → IsUnderWay sys.world.server old
      → IsFine sys
      → IsFine (after_attempt sys i old best v)
  unfolding after_attempt
  after_attempt-IsFine sys i old best (stale p) way f =
      give_up-IsFine (with_server sys (record sys.world.server { proof = p }))
  after_attempt-IsFine sys i old best invalid_hash way f = give_up-IsFine sys
  after_attempt-IsFine sys i old best not_sent way f = give_up-IsFine sys
  after_attempt-IsFine sys i old best no_blockhash way f = next_attempt-IsFine sys i old best way f
  after_attempt-IsFine sys i old best unconfirmed way f = next_attempt-IsFine sys i old best way f
  after_attempt-IsFine sys i old best (mined signature) way f = record {
    sound = f.sound;
    window = way;
  }
  after_attempt-IsFine sys i old best waiting way f = f

  await-IsFine :
      (pool_id : ℕ) (sys : System Solution) (old : Proof) (answer : Option Proof)
      (accesses : List (Access × Access))
      → IsUnderWay sys.world.server old
      → IsFine sys
      → IsFine (await pool_id sys old answer accesses)
  unfolding await
  await-IsFine pool_id sys old answer accesses way f =
      let (kept, window) =
        await_turn-IsAwaited drillx pool_id sys.world old answer accesses f.sound way in
      record { sound = kept; window = window }

  resends-IsFine :
      (sys : System Solution) (r : Turn × World Solution) (left : List Proof)
      → Resets drillx sys.world r
      → IsFine sys
      → IsFine (record sys { world = r.1; resenders = left })
  resends-IsFine sys r left (inl same) f =
      fine (record sys { world = r.1; resenders = left }) sys.world.server sys.phase same refl
        f.sound f.window
  resends-IsFine sys r left (inr (kept, opened)) f = record {
    sound = kept;
    window = open-Window r.1.server sys.phase opened;
  }

  submits-IsFine :
      (sys : System Solution) (msgs : _)
      → IsFine sys
      → IsFine (with_server sys (handle_submissions drillx sys.world.server msgs).0)
  submits-IsFine sys msgs f =
      let st = sys.world.server in
      let st' = (handle_submissions drillx st msgs).0 in
      let (same, challenge) = handle_submissions-Frames drillx st msgs in
      record {
        sound = handle_submissions-IsSound drillx st msgs f.sound;
        window =
            same-Window st st' sys.phase
              (ap (λ (s : Server Solution). s.submission_window.closed) same)
              (ap (λ (s : Server Solution). s.proof.challenge) same) challenge f.window;
      }

  -- A fresh proof does not bring the challenge of the epoch, unless it has been in hand.
  fresh-IsUnderWay :
      (st : Server Solution) (p old : Proof)
      → IsFresh st p
      → IsUnderWay st old
      → IsUnderWay (record st { proof = p }) old
  fresh-IsUnderWay st p old (inr other) way = inr (inr (λ e. other (sym e)))
  fresh-IsUnderWay st p old (inl same) (inl opened) = inl opened
  fresh-IsUnderWay st p old (inl same) (inr (inl e)) = inr (inl (same ∙ e))
  fresh-IsUnderWay st p old (inl same) (inr (inr other)) = inr (inr (λ e. other (e ∙ same)))

  fresh-Window :
      (st : Server Solution) (p : Proof) (phase : Phase Solution)
      → IsFresh st p
      → Window st phase
      → Window (record st { proof = p }) phase
  fresh-Window st p idle fresh h = h
  fresh-Window st p (attempting i old best) fresh h = fresh-IsUnderWay st p old fresh h
  fresh-Window st p (awaiting old) fresh h = fresh-IsUnderWay st p old fresh h
  fresh-Window st p recording fresh h = h

  tracks-IsFine :
      (sys : System Solution) (p : Proof)
      → IsFresh sys.world.server p
      → IsFine sys
      → IsFine (with_server sys (track_proof sys.world.server p))
  unfolding track_proof
  tracks-IsFine sys p fresh f =
      if_rule (λ (st : Server Solution). IsFine (with_server sys st))
        (nat_beq sys.world.server.last_challenge p.challenge) (λ old. f)
        λ new. record {
          sound = f.sound;
          window = fresh-Window sys.world.server p sys.phase fresh f.window;
        }

  pub Step-IsFine :
      (pool_id : ℕ) {s t : System Solution} → Step drillx pool_id s t → IsFine s → IsFine t
  unfolding open_round run_task
  Step-IsFine pool_id (opens sys now e) f =
      if_rule IsFine (leb_ℤ (get_cutoff sys.world.server.proof 3 now) (pos 0))
        (λ up. close_with-IsFine sys sys.world.server.epoch_hashes.best_hash.solution f) λ early. f
  Step-IsFine pool_id (attempts sys i old best found e) f =
      after_attempt-IsFine sys i old best (attempt drillx best found)
        (subst (Window sys.world.server) e f.window) f
  Step-IsFine pool_id (spawns sys i old best e) f = record { sound = f.sound; window = f.window }
  Step-IsFine pool_id (awaits sys old answer accesses e) f =
      await-IsFine pool_id sys old answer accesses (subst (Window sys.world.server) e f.window) f
  Step-IsFine pool_id (records sys t e) f = record {
    sound = f.sound;
    window = subst (Window sys.world.server) e f.window;
  }
  Step-IsFine pool_id (resends sys before after old stop answer accesses e going) f =
      resends-IsFine sys (resend_turn pool_id sys.world old stop answer accesses) _
        (resend_turn-Resets drillx pool_id sys.world old stop answer accesses going) f
  Step-IsFine pool_id (submits sys msgs) f = submits-IsFine sys msgs f
  Step-IsFine pool_id (serves sys now room) f =
      let st = sys.world.server in
      let (proof, hashes, window) = handle_ready_clients-SameEpoch st now in
      record {
        sound = subst (IsSound drillx) (sym hashes) f.sound;
        window =
            same-Window st (handle_ready_clients st now).0 sys.phase (ap (λ w. w.closed) window)
              (ap (λ p. p.challenge) proof) (ap (λ e. e.challenge) hashes) f.window;
      }
  Step-IsFine pool_id (registers sys before after task e) f = record {
    sound = f.sound;
    window =
        same-Window sys.world.server (run_task task sys.world.server) sys.phase refl refl refl
          f.window;
  }
  Step-IsFine pool_id (tracks sys p fresh) f = tracks-IsFine sys p fresh f
  Step-IsFine pool_id (connects sys app_state ready_clients pongs) f = record {
    sound = f.sound;
    window =
        same-Window sys.world.server
          (record sys.world.server {
            app_state = app_state;
            ready_clients = ready_clients;
            pongs = pongs;
          })
          sys.phase refl refl refl f.window;
  }

  -- If the epoch's hashes are sound and the window suits the phase (it is open when the system is idle or
  -- only left to record), then both hold in every state that the tasks reach, in whatever order they take
  -- turns and however late a range of nonces is registered, as long as no notification brings back the
  -- challenge of the epoch in place of another one and the counter has room for a range for each ready
  -- client.
  pub Reach-IsFine :
      (pool_id : ℕ) {s t : System Solution} → IsFine s → Reach drillx pool_id s t → IsFine t
  Reach-IsFine pool_id f here = f
  Reach-IsFine pool_id f (next r step) = Step-IsFine pool_id step (Reach-IsFine pool_id f r)
