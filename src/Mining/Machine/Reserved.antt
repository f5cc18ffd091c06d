-- ===== src/Mining/Machine/Reserved.antt =====
-- Who may submit which nonce while the tasks of `pool_submission_system`
-- (src/systems/pool_submission_system.rs) and `handle_ready_clients_system` take turns, as long as no range of
-- nonces is left to register when an epoch begins.
use coal_pool_server.Prelude.{
  ℕ, ◌+◌, ◌*◌, ◌<◌, length, u64_mod, ◌≡◌, refl, sym, ap, ◌⊎◌, inl, inr, List, [], ◌∷◌, ◌++◌,
  if_rule, subst, nat_beq,
}
use coal_pool_server.Prelude.Int.{pos, leb_ℤ}
use coal_pool_server.Prelude.HashMap.{HashMap}
use coal_pool_server.Cutoff.{get_cutoff}
use coal_pool_server.State.{Pubkey, Drillx, Range, Server}
use coal_pool_server.Submissions.{handle_submissions}
use coal_pool_server.Submissions.Frame.{handle_submissions-Frames}
use coal_pool_server.ReadyClients.{
  Sent, register_range, run_task, nonce_range_size, handle_ready_clients,
}
use coal_pool_server.ReadyClients.Ownership.{
  Owns, IsExclusive, Gives, Gives-append, Gives-append_left, Gives-append_right, fewer-IsExclusive,
  Owns-register_range, handle_ready_clients-Reserves,
}
use coal_pool_server.Mining.{resend_turn}
use coal_pool_server.Mining.Attempt.{attempt}
use coal_pool_server.Mining.Machine.{
  System, with_server, close_with, open_round, after_attempt, await, track_proof, Step, opens,
  attempts, spawns, awaits, records, resends, submits, serves, registers, tracks, connects,
}
use coal_pool_server.Mining.Machine.Quiet.{
  ranges_of, IsQuiet, after_attempt-IsQuiet, close_with-IsQuiet, resend_turn-Turned,
  await_turn-Turned,
}

-- A nonce that is registered for a key, or is left to register for it.
abbrev pub MayOwn : HashMap Pubkey (List Range) → List Sent → Pubkey → ℕ → Type 0
MayOwn ranges pending p n = Owns ranges p n ⊎ Gives pending p n

abbrev Reserved : ℕ × HashMap Pubkey (List Range) → List Sent → Type 0
Reserved r pending = IsExclusive (MayOwn r.1 pending) r.0

pub none-Reserved : Reserved (0, []) []
none-Reserved = record {
  below = λ p n h. elim h [ inl o ↦ absurd (cc (o.1)) | inr g ↦ absurd g ];
  one_owner = λ p q n h h'. elim h [ inl o ↦ absurd (cc (o.1)) | inr g ↦ absurd g ];
}

module _ {S : Type 0} where
  -- Every nonce that is given out, registered or not, is below the counter and one key's only.
  abbrev pub IsReserved : System S → Type 0
  IsReserved sys =
      IsExclusive (MayOwn sys.world.server.client_nonce_ranges sys.pending) sys.world.server.nonce

  -- At the beginning of an epoch nothing is left to register.
  abbrev pub IsPunctual : System S → Type 0
  IsPunctual sys = sys.world.server.nonce ≡ 0 → sys.pending ≡ []

  quiet-IsReserved :
      (sys sys' : System S) → IsQuiet sys sys' → IsPunctual sys' → IsReserved sys → IsReserved sys'
  quiet-IsReserved sys sys' (pending, inl same) punctual x =
      subst (λ (r : ℕ × HashMap Pubkey (List Range)). Reserved r sys'.pending) (sym same)
        (subst (Reserved (ranges_of sys.world.server)) (sym pending) x)
  quiet-IsReserved sys sys' (pending, inr empty) punctual x =
      let first : sys'.world.server.nonce ≡ 0 =
        ap (λ (r : ℕ × HashMap Pubkey (List Range)). r.0) empty in
      subst (λ (r : ℕ × HashMap Pubkey (List Range)). Reserved r sys'.pending) (sym empty)
        (subst (Reserved (0, [])) (sym (punctual first)) none-Reserved)

  registers-IsReserved :
      (sys : System S) (before after : List Sent) (task : Sent)
      → sys.pending ≡ before ++ task ∷ after
      → IsReserved sys
      → IsReserved
          (record (with_server sys (run_task task sys.world.server)) { pending = before ++ after })
  unfolding run_task
  registers-IsReserved sys before after task its x =
      let st = sys.world.server in
      let ranges = register_range st.client_nonce_ranges task.pubkey task.nonce_range in
      fewer-IsExclusive (MayOwn st.client_nonce_ranges (before ++ task ∷ after))
        (MayOwn ranges (before ++ after)) st.nonce
        (λ p n h. elim h [
          | inl o ↦
              elim (Owns-register_range st.client_nonce_ranges task.pubkey task.nonce_range p n o) [
                | inl old ↦ inl old
                | inr new ↦ inr (Gives-append_right before (task ∷ after) p n (inl new))
              ]
          | inr g ↦ elim (Gives-append before after p n g) [
            | inl b ↦ inr (Gives-append_left before (task ∷ after) p n b)
            | inr a ↦ inr (Gives-append_right before (task ∷ after) p n (inr a))
          ]
        ])
        (subst (Reserved (ranges_of st)) its x)

  serves-IsReserved :
      (sys : System S) (now : ℕ)
      → sys.world.server.nonce + length sys.world.server.ready_clients * nonce_range_size < u64_mod
      → IsReserved sys
      → IsReserved (record (with_server sys (handle_ready_clients sys.world.server now).0) {
        pending = sys.pending ++ (handle_ready_clients sys.world.server now).1;
      })
  serves-IsReserved sys now room x =
      let st = sys.world.server in
      let had = MayOwn st.client_nonce_ranges sys.pending in
      let (st', tasks) = handle_ready_clients st now in
      let (given, kept) = handle_ready_clients-Reserves had st now room x in
      fewer-IsExclusive (λ p n. had p n ⊎ Gives tasks p n)
        (MayOwn st'.client_nonce_ranges (sys.pending ++ tasks)) st'.nonce
        (λ p n h. elim h [
          | inl o ↦ inl (inl (subst (λ (r : HashMap Pubkey (List Range)). Owns r p n) kept o))
          | inr g ↦ elim (Gives-append sys.pending tasks p n g) [
            | inl old ↦ inl (inr old)
            | inr new ↦ inr new
          ]
        ])
        given

module _ (drillx : Drillx) (pool_id : ℕ) where
  open drillx use {Solution}

  -- A run of the tasks in which no epoch begins before the ranges given out until then are registered.
  pub data PunctualRun (start : System Solution) : System Solution → Type 0 where
    starts : PunctualRun start start
    goes_on :
        {s t : System Solution}
        → PunctualRun start s
        → Step drillx pool_id s t
        → IsPunctual t
        → PunctualRun start t

  submits-IsQuiet :
      (sys : System Solution) (msgs : _)
      → IsQuiet sys (with_server sys (handle_submissions drillx sys.world.server msgs).0)
  submits-IsQuiet sys msgs =
      let (same, challenge) = handle_submissions-Frames drillx sys.world.server msgs in
      (refl, inl (ap (λ (st : Server Solution). ranges_of st) same))

  Step-IsReserved :
      {s t : System Solution} → Step drillx pool_id s t → IsPunctual t → IsReserved s → IsReserved t
  unfolding open_round await track_proof
  Step-IsReserved (opens sys now e) punctual x =
      if_rule (λ (sys' : System Solution). IsPunctual sys' → IsReserved sys')
        (leb_ℤ (get_cutoff sys.world.server.proof 3 now) (pos 0))
        (λ up on_time.
          let o = sys.world.server.epoch_hashes.best_hash.solution in
          quiet-IsReserved sys (close_with sys o) (close_with-IsQuiet sys o) on_time x)
        (λ early on_time. x) punctual
  Step-IsReserved (attempts sys i old best found e) punctual x =
      quiet-IsReserved sys (after_attempt sys i old best (attempt drillx best found))
        (after_attempt-IsQuiet sys i old best (attempt drillx best found)) punctual x
  Step-IsReserved (spawns sys i old best e) punctual x = x
  Step-IsReserved (awaits sys old answer accesses e) punctual x =
      quiet-IsReserved sys (await pool_id sys old answer accesses)
        (refl, await_turn-Turned pool_id sys.world old answer accesses) punctual x
  Step-IsReserved (records sys t e) punctual x = x
  Step-IsReserved (resends sys before after old stop answer accesses e going) punctual x =
      quiet-IsReserved sys
        (record sys {
          world = (resend_turn pool_id sys.world old stop answer accesses).1;
          resenders = [];
        })
        (refl, resend_turn-Turned pool_id sys.world old stop answer accesses) punctual x
  Step-IsReserved (submits sys msgs) punctual x =
      quiet-IsReserved sys (with_server sys (handle_submissions drillx sys.world.server msgs).0)
        (submits-IsQuiet sys msgs) punctual x
  Step-IsReserved (serves sys now room) punctual x = serves-IsReserved sys now room x
  Step-IsReserved (registers sys before after task e) punctual x =
      registers-IsReserved sys before after task e x
  Step-IsReserved (tracks sys p fresh) punctual x =
      if_rule (λ (st : Server Solution). IsReserved (with_server sys st))
        (nat_beq sys.world.server.last_challenge p.challenge) (λ old. x) λ new. x
  Step-IsReserved (connects sys app_state ready_clients pongs) punctual x = x

  -- If every nonce that was given out, its range registered or left to register, is below the counter and
  -- belongs to one key only, then the same holds in every state that the tasks reach, in whatever order
  -- they take turns, as long as the counter has room for a range for each ready client, no notification
  -- brings back the challenge of the epoch in place of another one, and no range is left to register when
  -- an epoch begins.
  pub PunctualRun-IsReserved :
      {s t : System Solution} → IsReserved s → PunctualRun s t → IsReserved t
  PunctualRun-IsReserved x starts = x
  PunctualRun-IsReserved x (goes_on r step punctual) =
      Step-IsReserved step punctual (PunctualRun-IsReserved x r)
