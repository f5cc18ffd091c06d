-- ===== src/Clients/Entry.antt =====
-- Who gets a websocket: `ws_handler` of src/main.rs.
use coal_pool_server.Prelude.{
  ℕ, ◌+◌, ◌≤◌, ◌<◌, ◌≡◌, refl, sym, ap, ◌∙◌, ◌↔◌, inl, inr, Bool, true, false, Option, none, some,
  List, arith, if◌then◌else◌, leb, sub64, u64_mod, Bool-cases, Option-cases,
}
use coal_pool_server.Prelude.Bytes.{le_bytes}
use coal_pool_server.State.{Pubkey, ClientVersion, v1, v2}
use coal_pool_server.Models.{Miner}
use coal_pool_server.Database.{
  Result, ok, err, failed_to_get_connection_from_pool, failed_to_update_row, failed_to_insert_row,
  interaction_failed, query_failed,
}
use coal_pool_server.Clients.{
  Upgrade, refused, upgraded, too_old, check_miner, check_client, ws_handler, ws_handler_v2,
}

module _ {Sig : Type 0} (verify : Sig → Pubkey → List ℕ → Bool) where
  -- The header names a key, its password is a signature of that key for the timestamp, and the key is that
  -- of a miner who is enabled.
  pub record IsMiner (timestamp : ℕ) (user : Option Pubkey) (sig : Option Sig)
      (find : Pubkey → Result Miner) (pubkey : Pubkey) (miner_id : ℕ) : Type 0 where
    pub named : user ≡ some pubkey
    pub miner : Miner
    pub found : find pubkey ≡ ok miner
    pub enabled : miner.enabled ≡ true
    pub its_id : miner.id ≡ miner_id
    pub signature : Sig
    pub signs : sig ≡ some signature
    pub verifies : verify signature pubkey (le_bytes 8 timestamp) ≡ true

  -- The client of that key gets a socket.
  abbrev pub Gets : ClientVersion → Pubkey → ℕ → Upgrade → Type 0
  Gets version pubkey miner_id u = u ≡ upgraded pubkey miner_id version

  check_client-IsMiner :
      (version : ClientVersion) (timestamp : ℕ) (user : Option Pubkey) (sig : Option Sig)
      (find : Pubkey → Result Miner) (pubkey : Pubkey) (miner_id : ℕ)
      → Gets version pubkey miner_id (check_client verify version timestamp user sig find)
      → IsMiner timestamp user sig find pubkey miner_id
  check_client-IsMiner version timestamp none sig find pubkey miner_id h = absurd (cc h)
  check_client-IsMiner version timestamp (some u) sig find pubkey miner_id h =
      by_miner (find u) refl h
    where
      by_miner :
          (r : Result Miner)
          → find u ≡ r
          → Gets version pubkey miner_id (check_miner verify version u timestamp sig r)
          → IsMiner timestamp (some u) sig find pubkey miner_id
      by_miner (err query_failed) e h = absurd (cc h)
      by_miner (err interaction_failed) e h = absurd (cc h)
      by_miner (err failed_to_get_connection_from_pool) e h = absurd (cc h)
      by_miner (err failed_to_update_row) e h = absurd (cc h)
      by_miner (err failed_to_insert_row) e h = absurd (cc h)
      by_miner (ok miner) e h = elim (Bool-cases miner.enabled) [
        | inr off ↦ absurd (ground (arith, h, off))
        | inl on ↦ elim (Option-cases sig) [
          | inl none_read ↦ absurd (ground (arith, h, on, none_read))
          | inr (s, reads) ↦ elim (Bool-cases (verify s u (le_bytes 8 timestamp))) [
            | inr fails ↦ absurd (ground (arith, h, on, reads, fails))
            | inl good ↦
                let same : u ≡ pubkey = ground (arith, h, on, reads, good) in
                record {
                  named = ap some same;
                  miner = miner;
                  found = ap find (sym same) ∙ e;
                  enabled = on;
                  its_id = ground (arith, h, on, reads, good);
                  signature = s;
                  signs = reads;
                  verifies =
                      ap (λ (k : Pubkey). verify s k (le_bytes 8 timestamp)) (sym same) ∙ good;
                }
          ]
        ]
      ]

  IsMiner-check_client :
      (version : ClientVersion) (timestamp : ℕ) (user : Option Pubkey) (sig : Option Sig)
      (find : Pubkey → Result Miner) (pubkey : Pubkey) (miner_id : ℕ)
      → IsMiner timestamp user sig find pubkey miner_id
      → Gets version pubkey miner_id (check_client verify version timestamp user sig find)
  IsMiner-check_client version timestamp user sig find pubkey miner_id is =
      rw (is.named, is.found, is.enabled, is.signs, is.verifies, is.its_id)

  fresh_iff :
      (now timestamp : ℕ)
      → 30 ≤ now
      → now < u64_mod
      → timestamp < u64_mod
      → (leb 30 (sub64 now timestamp) ≡ false) ↔ ((timestamp ≤ now) × (now < timestamp + 30))
  fresh_iff now timestamp late fits fits' =
      (λ h. ground (arith, h, late, fits, fits'), λ h. ground (arith, h, late, fits, fits'))

  guarded :
      (version : ClientVersion) (now timestamp : ℕ) (user : Option Pubkey) (sig : Option Sig)
      (find : Pubkey → Result Miner) (pubkey : Pubkey) (miner_id : ℕ)
      → 30 ≤ now
      → now < u64_mod
      → timestamp < u64_mod
      → Gets version pubkey miner_id (
          if leb 30 (sub64 now timestamp)
          then refused too_old
          else check_client verify version timestamp user sig find)
        ↔ (((timestamp ≤ now) × (now < timestamp + 30))
            × IsMiner timestamp user sig find pubkey miner_id)
  guarded version now timestamp user sig find pubkey miner_id late fits fits' =
      let (fresh, in_time) = fresh_iff now timestamp late fits fits' in
      elim (Bool-cases (leb 30 (sub64 now timestamp))) [
        | inl old ↦ (
          λ h. absurd (ground (arith, h, old)),
          λ (young, is). absurd (ground (arith, in_time young, old)),
        )
        | inr young ↦ rw young (
          λ h.
              (fresh young, check_client-IsMiner version timestamp user sig find pubkey miner_id h),
          λ (t, is). IsMiner-check_client version timestamp user sig find pubkey miner_id is,
        )
      ]

  -- With times of 64 bits, and the clock at 30 seconds or later, the two handlers of websockets give a
  -- socket for a key and a miner id, of their version, exactly if the timestamp is not in the future and
  -- less than 30 seconds old, the header names the key and has a signature of it for the timestamp, and
  -- the key is that of a miner with the id who is found and is enabled.
  pub ws_handler_iff :
      (now timestamp : ℕ) (user : Option Pubkey) (sig : Option Sig) (find : Pubkey → Result Miner)
      (pubkey : Pubkey) (miner_id : ℕ)
      → 30 ≤ now
      → now < u64_mod
      → timestamp < u64_mod
      → ((ws_handler verify now timestamp user sig find ≡ upgraded pubkey miner_id v1) ↔ (
          ((timestamp ≤ now) × (now < timestamp + 30))
          × IsMiner timestamp user sig find pubkey miner_id))
        × ((ws_handler_v2 verify now timestamp user sig find ≡ upgraded pubkey miner_id v2) ↔ (
            ((timestamp ≤ now) × (now < timestamp + 30))
            × IsMiner timestamp user sig find pubkey miner_id))
  unfolding ws_handler ws_handler_v2
  ws_handler_iff now timestamp user sig find pubkey miner_id late fits fits' = (
    guarded v1 now timestamp user sig find pubkey miner_id late fits fits',
    guarded v2 now timestamp user sig find pubkey miner_id late fits fits',
  )
