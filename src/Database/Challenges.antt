-- ===== src/Database/Challenges.antt =====
-- The queries of src/app_database.rs on the challenges, whose column `challenge` is unique
-- (migrations/2024-08-15-234722_challenges_challenge_unique), and the loop in which the server records
-- a new one.
use coal_pool_server.Prelude.{
  ℕ, ◌+◌, Option, none, some, List, [], ◌∷◌, if◌then◌else◌, nat_beq, ◌≡◌, refl, ◌⊎◌, inl, inr,
  arith, subst, Option-cases, nat_beq_iff,
}
use coal_pool_server.State.{Challenge}
use coal_pool_server.Database.{
  Result, ok, err, Access, granted, no_connection, broken, interact, query_failed,
  failed_to_update_row,
}

pub record ChallengeRow : Type 0 where
  pub id : ℕ
  pub pool_id : ℕ
  pub submission_id : Option ℕ
  pub challenge : Challenge
  pub rewards_earned : Option ℕ

-- `next_id` is the counter of the column `id`.
pub record ChallengeTable : Type 0 where
  pub rows : List ChallengeRow
  pub next_id : ℕ

unfoldable pub find_challenge : Challenge → List ChallengeRow → Option ChallengeRow
find_challenge c [] = none
find_challenge c (r ∷ rs) = if nat_beq r.challenge c then some r else find_challenge c rs

unfoldable pub get_challenge_by_challenge :
    Access → Challenge → ChallengeTable → Result ChallengeRow
unfolding find_challenge
get_challenge_by_challenge access c t =
    interact access (elim (find_challenge c t.rows) [ none ↦ err query_failed | some r ↦ ok r ])

abbrev pub new_row : ChallengeTable → ℕ → Challenge → ChallengeRow
new_row t pool_id c = record {
  id = t.next_id;
  pool_id = pool_id;
  submission_id = none;
  challenge = c;
  rewards_earned = none;
}

-- The unique column turns down a challenge that is there.
abbrev pub insert_row : Option ChallengeRow → ℕ → Challenge → ChallengeTable → Result ChallengeTable
insert_row (some r) pool_id c t = err query_failed
insert_row none pool_id c t =
    ok (record { rows = new_row t pool_id c ∷ t.rows; next_id = t.next_id + 1 })

unfoldable pub add_new_challenge : Access → ℕ → Challenge → ChallengeTable → Result ChallengeTable
unfolding find_challenge
add_new_challenge access pool_id c t =
    interact access (insert_row (find_challenge c t.rows) pool_id c t)

-- The row of the challenge, with its submission and its reward.
unfoldable pub set_rewards : Challenge → ℕ → ℕ → List ChallengeRow → List ChallengeRow
set_rewards c submission_id rewards [] = []
set_rewards c submission_id rewards (r ∷ rs) =
    (if nat_beq r.challenge c
      then record r { submission_id = some submission_id; rewards_earned = some rewards }
      else r)
    ∷ set_rewards c submission_id rewards rs

unfoldable pub update_challenge_rewards :
    Access → Challenge → ℕ → ℕ → ChallengeTable → Result ChallengeTable
unfolding find_challenge set_rewards
update_challenge_rewards access c submission_id rewards t =
    interact access (elim (find_challenge c t.rows) [
      | none ↦ err failed_to_update_row
      | some r ↦ ok (record t { rows = set_rewards c submission_id rewards t.rows })
    ])

-- One turn of the loop below, by what its two queries answer.
abbrev pub record_turn :
    Result ChallengeTable
    → Result ChallengeRow
    → ChallengeTable
    → Option ChallengeTable
    → Option ChallengeTable
record_turn (ok t') found t rest = some t'
record_turn (err e) (ok r) t rest = some t
record_turn (err e) (err e') t rest = rest

-- `while let Err(_) = add { if let Ok(_) = get { break } }`: an attempt has the accesses of both
-- queries. No value means that it is still trying.
unfoldable pub record_challenge :
    List (Access × Access) → ℕ → Challenge → ChallengeTable → Option ChallengeTable
unfolding add_new_challenge get_challenge_by_challenge
record_challenge [] pool_id c t = none
record_challenge ((a, b) ∷ rest) pool_id c t =
    record_turn (add_new_challenge a pool_id c t) (get_challenge_by_challenge b c t) t
      (record_challenge rest pool_id c t)

-- The table has the challenge.
abbrev pub Knows : ChallengeTable → Challenge → Type 0
Knows t c = (r : ChallengeRow) × (find_challenge c t.rows ≡ some r)

-- The table is as it was, or has one row more, which is that of the challenge.
abbrev pub Extends : Challenge → ChallengeTable → ChallengeTable → Type 0
Extends c t t' = (t' ≡ t) ⊎ ((r : ChallengeRow) × (r.challenge ≡ c) × (t'.rows ≡ r ∷ t.rows))

-- What the loop may come to: it still tries, or the table has the challenge and at most one row more.
abbrev pub Recorded : ChallengeTable → Challenge → Option ChallengeTable → Type 0
Recorded t c o = (o ≡ none) ⊎ ((t' : ChallengeTable) × (o ≡ some t') × Knows t' c × Extends c t t')

pub find-new_row :
    (t : ChallengeTable) (pool_id c : ℕ)
    → find_challenge c (new_row t pool_id c ∷ t.rows) ≡ some (new_row t pool_id c)
unfolding find_challenge
find-new_row t pool_id c = rw ((nat_beq_iff c c).1 refl)

record_turn-Recorded :
    (x : Result ChallengeTable) (y : Result ChallengeRow) (c : Challenge) (t : ChallengeTable)
    (rest : Option ChallengeTable)
    → ((t' : ChallengeTable) → x ≡ ok t' → Knows t' c × Extends c t t')
    → ((r : ChallengeRow) → y ≡ ok r → Knows t c)
    → Recorded t c rest
    → Recorded t c (record_turn x y t rest)
record_turn-Recorded (ok t') y c t rest added found h =
    let (knows, extends) = added t' refl in inr (t', refl, knows, extends)
record_turn-Recorded (err e) (ok r) c t rest added found h = inr (t, refl, found r refl, inl refl)
record_turn-Recorded (err e) (err e') c t rest added found h = h

pub interact-ok : {A : Type 0} (a : Access) (r : Result A) (x : A) → interact a r ≡ ok x → r ≡ ok x
interact-ok granted r x e = e
interact-ok no_connection r x e = absurd (cc e)
interact-ok broken r x e = absurd (cc e)

insert_row-Knows :
    (found : Option ChallengeRow) (pool_id : ℕ) (c : Challenge) (t t' : ChallengeTable)
    → insert_row found pool_id c t ≡ ok t'
    → Knows t' c × Extends c t t'
insert_row-Knows (some r) pool_id c t t' e = absurd (cc e)
insert_row-Knows none pool_id c t t' e =
    let same : record { rows = new_row t pool_id c ∷ t.rows; next_id = t.next_id + 1 } ≡ t' =
      cc e in
    subst (λ (u : ChallengeTable). Knows u c × Extends c t u) same
      ((new_row t pool_id c, find-new_row t pool_id c), inr (new_row t pool_id c, refl, refl))

pub add_new_challenge-Knows :
    (a : Access) (pool_id : ℕ) (c : Challenge) (t t' : ChallengeTable)
    → add_new_challenge a pool_id c t ≡ ok t'
    → Knows t' c × Extends c t t'
unfolding add_new_challenge
add_new_challenge-Knows a pool_id c t t' e =
    insert_row-Knows (find_challenge c t.rows) pool_id c t t'
      (interact-ok a (insert_row (find_challenge c t.rows) pool_id c t) t' e)

pub get_challenge_by_challenge-Knows :
    (a : Access) (c : Challenge) (t : ChallengeTable) (r : ChallengeRow)
    → get_challenge_by_challenge a c t ≡ ok r
    → Knows t c
unfolding get_challenge_by_challenge
get_challenge_by_challenge-Knows a c t r e = elim (Option-cases (find_challenge c t.rows)) [
  | inr found ↦ found
  | inl lacks ↦ absurd (ground (arith, interact-ok a _ r e, lacks))
]

-- Whatever the accesses, the loop that records a challenge ends only with a table that has it, and that
-- is as it was, or has a row of that challenge on top of the rows that were there.
pub record_challenge-Recorded :
    (attempts : List (Access × Access)) (pool_id : ℕ) (c : Challenge) (t : ChallengeTable)
    → Recorded t c (record_challenge attempts pool_id c t)
unfolding record_challenge
record_challenge-Recorded [] pool_id c t = inl refl
record_challenge-Recorded ((a, b) ∷ rest) pool_id c t =
    record_turn-Recorded (add_new_challenge a pool_id c t) (get_challenge_by_challenge b c t) c t
      (record_challenge rest pool_id c t) (add_new_challenge-Knows a pool_id c t)
      (get_challenge_by_challenge-Knows b c t) (record_challenge-Recorded rest pool_id c t)
