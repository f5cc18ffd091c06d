-- ===== src/ReadyClients/Ownership.antt =====
-- Who may submit which nonce: the ranges that `handle_ready_clients` gives out do not overlap.
use coal_pool_server.Prelude.{
  ℕ, ◌+◌, ◌*◌, ◌≤◌, ◌<◌, ◌≡◌, refl, sym, ◌∙◌, ◌≢◌, ◌⊎◌, inl, inr, true, not, ◌||◌, Option, none,
  some, List, [], ◌∷◌, ◌++◌, Memᴰ, ap, subst, arith, u64_mod, length, length-map, add64, Bool-cases,
  if_rule, Option-cases, nat_eq, ℕ_discrete,
}
use coal_pool_server.Prelude.HashMap.{HashMap, get, remove, get-insert_self, get-insert_ne}
use coal_pool_server.Prelude.Int.{ℤ}
use coal_pool_server.Cutoff.{get_cutoff}
use coal_pool_server.State.{Pubkey, SocketAddr, Challenge, Range, Server}
use coal_pool_server.Submissions.{contains, in_ranges}
use coal_pool_server.ReadyClients.{
  nonce_range_size, register_range, next_range, run_task, run_tasks, assign, serve_client,
  serve_clients, should_mine, handle_ready_clients, Sent,
}

-- A key may submit a nonce.
abbrev pub Owns : HashMap Pubkey (List Range) → Pubkey → ℕ → Type 0
Owns ranges pubkey n = (rs : List Range) × (get pubkey ranges ≡ some rs) × (in_ranges rs n ≡ true)

-- Every nonce of a key is below the counter, and no other key's.
pub record IsExclusive (Has : Pubkey → ℕ → Type 0) (nonce : ℕ) : Type 0 where
  pub below : (pubkey : Pubkey) (n : ℕ) → Has pubkey n → n < nonce
  pub one_owner : (p q : Pubkey) (n : ℕ) → Has p n → Has q n → p ≡ q

pub fewer-IsExclusive :
    (Has Has' : Pubkey → ℕ → Type 0) (nonce : ℕ)
    → ((p : Pubkey) (n : ℕ) → Has' p n → Has p n)
    → IsExclusive Has nonce
    → IsExclusive Has' nonce
fewer-IsExclusive Has Has' nonce sub x = record {
  below = λ p n h. x.below p n (sub p n h);
  one_owner = λ p q n h h'. x.one_owner p q n (sub p n h) (sub q n h');
}

in_ranges-append :
    (rs : List Range) (r : Range) (n : ℕ)
    → in_ranges (rs ++ r ∷ []) n ≡ (in_ranges rs n || contains r n)
unfolding in_ranges
in_ranges-append [] r n = ground arith
in_ranges-append (x ∷ rs) r n = ground (arith, in_ranges-append rs r n)

-- The ranges that a key held before a registration.
abbrev held : Option (List Range) → List Range
held none = []
held (some rs) = rs

get-register_range_self :
    (ranges : HashMap Pubkey (List Range)) (pubkey : Pubkey) (r : Range)
    → get pubkey (register_range ranges pubkey r) ≡ some (held (get pubkey ranges) ++ r ∷ [])
unfolding register_range
get-register_range_self ranges pubkey r = elim (Option-cases (get pubkey ranges)) [
  | inl e ↦ rw (e, register_range) (get-insert_self pubkey _ ranges)
  | inr (rs, e) ↦ rw (e, register_range) (get-insert_self pubkey _ ranges)
]

get-register_range_ne :
    (ranges : HashMap Pubkey (List Range)) (pubkey : Pubkey) (r : Range) (p : Pubkey)
    → pubkey ≢ p
    → get p (register_range ranges pubkey r) ≡ get p ranges
unfolding register_range
get-register_range_ne ranges pubkey r p other = elim (Option-cases (get pubkey ranges)) [
  | inl e ↦ rw (e, register_range) (get-insert_ne p pubkey _ ranges other)
  | inr (rs, e) ↦ rw (e, register_range) (get-insert_ne p pubkey _ ranges other)
]

in_held :
    (o : Option (List Range)) (r : Range) (n : ℕ) (rs : List Range)
    → some (held o ++ r ∷ []) ≡ some rs
    → in_ranges rs n ≡ true
    → ((rs' : List Range) × (o ≡ some rs') × (in_ranges rs' n ≡ true)) ⊎ (contains r n ≡ true)
unfolding in_ranges
in_held none r n rs e h = inr (ground arith)
in_held (some old) r n rs e h = elim (Bool-cases (in_ranges old n)) [
  | inl i ↦ inl (old, refl, i)
  | inr i ↦ inr (ground (arith, in_ranges-append old r n))
]

-- A registration adds the range to the key's nonces, and changes no other key's.
pub Owns-register_range :
    (ranges : HashMap Pubkey (List Range)) (pubkey : Pubkey) (r : Range) (p n : ℕ)
    → Owns (register_range ranges pubkey r) p n
    → Owns ranges p n ⊎ ((p ≡ pubkey) × (contains r n ≡ true))
Owns-register_range ranges pubkey r p n (rs, g, i) = elim (ℕ_discrete pubkey p) [
  | no other ↦ inl (rs, sym (get-register_range_ne ranges pubkey r p other) ∙ g, i)
  | yes same ↦
      elim (in_held (get p ranges) r n rs
        (sym (get-register_range_self ranges p r) ∙ (rw same at g)) i) [
          | inl old ↦ inl old
          | inr new ↦ inr (sym same, new)
        ]
]

-- The tasks register a nonce for a key.
abbrev pub Gives : List Sent → Pubkey → ℕ → Type 0
Gives [] p n = ⊥
Gives (task ∷ tasks) p n =
    ((p ≡ task.pubkey) × (contains task.nonce_range n ≡ true)) ⊎ Gives tasks p n

pub Gives-append :
    (ts us : List Sent) (p n : ℕ) → Gives (ts ++ us) p n → Gives ts p n ⊎ Gives us p n
Gives-append [] us p n g = inr g
Gives-append (t ∷ ts) us p n (inl here) = inl (inl here)
Gives-append (t ∷ ts) us p n (inr g) = elim (Gives-append ts us p n g) [
  | inl before ↦ inl (inr before)
  | inr after ↦ inr after
]

pub Gives-append_left : (ts us : List Sent) (p n : ℕ) → Gives ts p n → Gives (ts ++ us) p n
Gives-append_left [] us p n g = absurd g
Gives-append_left (t ∷ ts) us p n (inl here) = inl here
Gives-append_left (t ∷ ts) us p n (inr g) = inr (Gives-append_left ts us p n g)

pub Gives-append_right : (ts us : List Sent) (p n : ℕ) → Gives us p n → Gives (ts ++ us) p n
Gives-append_right [] us p n g = g
Gives-append_right (t ∷ ts) us p n g = inr (Gives-append_right ts us p n g)

Mem-Gives :
    (task : Sent) (tasks : List Sent) (n : ℕ)
    → Memᴰ task tasks
    → contains task.nonce_range n ≡ true
    → Gives tasks task.pubkey n
Mem-Gives task [] n m i = elim m [ ]
Mem-Gives task (t ∷ tasks) n (Memᴰ.head e) i =
    inl (ap (λ (u : Sent). u.pubkey) e, ap (λ (u : Sent). contains u.nonce_range n) (sym e) ∙ i)
Mem-Gives task (t ∷ tasks) n (Memᴰ.tail m) i = inr (Mem-Gives task tasks n m i)

-- A task with the next range adds its nonces to those that are given out.
next_range-IsExclusive :
    (Has : Pubkey → ℕ → Type 0) (nonce : ℕ) (task : Sent)
    → nonce + nonce_range_size < u64_mod
    → task.nonce_range ≡ next_range nonce
    → IsExclusive Has nonce
    → IsExclusive (λ p n. Has p n ⊎ Gives (task ∷ []) p n) (add64 nonce nonce_range_size)
unfolding next_range contains
next_range-IsExclusive Has nonce task fits its x =
    let bounds : (n : ℕ)
        → contains task.nonce_range n ≡ true
        → (nonce ≤ n) × (n < nonce + nonce_range_size) =
      λ n i.
        let i' : contains (next_range nonce) n ≡ true =
          ap (λ (r : Range). contains r n) (sym its) ∙ i in
        ground (arith, i', fits) in
    record {
      below = λ p n h. elim h [
        | inl old ↦ omega (arith, x.below p n old, fits)
        | inr (inl (e, new)) ↦ omega (arith, bounds n new, fits)
        | inr (inr never) ↦ absurd never
      ];
      one_owner = λ p q n h h'. elim h [
        | inl old ↦ elim h' [
          | inl old' ↦ x.one_owner p q n old old'
          | inr (inl (e', new')) ↦ absurd (omega (arith, x.below p n old, (bounds n new').0))
          | inr (inr never) ↦ absurd never
        ]
        | inr (inl (e, new)) ↦ elim h' [
          | inl old' ↦ absurd (omega (arith, x.below q n old', (bounds n new).0))
          | inr (inl (e', new')) ↦ e ∙ sym e'
          | inr (inr never) ↦ absurd never
        ]
        | inr (inr never) ↦ absurd never
      ];
    }

module _ {S : Type 0} where
  abbrev pub IsAssigned : Server S → Type 0
  IsAssigned st = IsExclusive (Owns st.client_nonce_ranges) st.nonce

  -- What is given out with the tasks of a round is exclusive, and nothing is registered yet.
  abbrev pub Reserves :
      (Pubkey → ℕ → Type 0) → HashMap Pubkey (List Range) → Server S × List Sent → Type 0
  Reserves Has ranges (st, tasks) =
      IsExclusive (λ p n. Has p n ⊎ Gives tasks p n) st.nonce × (st.client_nonce_ranges ≡ ranges)

  none-Reserves :
      (Has : Pubkey → ℕ → Type 0) (st st' : Server S)
      → st'.nonce ≡ st.nonce
      → st'.client_nonce_ranges ≡ st.client_nonce_ranges
      → IsExclusive Has st.nonce
      → Reserves Has st.client_nonce_ranges (st', [])
  none-Reserves Has st st' same kept x = (
    subst (λ (k : ℕ). IsExclusive (λ p n. Has p n ⊎ Gives [] p n) k) (sym same)
        (fewer-IsExclusive Has (λ p n. Has p n ⊎ Gives [] p n) st.nonce
          (λ p n h. elim h [ inl old ↦ old | inr never ↦ absurd never ]) x),
    kept,
  )

  -- A ready client takes at most one range.
  serve_client-Reserves :
      (Has : Pubkey → ℕ → Type 0) (st : Server S) (challenge : Challenge) (cutoff : ℤ)
      (client : SocketAddr)
      → st.nonce + nonce_range_size < u64_mod
      → IsExclusive Has st.nonce
      → Reserves Has st.client_nonce_ranges (serve_client st challenge cutoff client)
        × ((serve_client st challenge cutoff client).0.nonce ≤ st.nonce + nonce_range_size)
  unfolding serve_client assign
  serve_client-Reserves Has st challenge cutoff client fits x =
      elim (Option-cases (get client st.app_state.sockets)) [
        | inl e ↦
            rw (e, serve_client)
              (
                none-Reserves Has st (record st { ready_clients = remove client st.ready_clients })
                    refl refl x,
                omega arith,
              )
        | inr (sender, e) ↦
            rw (e, serve_client)
              (
                (
                  next_range-IsExclusive Has st.nonce (assign st challenge cutoff client sender).1
                      fits refl x,
                  refl,
                ),
                omega arith,
              )
      ]

  serve_clients-Reserves :
      (Has : Pubkey → ℕ → Type 0) (st : Server S) (challenge : Challenge) (cutoff : ℤ)
      (clients : List SocketAddr)
      → st.nonce + length clients * nonce_range_size < u64_mod
      → IsExclusive Has st.nonce
      → Reserves Has st.client_nonce_ranges (serve_clients st challenge cutoff clients)
  unfolding serve_clients
  serve_clients-Reserves Has st challenge cutoff [] fits x = none-Reserves Has st st refl refl x
  serve_clients-Reserves Has st challenge cutoff (client ∷ clients) fits x =
      let (st', sent) = serve_client st challenge cutoff client in
      let ((given, kept), grown) =
        serve_client-Reserves Has st challenge cutoff client (omega arith) x in
      let (all, kept') =
        serve_clients-Reserves (λ p n. Has p n ⊎ Gives sent p n) st' challenge cutoff clients
          (omega arith) given in
      let (st'', rest) = serve_clients st' challenge cutoff clients in
      (
        fewer-IsExclusive (λ p n. (Has p n ⊎ Gives sent p n) ⊎ Gives rest p n)
            (λ p n. Has p n ⊎ Gives (sent ++ rest) p n) st''.nonce
            (λ p n h. elim h [
              | inl old ↦ inl (inl old)
              | inr new ↦ elim (Gives-append sent rest p n new) [
                | inl before ↦ inl (inr before)
                | inr after ↦ inr after
              ]
            ])
            all,
        kept' ∙ kept,
      )

  pub handle_ready_clients-Reserves :
      (Has : Pubkey → ℕ → Type 0) (st : Server S) (now : ℕ)
      → st.nonce + length st.ready_clients * nonce_range_size < u64_mod
      → IsExclusive Has st.nonce
      → Reserves Has st.client_nonce_ranges (handle_ready_clients st now)
  unfolding handle_ready_clients
  handle_ready_clients-Reserves Has st now fits x =
      let P : Server S × List Sent → Type 0 = Reserves Has st.client_nonce_ranges in
      let idle : P (st, []) = none-Reserves Has st st refl refl x in
      if_rule P st.app_state.paused (λ paused. idle)
        λ running.
          if_rule P (not (should_mine st (get_cutoff st.proof 4 now))) (λ off. idle)
            λ mine.
              serve_clients-Reserves Has st _ _ _
                (omega (arith, length-map st.ready_clients (λ (c : SocketAddr × Unit {0}). c.0))) x

  run_tasks-nonce : (tasks : List Sent) (st : Server S) → (run_tasks tasks st).nonce ≡ st.nonce
  unfolding run_tasks
  run_tasks-nonce [] st = refl
  run_tasks-nonce (task ∷ tasks) st = run_tasks-nonce tasks (run_task task st)

  Owns-run_tasks :
      (tasks : List Sent) (st : Server S) (p n : ℕ)
      → Owns (run_tasks tasks st).client_nonce_ranges p n
      → Owns st.client_nonce_ranges p n
        ⊎ ((task : Sent) × Memᴰ task tasks
            × (p ≡ task.pubkey)
            × (contains task.nonce_range n ≡ true))
  unfolding run_tasks
  Owns-run_tasks [] st p n o = inl o
  Owns-run_tasks (task ∷ tasks) st p n o = elim (Owns-run_tasks tasks (run_task task st) p n o) [
    | inl old ↦
        elim (Owns-register_range st.client_nonce_ranges task.pubkey task.nonce_range p n old) [
          | inl older ↦ inl older
          | inr (e, i) ↦ inr (task, Memᴰ.head refl, e, i)
        ]
    | inr (t, m, e, i) ↦ inr (t, Memᴰ.tail m, e, i)
  ]

  -- If every nonce that is registered is below the counter and belongs to one key only, the same holds
  -- after a round of the loop and any of the tasks that it spawns, in any order, provided that the counter
  -- has room for a range for each ready client.
  pub handle_ready_clients-IsAssigned :
      (st : Server S) (now : ℕ) (tasks : List Sent)
      → st.nonce + length st.ready_clients * nonce_range_size < u64_mod
      → IsAssigned st
      → ((task : Sent) → Memᴰ task tasks → Memᴰ task (handle_ready_clients st now).1)
      → IsAssigned (run_tasks tasks (handle_ready_clients st now).0)
  handle_ready_clients-IsAssigned st now tasks fits x spawns =
      let (st', spawned) = handle_ready_clients st now in
      let (given, kept) =
        handle_ready_clients-Reserves (Owns st.client_nonce_ranges) st now fits x in
      subst (IsExclusive (Owns (run_tasks tasks st').client_nonce_ranges))
        (sym (run_tasks-nonce tasks st'))
        (fewer-IsExclusive (λ p n. Owns st.client_nonce_ranges p n ⊎ Gives spawned p n)
          (Owns (run_tasks tasks st').client_nonce_ranges) st'.nonce
          (λ p n o. elim (Owns-run_tasks tasks st' p n o) [
            | inl old ↦ inl (subst (λ (r : HashMap Pubkey (List Range)). Owns r p n) kept old)
            | inr (task, m, e, i) ↦ inr (
                subst (λ (k : Pubkey). Gives spawned k n) (sym e)
                  (Mem-Gives task spawned n (spawns task m) i))
          ])
          given)
