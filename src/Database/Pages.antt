-- ===== src/Database/Pages.antt =====
-- Reading a table page by page: the loops of src/systems/pool_mine_success_system.rs that ask for the 500
-- rows after the last id they have seen, until a page is not full. The rows are in the order of their ids.
use mathlib.Core.List.{append_assoc}
use coal_pool_server.Prelude.{
  ℕ, zero, suc, ◌+◌, ◌*◌, ◌≤◌, ◌<◌, ◌≡◌, refl, sym, ap, ◌∙◌, inl, inr, true, false, Option, none,
  some, List, [], ◌∷◌, ◌++◌, take, drop, length, arith, if◌then◌else◌, ltb, Bool-cases,
  take-append-drop,
}
use coal_pool_server.Database.{Result, ok, err, Access, granted, no_connection, broken, interact}

-- How many of the accesses are granted.
abbrev pub grants : List Access → ℕ
grants [] = 0
grants (granted ∷ rest) = suc (grants rest)
grants (no_connection ∷ rest) = grants rest
grants (broken ∷ rest) = grants rest

is_short : (n m : ℕ) → ltb n m ≡ true → n < m
is_short n m h = ground (arith, h)

is_full : (n m : ℕ) → ltb n m ≡ false → m ≤ n
is_full n m h = ground (arith, h)

-- A page that is not full is all that is left, and a full one leaves that much less.
take_short : {A : Type 0} (n : ℕ) (rows : List A) → length (take n rows) < n → take n rows ≡ rows
take_short zero rows h = absurd (omega (arith, h))
take_short (suc n) [] h = refl
take_short (suc n) (a ∷ rest) h = ap (◌∷◌ a) (take_short n rest (omega (arith, h)))

take_full :
    {A : Type 0} (n : ℕ) (rows : List A)
    → n ≤ length (take n rows)
    → length rows ≡ n + length (drop n rows)
take_full zero rows h = omega arith
take_full (suc n) [] h = absurd (omega (arith, h))
take_full (suc n) (a ∷ rest) h = omega (arith, take_full n rest (omega (arith, h)))

module _ {A : Type 0} (id : A → ℕ) where
  -- Those with a larger id.
  unfoldable pub after : ℕ → List A → List A
  after last_id [] = []
  after last_id (a ∷ rest) =
      let others = after last_id rest in if ltb last_id (id a) then a ∷ others else others

  -- The id of the last account of a page.
  abbrev pub last_of : ℕ → List A → ℕ
  last_of last_id [] = last_id
  last_of last_id (a ∷ rest) = last_of (id a) rest

  -- One turn of the loop, by what the query answers.
  abbrev pub page_turn :
      Result (List A) → ℕ → List A → (ℕ → List A → Option (List A)) → Option (List A)
  page_turn (err e) last_id acc next = next last_id acc
  page_turn (ok d) last_id acc next =
      let more = next (last_of last_id d) (acc ++ d) in
      if ltb (length d) 500 then some (acc ++ d) else more

  -- The ids rise, from above a bound.
  abbrev pub Ascends : ℕ → List A → Type 0
  Ascends bound [] = Unit
  Ascends bound (a ∷ rest) = (bound < (id a)) × Ascends (id a) rest

  pub Ascends-weaken :
      (low high : ℕ) (rows : List A) → low ≤ high → Ascends high rows → Ascends low rows
  Ascends-weaken low high [] le h = tt
  Ascends-weaken low high (a ∷ rest) le (above, h) = (omega (arith, le, above), h)

  after-Ascends : (last_id : ℕ) (rows : List A) → Ascends last_id rows → after last_id rows ≡ rows
  unfolding after
  after-Ascends last_id [] h = refl
  after-Ascends last_id (a ∷ rest) (above, h) =
      let ih =
        after-Ascends last_id rest (Ascends-weaken last_id (id a) rest (omega (arith, above)) h) in
      ground (arith, above, ih)

  after-after :
      (low high : ℕ) (rows : List A) → low ≤ high → after high (after low rows) ≡ after high rows
  unfolding after
  after-after low high [] le = refl
  after-after low high (a ∷ rest) le = elim (Bool-cases (ltb low (id a))) [
    | inl above ↦ rw (above, after, after-after low high rest le)
    | inr below ↦
        let too_low : ltb high (id a) ≡ false = ground (arith, below, le) in
        rw (below, after, too_low) (after-after low high rest le)
  ]

  -- After a page of `n`, the rows with a larger id than its last are the others.
  page_rest :
      (n bound : ℕ) (rows : List A)
      → Ascends bound rows
      → let last_id = last_of bound (take n rows) in
        (bound ≤ last_id) × (after last_id rows ≡ drop n rows) × Ascends last_id (drop n rows)
  unfolding after
  page_rest zero bound rows h = (omega arith, after-Ascends bound rows h, h)
  page_rest (suc n) bound [] h = (omega arith, refl, tt)
  page_rest (suc n) bound (a ∷ rest) (above, h) =
      let (le, rest_of, rises) = page_rest n (id a) rest h in
      let passed : ltb (last_of (id a) (take n rest)) (id a) ≡ false = ground (arith, le) in
      (omega (arith, above, le), rw (passed, after) rest_of, rises)

  -- The rows of one page.
  unfoldable pub page_of : Access → List A → ℕ → Result (List A)
  unfolding after
  page_of access rows last_id = interact access (ok (take 500 (after last_id rows)))

  -- The loop, over the accesses of its queries; no value means that it is still reading.
  unfoldable pub read_pages : List Access → List A → ℕ → List A → Option (List A)
  unfolding page_of
  read_pages [] rows last_id acc = none
  read_pages (access ∷ rest) rows last_id acc =
      page_turn (page_of access rows last_id) last_id acc (read_pages rest rows)

module _ {A : Type 0} (id : A → ℕ) (rows : List A) where
  read_pages-after :
      (accesses : List Access) (last_id : ℕ) (acc left : List A)
      → after id last_id rows ≡ left
      → Ascends id last_id left
      → length left < 500 * grants accesses
      → read_pages id accesses rows last_id acc ≡ some (acc ++ left)
  unfolding read_pages page_of
  read_pages-after [] last_id acc left e rises room = absurd (omega (arith, room))
  read_pages-after (no_connection ∷ rest) last_id acc left e rises room =
      read_pages-after rest last_id acc left e rises room
  read_pages-after (broken ∷ rest) last_id acc left e rises room =
      read_pages-after rest last_id acc left e rises room
  read_pages-after (granted ∷ rest) last_id acc left e rises room =
      let page = take 500 left in
      let next_id = last_of id last_id page in
      let (le, others, rises') = page_rest id 500 last_id left rises in
      let later : after id next_id rows ≡ drop 500 left =
        sym (after-after id last_id next_id rows le) ∙ ap (after id next_id) e ∙ others in
      ap (λ (d : List A). page_turn id (ok (take 500 d)) last_id acc (read_pages id rest rows)) e
      ∙ elim (Bool-cases (ltb (length page) 500)) [
        | inl short ↦ rw short (
            ap (λ (d : List A). some (acc ++ d))
              (take_short 500 left (is_short (length page) 500 short)))
        | inr full ↦
            let size = take_full 500 left (is_full (length page) 500 full) in
            let fewer : length (drop 500 left) < 500 * grants rest = omega (arith, size, room) in
            rw full (
              read_pages-after rest next_id (acc ++ page) (drop 500 left) later rises' fewer
              ∙ ap (λ (d : List A). some d)
                  (append_assoc acc page (drop 500 left)
                    ∙ ap (λ (d : List A). acc ++ d) (take-append-drop 500 left)))
      ]

-- If the ids of the table rise from above zero and the database grants a look for each 500 rows, and one
-- more, then the loop over the pages ends, whatever looks fail in between, and it has read each row
-- once, in the order of the ids.
pub read_pages-eq :
    {A : Type 0} (id : A → ℕ) (accesses : List Access) (rows : List A)
    → Ascends id 0 rows
    → length rows < 500 * grants accesses
    → read_pages id accesses rows 0 [] ≡ some rows
read_pages-eq id accesses rows rises room =
    read_pages-after id rows accesses 0 [] rows (after-Ascends id 0 rows rises) rises room
