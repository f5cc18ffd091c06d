-- ===== src/Database/Bulk.antt =====
-- Updates of many rows in batches, each an `UPDATE ... CASE WHEN key = k THEN ...` of src/app_database.rs
-- that is repeated until it goes through. If no key stands twice, the batches do together what one
-- update of all the rows would do.
use mathlib.Core.List.{flatten}
use coal_pool_server.Prelude.{
  ℕ, suc, ◌≡◌, refl, sym, ap, ◌∙◌, ◌⊎◌, inl, inr, Option, none, some, List, [], ◌∷◌, ◌++◌, map,
  arith, nat_eq, length, All, Option-cases, subst,
}
use coal_pool_server.Prelude.HashMap.{HashMap, get, HasDistinctKeys}
use coal_pool_server.Database.{
  Result, ok, Access, granted, no_connection, broken, interact, for_rows, retry, chunks,
}
use coal_pool_server.Database.Attempts.{Reaches, ReachesAll, chunks_of-flatten}

-- A loop over batches with a query that is tried until it goes through.
unfoldable pub write_batches :
    {U Row : Type 0}
    → (Access → List U → List Row → Result (List Row))
    → List (List Access)
    → List (List U)
    → List Row
    → Option (List Row)
unfolding retry
write_batches query attempts [] rows = some rows
write_batches query [] (batch ∷ batches) rows = none
write_batches query (accesses ∷ attempts) (batch ∷ batches) rows =
    elim (retry accesses (λ access. query access batch rows)) [
      | none ↦ none
      | some rows' ↦ write_batches query attempts batches rows'
    ]

module _ {Row : Type 0} (key : Row → ℕ) (set : ℕ → Row → Result Row) where
  -- A row whose key has an amount is set by the first there is.
  unfoldable pub update_row : HashMap ℕ ℕ → Row → Result Row
  update_row entries row = elim (get (key row) entries) [ none ↦ ok row | some x ↦ set x row ]

  -- The query of a batch, with the key and the amount of an update.
  unfoldable pub update_rows :
      {U : Type 0} → (U → ℕ × ℕ) → Access → List U → List Row → Result (List Row)
  unfolding update_row
  update_rows entry access batch rows =
      interact access (for_rows (update_row (map entry batch)) rows)

-- What a row becomes, where setting it has the effect `apply`.
abbrev pub applied : {Row : Type 0} → (ℕ → Row → Row) → Option ℕ → Row → Row
applied apply none row = row
applied apply (some x) row = apply x row

get-none-append : (k : ℕ) (us vs : HashMap ℕ ℕ) → get k (us ++ vs) ≡ none → get k vs ≡ none
get-none-append k [] vs h = h
get-none-append k ((j, x) ∷ us) vs h = ground (arith, get-none-append k us vs)

-- Of two lists without a key twice, at most one has a given key.
get-append :
    (k : ℕ) (us vs : HashMap ℕ ℕ)
    → HasDistinctKeys (us ++ vs)
    → ((get k us ≡ none) × (get k (us ++ vs) ≡ get k vs))
      ⊎ ((get k (us ++ vs) ≡ get k us) × (get k vs ≡ none))
get-append k [] vs h = inl (refl, refl)
get-append k ((j, x) ∷ us) vs h =
    ground (arith, get-append k us vs h.1, get-none-append j us vs h.0)

tail-HasDistinctKeys : (us vs : HashMap ℕ ℕ) → HasDistinctKeys (us ++ vs) → HasDistinctKeys vs
tail-HasDistinctKeys [] vs h = h
tail-HasDistinctKeys ((j, x) ∷ us) vs h = tail-HasDistinctKeys us vs h.1

pub map-append :
    {A B : Type 0} (f : A → B) (xs ys : List A) → map f (xs ++ ys) ≡ map f xs ++ map f ys
map-append f [] ys = refl
map-append f (x ∷ xs) ys = ap (◌∷◌ (f x)) (map-append f xs ys)

module _ {Row : Type 0} (key : Row → ℕ) (set : ℕ → Row → Result Row) (apply : ℕ → Row → Row) where
  -- The amount that stands for a row can be set.
  abbrev pub Fits : HashMap ℕ ℕ → Row → Type 0
  Fits entries row = (x : ℕ) → get (key row) entries ≡ some x → set x row ≡ ok (apply x row)

  -- What all entries make of a row.
  abbrev pub updated : HashMap ℕ ℕ → Row → Row
  updated entries row = applied apply (get (key row) entries) row

  update_row-eq :
      (entries : HashMap ℕ ℕ) (row : Row)
      → Fits entries row
      → update_row key set entries row ≡ ok (updated entries row)
  unfolding update_row
  update_row-eq entries row fits = elim (Option-cases (get (key row) entries)) [
    | inl absent ↦ ground (arith, absent)
    | inr (x, found) ↦ ground (arith, found, fits x found)
  ]

  for_rows-updated :
      (entries : HashMap ℕ ℕ) (rows : List Row)
      → All (Fits entries) rows
      → for_rows (update_row key set entries) rows ≡ ok (map (updated entries) rows)
  for_rows-updated entries [] fits = refl
  for_rows-updated entries (row ∷ rows) fits =
      ground (arith, update_row-eq entries row fits.0, for_rows-updated entries rows fits.1)

  map-updated_nil : (rows : List Row) → map (updated []) rows ≡ rows
  map-updated_nil [] = refl
  map-updated_nil (row ∷ rows) = ap (◌∷◌ row) (map-updated_nil rows)

  module _ (keeps : (x : ℕ) (row : Row) → key (apply x row) ≡ key row) where
    keeps_key : (o : Option ℕ) (row : Row) → key (applied apply o row) ≡ key row
    keeps_key none row = refl
    keeps_key (some x) row = keeps x row

    split_row :
        (us vs : HashMap ℕ ℕ) (row : Row)
        → HasDistinctKeys (us ++ vs)
        → Fits (us ++ vs) row
        → Fits us row
          × Fits vs (updated us row)
          × (updated vs (updated us row) ≡ updated (us ++ vs) row)
    split_row us vs row distinct fits =
        let k = key row in
        elim (get-append k us vs distinct) [
          | inl (absent, whole) ↦
              let same : updated us row ≡ row = ap (λ (o : Option ℕ). applied apply o row) absent in
              (
                λ x found. absurd (cc (absent, found)),
                subst (Fits vs) (sym same) (λ x found. fits x (whole ∙ found)),
                ap (updated vs) same ∙ ap (λ (o : Option ℕ). applied apply o row) (sym whole),
              )
          | inr (whole, absent) ↦
              let same_key : key (updated us row) ≡ k = keeps_key (get k us) row in
              let missing : get (key (updated us row)) vs ≡ none =
                ap (λ (j : ℕ). get j vs) same_key ∙ absent in
              (
                λ x found. fits x (whole ∙ found),
                λ x found. absurd (cc (missing, found)),
                ap (λ (o : Option ℕ). applied apply o (updated us row)) missing
                    ∙ ap (λ (o : Option ℕ). applied apply o row) (sym whole),
              )
        ]

    split_rows :
        (us vs : HashMap ℕ ℕ) (rows : List Row)
        → HasDistinctKeys (us ++ vs)
        → All (Fits (us ++ vs)) rows
        → All (Fits us) rows
          × All (Fits vs) (map (updated us) rows)
          × (map (updated vs) (map (updated us) rows) ≡ map (updated (us ++ vs)) rows)
    split_rows us vs [] distinct fits = (tt, tt, refl)
    split_rows us vs (row ∷ rows) distinct fits =
        let (first, second, joined) = split_row us vs row distinct fits.0 in
        let (firsts, seconds, all_joined) = split_rows us vs rows distinct fits.1 in
        ((first, firsts), (second, seconds), cc (joined, all_joined))

    module _ {U : Type 0} (entry : U → ℕ × ℕ) where
      retry-update_rows :
          (accesses : List Access) (batch : List U) (rows : List Row)
          → Reaches accesses
          → All (Fits (map entry batch)) rows
          → retry accesses (λ access. update_rows key set entry access batch rows)
            ≡ some (map (updated (map entry batch)) rows)
      unfolding retry update_rows
      retry-update_rows [] batch rows reaches fits = absurd reaches
      retry-update_rows (granted ∷ rest) batch rows reaches fits =
          rw (for_rows-updated (map entry batch) rows fits)
      retry-update_rows (no_connection ∷ rest) batch rows reaches fits =
          retry-update_rows rest batch rows reaches fits
      retry-update_rows (broken ∷ rest) batch rows reaches fits =
          retry-update_rows rest batch rows reaches fits

      write_batches-eq :
          (attempts : List (List Access)) (batches : List (List U)) (rows : List Row)
          → ReachesAll attempts batches
          → HasDistinctKeys (map entry (flatten batches))
          → All (Fits (map entry (flatten batches))) rows
          → write_batches (update_rows key set entry) attempts batches rows
            ≡ some (map (updated (map entry (flatten batches))) rows)
      unfolding write_batches flatten
      write_batches-eq attempts [] rows reaches distinct fits = ap some (sym (map-updated_nil rows))
      write_batches-eq [] (batch ∷ batches) rows reaches distinct fits = absurd reaches
      write_batches-eq (accesses ∷ attempts) (batch ∷ batches) rows reaches distinct fits =
          let us = map entry batch in
          let vs = map entry (flatten batches) in
          let whole : map entry (batch ++ flatten batches) ≡ us ++ vs =
            map-append entry batch (flatten batches) in
          let distinct' : HasDistinctKeys (us ++ vs) =
            subst (λ (l : HashMap ℕ ℕ). HasDistinctKeys l) whole distinct in
          let (now, after, joined) =
            split_rows us vs rows distinct'
              (subst (λ (l : HashMap ℕ ℕ). All (Fits l) rows) whole fits) in
          rw (retry-update_rows accesses batch rows reaches.0 now, write_batches)
            (write_batches-eq attempts batches (map (updated us) rows) reaches.1
                (tail-HasDistinctKeys us vs distinct') after
              ∙ ap some joined
              ∙ ap (λ (l : HashMap ℕ ℕ). some (map (updated l) rows)) (sym whole))

      -- In chunks of any size.
      pub write_chunks-eq :
          (size : ℕ) (attempts : List (List Access)) (us : List U) (rows : List Row)
          → ReachesAll attempts (chunks (suc size) us)
          → HasDistinctKeys (map entry us)
          → All (Fits (map entry us)) rows
          → write_batches (update_rows key set entry) attempts (chunks (suc size) us) rows
            ≡ some (map (updated (map entry us)) rows)
      write_chunks-eq size attempts us rows reaches distinct fits =
          let e : flatten (chunks (suc size) us) ≡ us =
            chunks_of-flatten (length us) size us (omega arith) in
          subst
            (λ (vs : List U).
              HasDistinctKeys (map entry vs)
              → All (Fits (map entry vs)) rows
              → write_batches (update_rows key set entry) attempts (chunks (suc size) us) rows
                ≡ some (map (updated (map entry vs)) rows))
            e (write_batches-eq attempts (chunks (suc size) us) rows reaches) distinct fits
