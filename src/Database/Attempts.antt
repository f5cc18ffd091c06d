-- ===== src/Database/Attempts.antt =====
-- Loops over batches whose calls are tried until they go through (src/systems): what they need of the
-- accesses, and that the chunks of a list are the list.
use mathlib.Core.List.{flatten}
use coal_pool_server.Prelude.{
  ℕ, zero, suc, ◌≤◌, ◌≡◌, refl, ap, ◌∙◌, List, [], ◌∷◌, ◌++◌, arith, length, take, drop,
  take-append-drop, length-drop-le,
}
use coal_pool_server.Database.{Access, granted, no_connection, broken, chunks_of}

-- Some attempt of a call gets through.
abbrev pub Reaches : List Access → Type 0
Reaches [] = ⊥
Reaches (granted ∷ rest) = Unit
Reaches (no_connection ∷ rest) = Reaches rest
Reaches (broken ∷ rest) = Reaches rest

-- Some attempt of each batch gets through.
abbrev pub ReachesAll : {A : Type 0} → List (List Access) → List A → Type 0
ReachesAll attempts [] = Unit
ReachesAll [] (batch ∷ batches) = ⊥
ReachesAll (accesses ∷ attempts) (batch ∷ batches) = Reaches accesses × ReachesAll attempts batches

pub chunks_of-flatten :
    {A : Type 0} (f size : ℕ) (xs : List A)
    → length xs ≤ f
    → flatten (chunks_of f (suc size) xs) ≡ xs
unfolding flatten
chunks_of-flatten zero size [] le = refl
chunks_of-flatten zero size (x ∷ xs) le = absurd (omega arith)
chunks_of-flatten (suc f) size [] le = refl
chunks_of-flatten (suc f) size (x ∷ xs) le =
    ap (λ rest. (x ∷ take size xs) ++ rest)
      (chunks_of-flatten f size (drop size xs) (omega (arith, length-drop-le size xs)))
    ∙ ap (◌∷◌ x) (take-append-drop size xs)
