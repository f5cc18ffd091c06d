-- ===== src/Prelude/HashMap.antt =====
-- std::collections::HashMap as an association list. The order of the list is one order in which the
-- map may be iterated, so a statement about every list holds for every iteration order.
use mathlib.Core.Path.{◌≡◌, refl, sym, ◌∙◌, subst}
use mathlib.Core.Logic.{inl, inr, ◌≢◌}
use mathlib.Core.Bool.{Bool}
use mathlib.Core.Option.{Option, none, some}
use mathlib.Core.List.{List, [], ◌∷◌}
use native.Mathlib.Omega.{arith}
use coal_pool_server.Prelude.Tests.{if◌then◌else◌, is_some, Bool-cases}
use coal_pool_server.Prelude.Lists.{All}
use coal_pool_server.Prelude.Keys.{Key, ◌==◌}

abbrev pub HashMap {ℓ κ} : Type ℓ → Type κ → Type (ℓ ⊔ κ)
HashMap K V = List (K × V)

module _ {ℓ κ} {K : Type ℓ} {V : Type κ} ⦃e : Key K⦄ where
  abbrev pub get : K → HashMap K V → Option V
  get k [] = none
  get k ((j, v) ∷ m) = if j == k then some v else get k m

  abbrev pub contains_key : K → HashMap K V → Bool
  contains_key k m = is_some (get k m)

  abbrev pub insert : K → V → HashMap K V → HashMap K V
  insert k v [] = (k, v) ∷ []
  insert k v ((j, w) ∷ m) = if j == k then (j, v) ∷ m else (j, w) ∷ insert k v m

  abbrev pub remove : K → HashMap K V → HashMap K V
  remove k [] = []
  remove k ((j, w) ∷ m) = if j == k then m else (j, w) ∷ remove k m

  -- No key is listed twice.
  abbrev pub HasDistinctKeys : HashMap K V → Type κ
  HasDistinctKeys [] = Unit
  HasDistinctKeys ((k, v) ∷ m) = (get k m ≡ none) × HasDistinctKeys m

  pub get-insert :
      (j k : K) (v : V) (m : HashMap K V)
      → get j (insert k v m) ≡ (if k == j then some v else get j m)
  get-insert j k v [] = refl
  get-insert j k v ((i, w) ∷ m) =
      ground (arith, e.same_iff k j, e.same_iff i k, e.same_iff i j, get-insert j k v m)

  pub get-insert_self : (k : K) (v : V) (m : HashMap K V) → get k (insert k v m) ≡ some v
  get-insert_self k v m = ground (arith, get-insert k k v m, e.same_iff k k)

  pub get-insert_ne : (j k : K) (v : V) (m : HashMap K V) → k ≢ j → get j (insert k v m) ≡ get j m
  get-insert_ne j k v m h = elim (Bool-cases (k == j)) [
    | inl hit ↦ absurd (h ((e.same_iff k j).0 hit))
    | inr miss ↦ get-insert j k v m ∙ rw miss
  ]

  pub get-remove_ne : (j k : K) (m : HashMap K V) → k ≢ j → get j (remove k m) ≡ get j m
  get-remove_ne j k [] h = refl
  get-remove_ne j k ((i, w) ∷ m) h =
      ground (arith, e.same_iff i k, e.same_iff i j, get-remove_ne j k m h)

  pub get-remove_self : (k : K) (m : HashMap K V) → HasDistinctKeys m → get k (remove k m) ≡ none
  get-remove_self k [] h = refl
  get-remove_self k ((i, w) ∷ m) h = ground (arith, e.same_iff i k, get-remove_self k m h.1)

  pub insert-HasDistinctKeys :
      (k : K) (v : V) (m : HashMap K V) → HasDistinctKeys m → HasDistinctKeys (insert k v m)
  insert-HasDistinctKeys k v [] h = (refl, tt)
  insert-HasDistinctKeys k v ((i, w) ∷ m) h =
      ground (
        arith,
        e.same_iff i k,
        e.same_iff k i,
        get-insert i k v m,
        insert-HasDistinctKeys k v m h.1,
      )

  pub remove-HasDistinctKeys :
      (k : K) (m : HashMap K V) → HasDistinctKeys m → HasDistinctKeys (remove k m)
  remove-HasDistinctKeys k [] h = tt
  remove-HasDistinctKeys k ((i, w) ∷ m) h = elim (Bool-cases (i == k)) [
    | inl hit ↦ rw hit h.1
    | inr miss ↦ rw miss (
      get-remove_ne i k m (λ q. absurd (ground (arith, e.same_iff i k))) ∙ h.0,
      remove-HasDistinctKeys k m h.1,
    )
  ]

  pub All-insert {μ} :
      (P : K × V → Type μ) (k : K) (v : V) (m : HashMap K V)
      → P (k, v)
      → All P m
      → All P (insert k v m)
  All-insert P k v [] p h = (p, tt)
  All-insert P k v ((i, w) ∷ m) p h = elim (Bool-cases (i == k)) [
    | inl hit ↦ rw hit (subst (λ x. P (x, v)) (sym ((e.same_iff i k).0 hit)) p, h.1)
    | inr miss ↦ rw miss (h.0, All-insert P k v m p h.1)
  ]

  pub All-remove {μ} : (P : K × V → Type μ) (k : K) (m : HashMap K V) → All P m → All P (remove k m)
  All-remove P k [] h = tt
  All-remove P k ((i, w) ∷ m) h = elim (Bool-cases (i == k)) [
    | inl hit ↦ rw hit h.1
    | inr miss ↦ rw miss (h.0, All-remove P k m h.1)
  ]

  pub All-get {μ} :
      (P : K × V → Type μ) (k : K) (v : V) (m : HashMap K V) → All P m → get k m ≡ some v → P (k, v)
  All-get P k v [] h g = absurd (cc)
  All-get P k v ((i, w) ∷ m) h g = elim (Bool-cases (i == k)) [
    | inl hit ↦ subst P (ground (arith, e.same_iff i k)) h.0
    | inr miss ↦ All-get P k v m h.1 (rw miss at g)
  ]
