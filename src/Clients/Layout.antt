-- ===== src/Clients/Layout.antt =====
-- Cutting a list of bytes into the parts of a submission (`process_message` of src/main.rs).
use coal_pool_server.Prelude.{
  ℕ, zero, suc, ◌+◌, ◌-◌, ◌≤◌, ◌≡◌, refl, sym, ap, ◌∙◌, List, [], ◌∷◌, ◌++◌, take, drop, length,
  arith, take-append-drop,
}

pub length-take : (n : ℕ) (xs : List ℕ) → n ≤ length xs → length (take n xs) ≡ n
length-take zero xs le = refl
length-take (suc n) [] le = absurd (omega (arith, le))
length-take (suc n) (x ∷ xs) le = omega (arith, length-take n xs (omega (arith, le)))

pub length-drop : (n : ℕ) (xs : List ℕ) → length (drop n xs) ≡ length xs - n
length-drop zero xs = omega arith
length-drop (suc n) [] = omega arith
length-drop (suc n) (x ∷ xs) = omega (arith, length-drop n xs)

pub drop_nil : (m : ℕ) → drop {A = ℕ} m [] ≡ []
drop_nil zero = refl
drop_nil (suc m) = refl

pub drop-drop : (m n : ℕ) (xs : List ℕ) → drop m (drop n xs) ≡ drop (n + m) xs
drop-drop m zero xs = let e : m ≡ 0 + m = omega arith in ap (λ k. drop k xs) e
drop-drop m (suc n) [] = drop_nil m ∙ sym (drop_nil (suc n + m))
drop-drop m (suc n) (x ∷ xs) =
    let e : suc (n + m) ≡ suc n + m = omega arith in drop-drop m n xs ∙ ap (λ k. drop k (x ∷ xs)) e

pub split : (m n : ℕ) (xs : List ℕ) → drop n xs ≡ take m (drop n xs) ++ drop (n + m) xs
split m n xs =
    sym (take-append-drop m (drop n xs)) ∙ ap (λ ys. take m (drop n xs) ++ ys) (drop-drop m n xs)

pub layout_of :
    (rest : List ℕ)
    → rest ≡ take 16 rest ++ (take 8 (drop 16 rest) ++ (take 32 (drop 24 rest) ++ drop 56 rest))
layout_of rest =
    split 16 0 rest
    ∙ ap (λ ys. take 16 rest ++ ys)
        (split 8 16 rest ∙ ap (λ ys. take 8 (drop 16 rest) ++ ys) (split 32 24 rest))

pub take_front : (n : ℕ) (xs ys : List ℕ) → length xs ≡ n → take n (xs ++ ys) ≡ xs
take_front zero [] ys e = refl
take_front zero (x ∷ xs) ys e = absurd (omega (arith, e))
take_front (suc n) [] ys e = absurd (omega (arith, e))
take_front (suc n) (x ∷ xs) ys e =
    ap (λ (zs : List ℕ). x ∷ zs) (take_front n xs ys (omega (arith, e)))

pub drop_front : (n : ℕ) (xs ys : List ℕ) → length xs ≡ n → drop n (xs ++ ys) ≡ ys
drop_front zero [] ys e = refl
drop_front zero (x ∷ xs) ys e = absurd (omega (arith, e))
drop_front (suc n) [] ys e = absurd (omega (arith, e))
drop_front (suc n) (x ∷ xs) ys e = drop_front n xs ys (omega (arith, e))

-- The parts of a message that is laid out like a submission.
pub slices :
    (digest nonce key rest : List ℕ)
    → length digest ≡ 16
    → length nonce ≡ 8
    → length key ≡ 32
    → let d = digest ++ (nonce ++ (key ++ rest)) in
      (take 16 d ≡ digest)
      × (take 8 (drop 16 d) ≡ nonce)
      × (take 32 (drop 24 d) ≡ key)
      × (drop 56 d ≡ rest)
slices digest nonce key rest w1 w2 w3 =
    let d = digest ++ (nonce ++ (key ++ rest)) in
    let first : drop 16 d ≡ nonce ++ (key ++ rest) =
      drop_front 16 digest (nonce ++ (key ++ rest)) w1 in
    let second : drop 24 d ≡ key ++ rest =
      sym (drop-drop 8 16 d) ∙ ap (drop 8) first ∙ drop_front 8 nonce (key ++ rest) w2 in
    let third : drop 56 d ≡ rest =
      sym (drop-drop 32 24 d) ∙ ap (drop 32) second ∙ drop_front 32 key rest w3 in
    (
      take_front 16 digest (nonce ++ (key ++ rest)) w1,
      ap (take 8) first ∙ take_front 8 nonce (key ++ rest) w2,
      ap (take 32) second ∙ take_front 32 key rest w3,
      third,
    )
