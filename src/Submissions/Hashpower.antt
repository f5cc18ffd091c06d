-- ===== src/Submissions/Hashpower.antt =====
-- The hashpower that a difficulty earns: `hashpower_of` of Submissions.
use native.Mathlib.Nat.{pow-suc, pow-le-pow_right}
use coal_pool_server.Prelude.{ℕ, suc, zero, ◌+◌, ◌*◌, ◌-◌, ◌^◌, ◌≤◌, ◌≡◌, refl, arith, min}
use coal_pool_server.Submissions.{
  hashpower_of, pow2_64, min_diff, min_hashpower, max_calculated_hashpower,
}

-- What the code means to compute: the hashpower of the smallest difficulty, doubled for each
-- further bit, up to a cap.
abbrev pub doubled : ℕ → ℕ
doubled diff = min (min_hashpower * 2 ^ (diff - min_diff)) max_calculated_hashpower

pow_bound : (k : ℕ) → k ≤ 57 → 2 ^ k ≤ 2 ^ 57
pow_bound k h = pow-le-pow_right (omega arith) h

-- Up to difficulty 69 the hashpower is the doubled one, under its cap: nothing wraps.
pub hashpower_of-eq : (diff : ℕ) → diff ≤ 69 → hashpower_of diff ≡ doubled diff
unfolding hashpower_of pow2_64
hashpower_of-eq diff h = ground (arith, pow_bound (diff - 12) (omega arith))

pow_split : (j : ℕ) → 2 ^ (60 + j) ≡ 2 ^ 60 * 2 ^ j
pow_split zero = refl
pow_split (suc j) =
    let step : 60 + suc j ≡ suc (60 + j) = omega arith in
    rw (step, pow-suc 2 (60 + j), pow-suc 2 j, pow_split j) (omega arith)

-- From difficulty 12 to 69 the hashpower grows with the difficulty and stays within its limits.
pub hashpower_of_mono :
    (a b : ℕ)
    → min_diff ≤ a
    → a ≤ b
    → b ≤ 69
    → (min_hashpower ≤ hashpower_of a)
      × (hashpower_of a ≤ hashpower_of b)
      × (hashpower_of b ≤ max_calculated_hashpower)
hashpower_of_mono a b lo h hi =
    let grows : 2 ^ (a - 12) ≤ 2 ^ (b - 12) = pow-le-pow_right (omega arith) (omega arith) in
    let one : 2 ^ 0 ≤ 2 ^ (a - 12) = pow-le-pow_right (omega arith) {i = 0} (omega arith) in
    rw (hashpower_of-eq a (omega arith), hashpower_of-eq b hi) (omega arith)

-- From difficulty 72 on the product wraps to nothing: such a submission has no hashpower.
pub hashpower_of_vanishes : (diff : ℕ) → 72 ≤ diff → hashpower_of diff ≡ 0
unfolding hashpower_of pow2_64
hashpower_of_vanishes diff h =
    let e : diff - 12 ≡ 60 + (diff - 72) = omega arith in
    rw e (ground (arith, pow_split (diff - 72)))
