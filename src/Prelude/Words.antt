-- ===== src/Prelude/Words.antt =====
-- Machine words as native numbers. Without overflow checks (the release profile) `+`, `-` and `*`
-- wrap; `as u64` of a `u128` keeps the low 64 bits.
use Prim.Native.Nat.{ℕ, ◌+◌, ◌-◌, ◌*◌, ◌%◌, ◌^◌}

abbrev pub u64_mod : ℕ
u64_mod = 2 ^ 64

abbrev pub add64 : ℕ → ℕ → ℕ
add64 a b = (a + b) % u64_mod

abbrev pub sub64 : ℕ → ℕ → ℕ
sub64 a b = (a + u64_mod - b) % u64_mod

abbrev pub mul64 : ℕ → ℕ → ℕ
mul64 a b = (a * b) % u64_mod

abbrev pub as_u64 : ℕ → ℕ
as_u64 a = a % u64_mod
