-- ===== src/Prelude/Bytes.antt =====
-- Little-endian bytes: `to_le_bytes` at a width, and `from_le_bytes`.
use Prim.Native.Nat.{ℕ, zero, suc, ◌+◌, ◌*◌, ◌/◌, ◌%◌, ◌^◌, ◌<◌}
use mathlib.Core.Path.{◌≡◌, refl}
use mathlib.Core.Option.{Option, none, some}
use mathlib.Core.List.{List, [], ◌∷◌, ◌++◌}
use native.Mathlib.Omega.{arith}
use native.Mathlib.Nat.{pow-suc}
use coal_pool_server.Prelude.Lists.{length, All}

unfoldable pub le_bytes : ℕ → ℕ → List ℕ
le_bytes zero x = []
le_bytes (suc w) x = (x % 256) ∷ le_bytes w (x / 256)

unfoldable pub from_le_bytes : List ℕ → ℕ
from_le_bytes [] = 0
from_le_bytes (b ∷ bs) = b + 256 * from_le_bytes bs

-- A reader takes a fixed number of bytes off the front, or fails.
unfoldable pub read_le : ℕ → List ℕ → Option (ℕ × List ℕ)
read_le zero bs = some (0, bs)
read_le (suc w) [] = none
read_le (suc w) (b ∷ bs) = elim (read_le w bs) [
  | none ↦ none
  | some (x, rest) ↦ some (b + 256 * x, rest)
]

pub length-le_bytes : (w x : ℕ) → length (le_bytes w x) ≡ w
unfolding le_bytes
length-le_bytes zero x = refl
length-le_bytes (suc w) x = omega (arith, length-le_bytes w (x / 256))

pub le_bytes-bytes : (w x : ℕ) → All (λ b. b < 256) (le_bytes w x)
unfolding le_bytes
le_bytes-bytes zero x = tt
le_bytes-bytes (suc w) x = (omega arith, le_bytes-bytes w (x / 256))

-- What a reader of the same width reads back, and what it leaves.
pub read_le-le_bytes :
    (w x : ℕ) (rest : List ℕ) → x < 256 ^ w → read_le w (le_bytes w x ++ rest) ≡ some (x, rest)
unfolding le_bytes read_le
read_le-le_bytes zero x rest h = ground arith
read_le-le_bytes (suc w) x rest h = ground (arith, pow-suc 256 w, read_le-le_bytes w (x / 256) rest)
