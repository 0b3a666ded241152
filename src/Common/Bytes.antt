-- ===== src/Common/Bytes.antt =====
-- Bytes and the little-endian words that the code copies between buffers.
use silly.Common.Lists.{drop}
use Prim.Native.Nat.{ℕ, ◌+◌, ◌*◌, ◌/◌, ◌%◌, ◌^◌, ◌<◌}
use mathlib.Core.Path.{◌≡◌}
use mathlib.Core.List.{List, [], ◌∷◌, ◌++◌}
use native.Mathlib.Omega.{arith}

-- The bytes of a `uint32_t`, as `memcpy` lays them out on a little-endian machine.
unfoldable pub put_u32 : ℕ → List ℕ
put_u32 v = v % 256 ∷ v / 256 % 256 ∷ v / 65536 % 256 ∷ v / 16777216 % 256 ∷ []

-- The `uint32_t` whose first four bytes the list begins with; missing bytes count as 0.
unfoldable pub get_u32 : List ℕ → ℕ
get_u32 (a ∷ b ∷ c ∷ d ∷ r) = a + b * 256 + c * 65536 + d * 16777216
get_u32 _ = 0

pub get_u32-put_u32 : (v : ℕ) → v < 2 ^ 32 → get_u32 (put_u32 v) ≡ v
unfolding get_u32 put_u32
get_u32-put_u32 v h = omega arith

-- The same for a `uint64_t`.
unfoldable pub put_u64 : ℕ → List ℕ
put_u64 v = put_u32 v ++ put_u32 (v / 2 ^ 32)

unfoldable pub get_u64 : List ℕ → ℕ
unfolding get_u32
get_u64 bs = get_u32 bs + get_u32 (drop 4 bs) * 2 ^ 32

pub get_u32-put_u32_append : (v : ℕ) (r : List ℕ) → v < 2 ^ 32 → get_u32 (put_u32 v ++ r) ≡ v
unfolding get_u32 put_u32
get_u32-put_u32_append v r h = omega arith

pub get_u64-put_u64_append : (v : ℕ) (r : List ℕ) → v < 2 ^ 64 → get_u64 (put_u64 v ++ r) ≡ v
unfolding get_u64 get_u32 put_u64 put_u32
get_u64-put_u64_append v r h = omega arith
