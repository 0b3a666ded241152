-- ===== src/Http2/Varint.antt =====
-- luaclib-src/lhttp.c: `write_varint` and `read_varint`, the integers of HPACK (RFC 7541, 5.1).
pub mod RoundTrip
use silly.Common.{
  ℕ, zero, suc, ◌+◌, ◌-◌, ◌*◌, ◌/◌, ◌%◌, ◌^◌, List, [], ◌∷◌, ◌++◌, Option, none, some, ◌||◌, ltb,
  leb, ◌==◌, if◌then◌else◌, ◌>>=◌,
}
use silly.Common.Int.{ℤ, pos, negsuc}

-- The `while` on what is left of a `uint32_t` and the byte behind it: seven bits at a time, so five
-- rounds at most.
unfoldable pub write_groups : ℕ → ℕ → List ℕ
write_groups zero i = []
write_groups (suc fuel) i =
    let rest = write_groups fuel (i / 128) in if ltb i 128 then i ∷ [] else (i % 128 + 128) ∷ rest

-- `flag << bits` and the low `bits` bits share no bit.
unfoldable pub write_varint : ℕ → ℕ → ℕ → List ℕ
unfolding write_groups
write_varint flag i bits =
    if ltb i (2 ^ bits - 1)
    then ((flag * 2 ^ bits + i) % 256) ∷ []
    else ((flag * 2 ^ bits + (2 ^ bits - 1)) % 256) ∷ write_groups 5 (i - (2 ^ bits - 1))

-- The `while` of `read_varint`, on the shift and the value so far. A shift by 32 bits or more,
-- and a product that an `int` does not hold, C leaves undefined: this is `none`. It ends at the
-- end of the input too.
unfoldable pub read_groups : ℕ → ℕ → List ℕ → Option (ℕ × List ℕ)
read_groups shift i [] = some (i, [])
read_groups shift i (b ∷ p) =
    let added = (i + b % 128 * 2 ^ shift) % 2 ^ 32 in
    let rest = read_groups (shift + 7) added p in
    if leb 32 shift || leb (2 ^ 31) (b % 128 * 2 ^ shift)
    then none
    else if b / 128 % 2 == 0
    then some (added, p)
    else rest

-- The `unsigned int` as the `int` that is returned.
unfoldable pub to_int : ℕ → ℤ
to_int i = if ltb i (2 ^ 31) then pos i else negsuc (2 ^ 32 - 1 - i)

-- The number, `ctx->flag`, and the rest of the input.
unfoldable pub read_varint : ℕ → ℕ → List ℕ → Option (ℤ × ℕ × List ℕ)
unfolding read_groups to_int
read_varint bits flag [] = some (pos 0, flag, [])
read_varint bits flag (b ∷ p) =
    if leb (2 ^ bits - 1) (b % 2 ^ bits)
    then (read_groups 0 (b % 2 ^ bits) p >>= λ r. some (to_int r.0, b / 2 ^ bits, r.1))
    else some (to_int (b % 2 ^ bits), b / 2 ^ bits, p)
