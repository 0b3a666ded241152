-- ===== src/Http2/Varint/RoundTrip.antt =====
-- luaclib-src/lhttp.c: `read_varint` on what `write_varint` wrote.
use silly.Common.{
  ℕ, zero, suc, ◌+◌, ◌-◌, ◌*◌, ◌/◌, ◌%◌, ◌^◌, ◌<◌, ◌≤◌, ◌≡◌, ap, ◌∙◌, List, ◌∷◌, ◌++◌, some, arith,
  true, false, Bool-cases, inl, inr, ltb, leb, ◌==◌,
}
use silly.Common.Int.{pos}
use silly.Http2.Varint.{write_groups, write_varint, read_groups, to_int, read_varint}
use native.Mathlib.Nat.{div-add-mod, one-le-pow}
use native.Mathlib.Numerals.{towards_suc}

shift_seven : (s : ℕ) → 2 ^ (s + 7) ≡ 128 * 2 ^ s
shift_seven s = simp towards_suc (omega arith)

-- The low group of `i` and what is above it.
split_group : (i s : ℕ) → i * 2 ^ s ≡ i % 128 * 2 ^ s + i / 128 * 2 ^ (s + 7)
split_group i s = omega (
  arith,
  ap (λ (t : ℕ). t * 2 ^ s) (div-add-mod i 128),
  ap (λ (t : ℕ). i / 128 * t) (shift_seven s),
)

-- One round on a group `g`, the last and one before it.
last_group :
    (g shift acc : ℕ) (rest : List ℕ)
    → g < 128
    → shift < 32
    → acc + g * 2 ^ shift < 2 ^ 31
    → read_groups shift acc (g ∷ rest) ≡ some (acc + g * 2 ^ shift, rest)
unfolding read_groups
last_group g shift acc rest hg hs h =
    let low : g % 128 ≡ g = omega arith in
    let narrow : leb 32 shift ≡ false = ground arith in
    let small : leb 2147483648 (g * 2 ^ shift) ≡ false = ground arith in
    let top : (g / 128 % 2 == 0) ≡ true = ground arith in
    let sum : (acc + g * 2 ^ shift) % 4294967296 ≡ acc + g * 2 ^ shift = omega arith in
    rw (low, narrow, small, top, sum)

inner_group :
    (g shift acc : ℕ) (rest : List ℕ)
    → g < 128
    → shift < 32
    → acc + g * 2 ^ shift < 2 ^ 31
    → read_groups shift acc ((g + 128) ∷ rest) ≡ read_groups (shift + 7) (acc + g * 2 ^ shift) rest
unfolding read_groups
inner_group g shift acc rest hg hs h =
    let low : (g + 128) % 128 ≡ g = omega arith in
    let narrow : leb 32 shift ≡ false = ground arith in
    let small : leb 2147483648 (g * 2 ^ shift) ≡ false = ground arith in
    let top : ((g + 128) / 128 % 2 == 0) ≡ false = ground arith in
    let sum : (acc + g * 2 ^ shift) % 4294967296 ≡ acc + g * 2 ^ shift = omega arith in
    rw (low, narrow, small, top, sum)

-- `i` is what is still to be read.
read_groups-write_groups :
    (fuel i shift acc : ℕ) (rest : List ℕ)
    → i < 128 ^ suc fuel
    → shift + 7 * fuel < 32
    → acc + i * 2 ^ shift < 2 ^ 31
    → read_groups shift acc (write_groups (suc fuel) i ++ rest) ≡ some (acc + i * 2 ^ shift, rest)
unfolding write_groups
read_groups-write_groups zero i shift acc rest hi hs h =
    let e : ltb i 128 ≡ true = ground arith in
    rw e (last_group i shift acc rest (ground arith) (omega arith) h)
read_groups-write_groups (suc fuel) i shift acc rest hi hs h = elim (Bool-cases (ltb i 128)) [
  | inl e ↦ rw e (last_group i shift acc rest (ground arith) (omega arith) h)
  | inr e ↦
      let split = split_group i shift in
      let same : acc + i % 128 * 2 ^ shift + i / 128 * 2 ^ (shift + 7) ≡ acc + i * 2 ^ shift =
        omega (arith, split) in
      rw e (
        inner_group (i % 128) shift acc _ (omega arith) (omega arith) (omega (arith, split))
        ∙ read_groups-write_groups fuel (i / 128) (shift + 7) (acc + i % 128 * 2 ^ shift) rest
            (omega arith) (omega arith) (omega arith)
        ∙ ap (λ (n : ℕ). some (n, rest)) same)
]

-- The two parts of the first byte.
first_byte : (flag m j : ℕ) → j < m → ((flag * m + j) % m ≡ j) × ((flag * m + j) / m ≡ flag)
first_byte flag m j h = (grind arith, grind arith)

to_int_lem : (i : ℕ) → i < 2 ^ 31 → to_int i ≡ pos i
unfolding to_int
to_int_lem i h = let e : ltb i 2147483648 ≡ true = ground arith in rw e

-- `read_varint` reads back the number below 2^31 and the flag that `write_varint` wrote with as
-- many `bits`, and leaves what follows. The flag and the `bits` fit one byte.
pub read_varint-write_varint :
    (flag i bits old : ℕ) (rest : List ℕ)
    → i < 2 ^ 31
    → flag * 2 ^ bits + 2 ^ bits ≤ 256
    → read_varint bits old (write_varint flag i bits ++ rest) ≡ some (pos i, flag, rest)
unfolding read_varint write_varint
read_varint-write_varint flag i bits old rest hi hf =
    let m : ℕ = 2 ^ bits in
    let m0 : 1 ≤ 2 ^ bits = one-le-pow bits 2 (omega arith) in
    elim (Bool-cases (ltb i (2 ^ bits - 1))) [
      | inl e ↦
          let less : i < 2 ^ bits - 1 = ground arith in
          let byte : (flag * 2 ^ bits + i) % 256 ≡ flag * 2 ^ bits + i = omega arith in
          let (low, high) = first_byte flag (2 ^ bits) i (omega arith) in
          let short : leb (2 ^ bits - 1) i ≡ false = ground arith in
          rw (e, byte, low, high, short, to_int_lem i hi)
      | inr e ↦
          let max : ℕ = 2 ^ bits - 1 in
          let more : 2 ^ bits - 1 ≤ i = ground arith in
          let byte : (flag * 2 ^ bits + (2 ^ bits - 1)) % 256 ≡ flag * 2 ^ bits + (2 ^ bits - 1) =
            omega arith in
          let (low, high) = first_byte flag (2 ^ bits) (2 ^ bits - 1) (omega arith) in
          let long : leb (2 ^ bits - 1) (2 ^ bits - 1) ≡ true = ground arith in
          let whole : 2 ^ bits - 1 + (i - (2 ^ bits - 1)) * 2 ^ 0 ≡ i = omega arith in
          let groups : read_groups 0 (2 ^ bits - 1) (write_groups 5 (i - (2 ^ bits - 1)) ++ rest)
              ≡ some (i, rest) =
            read_groups-write_groups 4 (i - (2 ^ bits - 1)) 0 (2 ^ bits - 1) rest (omega arith)
              (omega arith) (omega arith)
            ∙ ap (λ (n : ℕ). some (n, rest)) whole in
          rw (e, byte, low, high, long, groups, to_int_lem i hi)
    ]
