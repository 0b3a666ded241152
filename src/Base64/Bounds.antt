-- ===== src/Base64/Bounds.antt =====
-- The sizes that the buffers are allocated with are enough.
use silly.Common.{
  ℕ, ◌+◌, ◌*◌, ◌/◌, ◌≤◌, List, [], ◌∷◌, true, false, Bool, arith, length, length-append,
}
use silly.Base64.{encode_bytes, strip, decode_group, decode_bytes}

-- The loop of `encodex` fills the `need` bytes that it asks for, and never more, whatever the input.
pub length-encode_bytes :
    (u : Bool) (xs : List ℕ) → length (encode_bytes u xs) ≤ (length xs + 2) / 3 * 4
unfolding encode_bytes
length-encode_bytes u (a ∷ b ∷ c ∷ r) = omega (arith, length-encode_bytes u r)
length-encode_bytes true (a ∷ b ∷ []) = omega arith
length-encode_bytes false (a ∷ b ∷ []) = omega arith
length-encode_bytes true (a ∷ []) = omega arith
length-encode_bytes false (a ∷ []) = omega arith
length-encode_bytes true [] = omega arith
length-encode_bytes false [] = omega arith

length-decode_group : (xs : List ℕ) → length (decode_group xs) ≤ 3
unfolding decode_group
length-decode_group [] = omega arith
length-decode_group (a ∷ []) = omega arith
length-decode_group (a ∷ b ∷ []) = omega arith
length-decode_group (a ∷ b ∷ c ∷ []) = omega arith
length-decode_group (a ∷ b ∷ c ∷ d ∷ []) = omega arith
length-decode_group (a ∷ b ∷ c ∷ d ∷ e ∷ r) = omega arith

-- The loop of `ldecode` writes no more than the bytes that it asks for, whatever the input.
pub length-decode_bytes : (xs : List ℕ) → length (decode_bytes xs) ≤ (length xs + 3) / 4 * 3
unfolding decode_bytes
length-decode_bytes [] = omega arith
length-decode_bytes (a ∷ []) = omega (arith, length-decode_group (strip (a ∷ [])))
length-decode_bytes (a ∷ b ∷ []) = omega (arith, length-decode_group (strip (a ∷ b ∷ [])))
length-decode_bytes (a ∷ b ∷ c ∷ []) = omega (arith, length-decode_group (strip (a ∷ b ∷ c ∷ [])))
length-decode_bytes (a ∷ b ∷ c ∷ d ∷ r) =
    let group = decode_group (strip (a ∷ b ∷ c ∷ d ∷ [])) in
    omega (
      arith,
      length-append group (decode_bytes r),
      length-decode_group (strip (a ∷ b ∷ c ∷ d ∷ [])),
      length-decode_bytes r,
    )
