-- ===== src/Base64/RoundTrip.antt =====
-- Decoding what was encoded, in either alphabet.
use silly.Common.{
  ℕ, ◌+◌, ◌*◌, ◌/◌, ◌^◌, ◌<◌, ◌≡◌, refl, sym, subst, append-nil, ap, ap₂, ◌∙◌, List, [], ◌∷◌, Bool,
  true, false, arith, ◌==◌, All, ◌>>=◌, some, ltb, lt→ltb, length,
}
use silly.Base64.{
  pad, dict, undict, sextet, encode_bytes, encodex, strip, octet, decode_group, decode_bytes,
  ldecode,
}
use silly.Base64.Bounds.{length-encode_bytes}

undict-dict : (u : Bool) (k : ℕ) → k < 64 → undict (dict u k) ≡ k
unfolding undict dict
undict-dict true k h = ground arith
undict-dict false k h = ground arith

dict-pad : (u : Bool) (k : ℕ) → k < 64 → (dict u k == pad) ≡ false
unfolding dict
dict-pad true k h = ground arith
dict-pad false k h = ground arith

-- A group that ends in no '=', or whose rest are '='.
strip4 : (x y z w : ℕ) → (w == pad) ≡ false → strip (x ∷ y ∷ z ∷ w ∷ []) ≡ x ∷ y ∷ z ∷ w ∷ []
unfolding strip
strip4 x y z w e = rw e

strip3 : (x y z : ℕ) → (z == pad) ≡ false → strip (x ∷ y ∷ z ∷ []) ≡ x ∷ y ∷ z ∷ []
unfolding strip
strip3 x y z e = rw e

strip2 : (x y : ℕ) → (y == pad) ≡ false → strip (x ∷ y ∷ []) ≡ x ∷ y ∷ []
unfolding strip
strip2 x y e = rw e

strip3_pad : (x y z : ℕ) → (z == pad) ≡ false → strip (x ∷ y ∷ z ∷ pad ∷ []) ≡ x ∷ y ∷ z ∷ []
unfolding strip
strip3_pad x y z e = rw e

strip2_pad : (x y : ℕ) → (y == pad) ≡ false → strip (x ∷ y ∷ pad ∷ pad ∷ []) ≡ x ∷ y ∷ []
unfolding strip
strip2_pad x y e = rw e

module _ (u : Bool) where
  group4 :
      (i j k l : ℕ)
      → i < 64
      → j < 64
      → k < 64
      → l < 64
      → let n = i * 2 ^ 18 + j * 2 ^ 12 + k * 2 ^ 6 + l in
        decode_group (strip (dict u i ∷ dict u j ∷ dict u k ∷ dict u l ∷ []))
        ≡ octet n 16 ∷ octet n 8 ∷ octet n 0 ∷ []
  unfolding decode_group
  group4 i j k l hi hj hk hl = rw (
    strip4 (dict u i) (dict u j) (dict u k) (dict u l) (dict-pad u l hl),
    undict-dict u i hi,
    undict-dict u j hj,
    undict-dict u k hk,
    undict-dict u l hl,
  )

  read3 :
      (i j k : ℕ)
      → i < 64
      → j < 64
      → k < 64
      → let n = i * 2 ^ 18 + j * 2 ^ 12 + k * 2 ^ 6 in
        decode_group (dict u i ∷ dict u j ∷ dict u k ∷ []) ≡ octet n 16 ∷ octet n 8 ∷ []
  unfolding decode_group
  read3 i j k hi hj hk = rw (undict-dict u i hi, undict-dict u j hj, undict-dict u k hk)

  read2 :
      (i j : ℕ)
      → i < 64
      → j < 64
      → decode_group (dict u i ∷ dict u j ∷ []) ≡ octet (i * 2 ^ 18 + j * 2 ^ 12) 16 ∷ []
  unfolding decode_group
  read2 i j hi hj = rw (undict-dict u i hi, undict-dict u j hj)

-- The bytes come back from their sextets.
bytes3 :
    (a b c : ℕ) (r : List ℕ)
    → a < 256
    → b < 256
    → c < 256
    → let n = a * 2 ^ 16 + b * 2 ^ 8 + c in
      let m = sextet n 18 * 2 ^ 18 + sextet n 12 * 2 ^ 12 + sextet n 6 * 2 ^ 6 + sextet n 0 in
      octet m 16 ∷ octet m 8 ∷ octet m 0 ∷ r ≡ a ∷ b ∷ c ∷ r
bytes3 a b c r ha hb hc =
    let n : ℕ = a * 2 ^ 16 + b * 2 ^ 8 + c in
    let m : ℕ = sextet n 18 * 2 ^ 18 + sextet n 12 * 2 ^ 12 + sextet n 6 * 2 ^ 6 + sextet n 0 in
    let same : m ≡ n = omega arith in
    subst (λ (k : ℕ). octet k 16 ∷ octet k 8 ∷ octet k 0 ∷ r ≡ a ∷ b ∷ c ∷ r) (sym same)
      (cons3 (octet n 16) (octet n 8) (octet n 0) a b c r (omega arith) (omega arith) (omega arith))
  where
    cons3 :
        (x y z x' y' z' : ℕ) (r : List ℕ)
        → x ≡ x'
        → y ≡ y'
        → z ≡ z'
        → x ∷ y ∷ z ∷ r ≡ x' ∷ y' ∷ z' ∷ r
    cons3 x y z x' y' z' r p q s = rw (p, q, s)

bytes2 :
    (a b : ℕ)
    → a < 256
    → b < 256
    → let n = a * 2 ^ 16 + b * 2 ^ 8 in
      let m = n / 2 ^ 18 * 2 ^ 18 + sextet n 12 * 2 ^ 12 + sextet n 6 * 2 ^ 6 in
      octet m 16 ∷ octet m 8 ∷ [] ≡ a ∷ b ∷ []
bytes2 a b ha hb = ap₂ (λ (x y : ℕ). x ∷ y ∷ []) (omega arith) (omega arith)

bytes1 :
    (a : ℕ)
    → a < 256
    → octet (a * 2 ^ 16 / 2 ^ 18 * 2 ^ 18 + sextet (a * 2 ^ 16) 12 * 2 ^ 12) 16 ∷ [] ≡ a ∷ []
bytes1 a ha = ap (λ (x : ℕ). x ∷ []) (omega arith)

decode_bytes-encode_bytes :
    (u : Bool) (xs : List ℕ) → All (λ x. x < 256) xs → decode_bytes (encode_bytes u xs) ≡ xs
unfolding decode_bytes encode_bytes
decode_bytes-encode_bytes u (a ∷ b ∷ c ∷ r) (ha, (hb, (hc, hr))) =
    let n : ℕ = a * 2 ^ 16 + b * 2 ^ 8 + c in
    rw
      (
        group4 u (sextet n 18) (sextet n 12) (sextet n 6) (sextet n 0) (omega arith) (omega arith)
            (omega arith) (omega arith),
        decode_bytes-encode_bytes u r hr,
      )
      (bytes3 a b c r ha hb hc)
decode_bytes-encode_bytes true (a ∷ b ∷ []) (ha, (hb, _)) =
    let n : ℕ = a * 2 ^ 16 + b * 2 ^ 8 in
    ap decode_group (strip3 _ _ _ (dict-pad true (sextet n 6) (omega arith)))
    ∙ read3 true (n / 2 ^ 18) (sextet n 12) (sextet n 6) (omega arith) (omega arith) (omega arith)
    ∙ bytes2 a b ha hb
decode_bytes-encode_bytes false (a ∷ b ∷ []) (ha, (hb, _)) =
    let n : ℕ = a * 2 ^ 16 + b * 2 ^ 8 in
    append-nil _
    ∙ ap decode_group (strip3_pad _ _ _ (dict-pad false (sextet n 6) (omega arith)))
    ∙ read3 false (n / 2 ^ 18) (sextet n 12) (sextet n 6) (omega arith) (omega arith) (omega arith)
    ∙ bytes2 a b ha hb
decode_bytes-encode_bytes true (a ∷ []) (ha, _) =
    let n : ℕ = a * 2 ^ 16 in
    ap decode_group (strip2 _ _ (dict-pad true (sextet n 12) (omega arith)))
    ∙ read2 true (n / 2 ^ 18) (sextet n 12) (omega arith) (omega arith)
    ∙ bytes1 a ha
decode_bytes-encode_bytes false (a ∷ []) (ha, _) =
    let n : ℕ = a * 2 ^ 16 in
    append-nil _
    ∙ ap decode_group (strip2_pad _ _ (dict-pad false (sextet n 12) (omega arith)))
    ∙ read2 false (n / 2 ^ 18) (sextet n 12) (omega arith) (omega arith)
    ∙ bytes1 a ha
decode_bytes-encode_bytes true [] h = refl
decode_bytes-encode_bytes false [] h = refl

-- `ldecode` gives back every string of bytes that `encode` or `urlsafe_encode` was given, up to the
-- lengths for which the sizes of both fit their `int`s: neither fails.
pub ldecode-encodex :
    (u : Bool) (xs : List ℕ)
    → All (λ x. x < 256) xs
    → (length xs + 2) / 3 * 4 + 3 < 2 ^ 31
    → (encodex u xs >>= ldecode) ≡ some xs
unfolding ldecode encodex
ldecode-encodex u xs h short =
    let need : ltb ((length xs + 2) / 3 * 4) 2147483648 ≡ true = lt→ltb _ _ (omega arith) in
    let size : ltb (length (encode_bytes u xs) + 3) 2147483648 ≡ true =
      lt→ltb _ _ (omega (arith, length-encode_bytes u xs)) in
    rw (need, size) (ap (λ (ys : List ℕ). some ys) (decode_bytes-encode_bytes u xs h))
