-- ===== src/Http2/Huffman/Length.antt =====
-- luaclib-src/lhttp.c: how many bytes `huffman_encode` writes, and what `write_literal` announces.
use silly.Common.{
  ℕ, zero, suc, ◌+◌, ◌-◌, ◌*◌, ◌/◌, ◌%◌, ◌^◌, ◌<◌, ◌≤◌, ◌≡◌, refl, sym, ap, ◌∙◌, List, [], ◌∷◌,
  ◌++◌, ◌⊎◌, append_assoc, some, Bool, true, ◌&&◌, Bool-cases, inl, inr, arith, length,
  length-append, get_or, All, ltb, leb,
}
use silly.Common.Int.{pos}
use silly.Http2.Huffman.Codes.{huffman_codes, huffman_codelen}
use silly.Http2.Huffman.{
  code_bits, huffman_len, add_char, put_code, pad_byte, encode_loop, huffman_encode, write_literal,
}
use silly.Http2.Varint.{write_varint, read_varint}
use silly.Http2.Varint.RoundTrip.{read_varint-write_varint}

-- Every code has one bit at least.
positive : List ℕ → Bool
positive [] = true
positive (n ∷ ns) = ltb 0 n && positive ns

get_or-positive : (ns : List ℕ) (i : ℕ) → positive ns ≡ true → i < length ns → 0 < get_or ns i 0
unfolding positive
get_or-positive [] i h lt = absurd (omega arith)
get_or-positive (n ∷ ns) zero h lt = ground arith
get_or-positive (n ∷ ns) (suc i) h lt = ground (arith, get_or-positive ns i)

codelen-positive : (c : ℕ) → c < 256 → 0 < get_or huffman_codelen c 0
codelen-positive c h = get_or-positive huffman_codelen c table size
  where
    table : positive huffman_codelen ≡ true
    table = unfold positive huffman_codelen in refl

    size : c < length huffman_codelen
    size = unfold huffman_codelen in h

-- The bits of one code, in whole bytes and in the byte that is begun.
put_code-bits :
    (fuel rembits n code nbits : ℕ)
    → nbits < fuel
    → 0 < nbits
    → 0 < rembits
    → rembits ≤ 8
    → let p = put_code fuel rembits n code nbits in
      (length p.out * 8 + (8 - p.rembits) ≡ 8 - rembits + nbits) × (0 < p.rembits) × (p.rembits ≤ 8)
unfolding put_code add_char
put_code-bits zero rembits n code nbits hf hn h0 h8 = absurd (omega arith)
put_code-bits (suc fuel) rembits n code nbits hf hn h0 h8 =
    ground (arith, put_code-bits fuel 8 0 code (nbits - rembits))

encode_loop-bits :
    (rembits n : ℕ) (str : List ℕ)
    → All (λ (c : ℕ). c < 256) str
    → 0 < rembits
    → rembits ≤ 8
    → length (encode_loop rembits n str) ≡ (8 - rembits + code_bits str + 7) / 8
unfolding encode_loop pad_byte code_bits
encode_loop-bits rembits n [] h h0 h8 = ground arith
encode_loop-bits rembits n (c ∷ str) (hc, h) h0 h8 =
    let nbits : ℕ = get_or huffman_codelen c 0 in
    let p = put_code (suc nbits) rembits n (get_or huffman_codes c 0) nbits in
    let (sum, p0, p8) =
      put_code-bits (suc nbits) rembits n (get_or huffman_codes c 0) nbits (omega arith)
        (codelen-positive c hc) h0 h8 in
    omega (
      arith,
      sum,
      length-append {0} p.out (encode_loop p.rembits p.n str),
      encode_loop-bits p.rembits p.n str h p0 p8,
    )

-- No code is longer than 30 bits.
narrow : List ℕ → Bool
narrow [] = true
narrow (n ∷ ns) = leb n 30 && narrow ns

get_or-narrow : (ns : List ℕ) (i : ℕ) → narrow ns ≡ true → get_or ns i 0 ≤ 30
unfolding narrow
get_or-narrow [] i h = omega arith
get_or-narrow (n ∷ ns) zero h = ground arith
get_or-narrow (n ∷ ns) (suc i) h = ground (arith, get_or-narrow ns i)

codelen-narrow : (c : ℕ) → get_or huffman_codelen c 0 ≤ 30
codelen-narrow c = get_or-narrow huffman_codelen c table
  where
    table : narrow huffman_codelen ≡ true
    table = unfold narrow huffman_codelen in refl

code_bits_bound : (str : List ℕ) → code_bits str ≤ 30 * length str
unfolding code_bits
code_bits_bound [] = omega arith
code_bits_bound (c ∷ str) = omega (arith, codelen-narrow c, code_bits_bound str)

-- `huffman_encode` writes exactly the number of bytes that `huffman_len` computes, for a string
-- shorter than 2^29.
pub length-huffman_encode :
    (str : List ℕ)
    → All (λ (c : ℕ). c < 256) str
    → length str < 2 ^ 29
    → length (huffman_encode str) ≡ huffman_len str
unfolding huffman_encode huffman_len
length-huffman_encode str h short =
    let bits = code_bits_bound str in
    let fits : (code_bits str + 7) / 8 % 4294967296 ≡ (code_bits str + 7) / 8 =
      omega (arith, bits) in
    let small : ltb ((code_bits str + 7) / 8) 2147483648 ≡ true = ground (arith, bits) in
    encode_loop-bits 8 0 str h (omega arith) (omega arith)
    ∙ ap (λ (n : ℕ). n / 8) {x = 8 - 8 + code_bits str + 7} {y = code_bits str + 7} (omega arith)
    ∙ rw (fits, small) refl

-- `read_varint` at what `write_literal` wrote for a string of bytes shorter than 2^29 returns the
-- number of bytes up to whatever follows the literal, and the flag tells what they are: the string
-- itself, or its Huffman code, which is then the shorter of the two.
pub write_literal-announces :
    (str : List ℕ) (old : ℕ) (rest : List ℕ)
    → All (λ (c : ℕ). c < 256) str
    → length str < 2 ^ 29
    → (flag : ℕ) × (content : List ℕ) × (read_varint 7 old (write_literal str ++ rest)
        ≡ some (pos (length content), flag, content ++ rest))
      × (((flag ≡ 0) × (content ≡ str) × (length str ≤ length (huffman_encode str)))
          ⊎ ((flag ≡ 1) × (content ≡ huffman_encode str) × (length content < length str)))
unfolding write_literal
write_literal-announces str old rest h short =
    let size = length-huffman_encode str h short in
    elim (Bool-cases (ltb (huffman_len str) (length str))) [
      | inl e ↦ (
        1,
        huffman_encode str,
        rw e (
            ap (read_varint 7 old)
              (append_assoc (write_varint 1 (huffman_len str) 7) (huffman_encode str) rest)
            ∙ read_varint-write_varint 1 (huffman_len str) 7 old (huffman_encode str ++ rest)
                (ground arith) (omega arith)
            ∙ ap (λ (n : ℕ). some (pos n, 1, huffman_encode str ++ rest)) (sym size)),
        inr (refl, refl, ground arith),
      )
      | inr e ↦ (
        0,
        str,
        rw e (
            ap (read_varint 7 old) (append_assoc (write_varint 0 (length str) 7) str rest)
            ∙ read_varint-write_varint 0 (length str) 7 old (str ++ rest) (omega arith)
                (omega arith)),
        inl (refl, refl, ground arith),
      )
    ]
