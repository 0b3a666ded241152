-- ===== src/Http2/Huffman.antt =====
-- luaclib-src/lhttp.c and http2_table.h: the Huffman code of HPACK, its encoder and the strings that
-- use it.
pub mod Codes
pub mod Length
use silly.Common.{
  ℕ, zero, suc, ◌+◌, ◌-◌, ◌*◌, ◌/◌, ◌%◌, ◌^◌, List, [], ◌∷◌, ◌++◌, ltb, ◌==◌, if◌then◌else◌, length,
  get_or,
}
use Prim.Native.Nat.{bit_or}
use silly.Http2.Huffman.Codes.{huffman_codes, huffman_codelen}
use silly.Http2.Varint.{write_varint}

-- The sum in the loop of `huffman_len`, and the bytes that so many bits take. They are returned as
-- an `int`, which `write_literal` makes a `size_t` again: what does not fit the `int` is negative,
-- so that it becomes a number of 64 bits at the upper end. The sum is below 2^64 for every string
-- that fits the memory. The length of the string is an `int` in the loop as well: one of 2^31 bytes or
-- more is not modelled.
unfoldable pub code_bits : List ℕ → ℕ
code_bits [] = 0
code_bits (c ∷ str) = get_or huffman_codelen c 0 + code_bits str

unfoldable pub huffman_len : List ℕ → ℕ
unfolding code_bits
huffman_len str =
    let n = (code_bits str + 7) / 8 % 2 ^ 32 in if ltb n (2 ^ 31) then n else 2 ^ 64 - 2 ^ 32 + n

-- `rembits` and `n`, and the bytes that were added.
pub record Packing : Type 0 where
  pub rembits : ℕ
  pub n : ℕ
  pub out : List ℕ

-- A byte in front of those that are added later.
unfoldable pub add_char : ℕ → Packing → Packing
add_char b p = record p { out = b ∷ p.out }

-- The `for (;;)` of `huffman_encode` on a code of which `nbits` bits are left; each round but the
-- last takes one bit at least.
unfoldable pub put_code : ℕ → ℕ → ℕ → ℕ → ℕ → Packing
unfolding add_char
put_code zero rembits n code nbits = record { rembits = rembits; n = n; out = [] }
put_code (suc fuel) rembits n code nbits =
    let rest = put_code fuel 8 0 code (nbits - rembits) in
    let b = bit_or n (code / 2 ^ (nbits - rembits) % 256) in
    if ltb nbits rembits
    then record {
      rembits = rembits - nbits;
      n = bit_or n (code * 2 ^ (rembits - nbits) % 256);
      out = [];
    }
    else if nbits == rembits
    then record { rembits = 8; n = 0; out = b ∷ [] }
    else add_char b rest

-- What follows the loop: the last byte is filled up with ones.
unfoldable pub pad_byte : ℕ → ℕ → List ℕ
pad_byte rembits n =
    if ltb rembits 8 then bit_or n (1073741823 / 2 ^ (30 - rembits) % 256) ∷ [] else []

-- The loop over the string.
unfoldable pub encode_loop : ℕ → ℕ → List ℕ → List ℕ
unfolding put_code pad_byte
encode_loop rembits n [] = pad_byte rembits n
encode_loop rembits n (c ∷ str) =
    let nbits = get_or huffman_codelen c 0 in
    let p = put_code (suc nbits) rembits n (get_or huffman_codes c 0) nbits in
    p.out ++ encode_loop p.rembits p.n str

unfoldable pub huffman_encode : List ℕ → List ℕ
unfolding encode_loop
huffman_encode str = encode_loop 8 0 str

unfoldable pub write_literal : List ℕ → List ℕ
unfolding huffman_len huffman_encode write_varint
write_literal str =
    if ltb (huffman_len str) (length str)
    then write_varint 1 (huffman_len str) 7 ++ huffman_encode str
    else write_varint 0 (length str) 7 ++ str
