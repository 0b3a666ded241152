-- ===== src/Base64.antt =====
-- luaclib-src/encoding/lbase64.c: base64 in its two alphabets. Characters are their codes.
pub mod RoundTrip
pub mod Bounds
mod Tests
use silly.Common.{
  ℕ, ◌+◌, ◌-◌, ◌*◌, ◌/◌, ◌%◌, ◌^◌, List, [], ◌∷◌, ◌++◌, Bool, true, false, ◌&&◌, ◌||◌, ltb, leb,
  ◌==◌, if◌then◌else◌, Option, some, assert, length,
}

-- '='
abbrev pub pad : ℕ
pad = 61

-- The two strings `dict`, by position; a position beyond the last is not used.
unfoldable pub dict : Bool → ℕ → ℕ
dict urlsafe k =
    if ltb k 26
    then 65 + k
    else if ltb k 52
    then 97 + (k - 26)
    else if ltb k 62
    then 48 + (k - 52)
    else if k == 62
    then (if urlsafe then 45 else 43)
    else (if urlsafe then 95 else 47)

unfoldable pub undict : ℕ → ℕ
undict ch =
    if (ch == 43) || (ch == 45)
    then 62
    else if (ch == 47) || (ch == 95)
    then 63
    else if leb 65 ch && leb ch 90
    then ch - 65
    else if leb 97 ch && leb ch 122
    then ch - 97 + 26
    else if leb 48 ch && leb ch 57
    then ch - 48 + 52
    else 0

-- The six bits of `n` from bit `i` on.
abbrev pub sextet : ℕ → ℕ → ℕ
sextet n i = n / 2 ^ i % 64

-- The loop of `encodex`, three bytes at a time, then the `switch` on what is left.
unfoldable pub encode_bytes : Bool → List ℕ → List ℕ
unfolding dict
encode_bytes urlsafe (a ∷ b ∷ c ∷ r) =
    let n = a * 2 ^ 16 + b * 2 ^ 8 + c in
    dict urlsafe (sextet n 18)
    ∷ dict urlsafe (sextet n 12)
    ∷ dict urlsafe (sextet n 6)
    ∷ dict urlsafe (sextet n 0)
    ∷ encode_bytes urlsafe r
encode_bytes urlsafe (a ∷ b ∷ []) =
    let n = a * 2 ^ 16 + b * 2 ^ 8 in
    dict urlsafe (n / 2 ^ 18)
    ∷ dict urlsafe (sextet n 12)
    ∷ dict urlsafe (sextet n 6)
    ∷ (if urlsafe then [] else pad ∷ [])
encode_bytes urlsafe (a ∷ []) =
    let n = a * 2 ^ 16 in
    dict urlsafe (n / 2 ^ 18)
    ∷ dict urlsafe (sextet n 12)
    ∷ (if urlsafe then [] else pad ∷ pad ∷ [])
encode_bytes urlsafe [] = []

-- `encodex`; `need` and the counters are `int`s, and `none` is their overflow.
unfoldable pub encodex : Bool → List ℕ → Option (List ℕ)
unfolding encode_bytes
encodex urlsafe dat =
    assert (ltb ((length dat + 2) / 3 * 4) (2 ^ 31)) (some (encode_bytes urlsafe dat))

abbrev pub is_empty : List ℕ → Bool
is_empty [] = true
is_empty (x ∷ xs) = false

-- A group without the '=' at its end: the loop on `k`.
unfoldable pub strip : List ℕ → List ℕ
strip [] = []
strip (x ∷ xs) = let r = strip xs in if is_empty r && (x == pad) then [] else x ∷ r

-- The byte of `n` from bit `i` on.
abbrev pub octet : ℕ → ℕ → ℕ
octet n i = n / 2 ^ i % 256

-- The `switch` of `ldecode`, on a stripped group.
unfoldable pub decode_group : List ℕ → List ℕ
unfolding undict
decode_group (a ∷ b ∷ c ∷ d ∷ []) =
    let n = undict a * 2 ^ 18 + undict b * 2 ^ 12 + undict c * 2 ^ 6 + undict d in
    octet n 16 ∷ octet n 8 ∷ octet n 0 ∷ []
decode_group (a ∷ b ∷ c ∷ []) =
    let n = undict a * 2 ^ 18 + undict b * 2 ^ 12 + undict c * 2 ^ 6 in octet n 16 ∷ octet n 8 ∷ []
decode_group (a ∷ b ∷ []) = octet (undict a * 2 ^ 18 + undict b * 2 ^ 12) 16 ∷ []
decode_group _ = []

-- The loop of `ldecode`: four characters at a time, the last group perhaps shorter.
unfoldable pub decode_bytes : List ℕ → List ℕ
unfolding decode_group strip
decode_bytes (a ∷ b ∷ c ∷ d ∷ r) = decode_group (strip (a ∷ b ∷ c ∷ d ∷ [])) ++ decode_bytes r
decode_bytes [] = []
decode_bytes r = decode_group (strip r)

-- `ldecode`; `(int)sz` and `i + 4` are `int`s, and `none` is their overflow.
unfoldable pub ldecode : List ℕ → Option (List ℕ)
unfolding decode_bytes
ldecode dat = assert (ltb (length dat + 3) (2 ^ 31)) (some (decode_bytes dat))
