-- ===== src/Dns.antt =====
-- luaclib-src/ldns.c: what the readers of a DNS message share, and `read_name`.
-- A message is the list of its bytes. The buffer of a name is the list of the bytes written so far.
pub mod Query
pub mod Record
pub mod Answer
mod Access
mod Name
mod Labels
mod RoundTrip
mod Spelling
mod Echo
mod Rdata
mod Safety
mod Tests
use silly.Common.{
  ℕ, zero, suc, ◌+◌, ◌-◌, ◌*◌, ◌/◌, ◌%◌, List, [], ◌∷◌, ◌++◌, ◌&&◌, ◌||◌, ltb, leb, ◌==◌,
  if◌then◌else◌, length,
}

-- `outside` is a read or a write outside a buffer, which C leaves undefined; `invalid` is the
-- return value 0 of `read_name` and -1 of the other readers.
pub data Parse {ℓ} (A : Type ℓ) : Type ℓ where
  outside : Parse A
  invalid : Parse A
  done : A → Parse A

infixl 5 ◌>>=◌
abbrev pub ◌>>=◌ {ℓ κ} : {A : Type ℓ} {B : Type κ} → Parse A → (A → Parse B) → Parse B
outside >>= f = outside
invalid >>= f = invalid
done a >>= f = f a

-- `p[pos]`.
unfoldable pub byte : List ℕ → ℕ → Parse ℕ
byte [] pos = outside
byte (x ∷ xs) zero = done x
byte (x ∷ xs) (suc pos) = byte xs pos

unfoldable pub unpack_u16 : List ℕ → ℕ → Parse ℕ
unpack_u16 p pos = do a ← byte p pos; b ← byte p (pos + 1); done (a * 256 + b)

unfoldable pub unpack_u32 : List ℕ → ℕ → Parse ℕ
unpack_u32 p pos = do
  a ← byte p pos
  b ← byte p (pos + 1)
  c ← byte p (pos + 2)
  d ← byte p (pos + 3)
  done (a * 16777216 + b * 65536 + c * 256 + d)

-- The sizes that the source defines, and '.'.
abbrev pub dns_hdr_size : ℕ
dns_hdr_size = 12

abbrev pub dns_max_name : ℕ
dns_max_name = 256

abbrev pub dns_ptr_depth : ℕ
dns_ptr_depth = 128

abbrev pub dot : ℕ
dot = 46

-- In the "C" locale.
unfoldable pub tolower : ℕ → ℕ
tolower c = if leb 65 c && leb c 90 then c + 32 else c

-- `out->p[out->offset++] = b`, in a buffer of `dns_max_name` bytes.
unfoldable pub write : List ℕ → ℕ → Parse (List ℕ)
write out b = if ltb (length out) dns_max_name then done (out ++ b ∷ []) else outside

-- The `for` that copies a label.
unfoldable pub copy_label : ℕ → List ℕ → ℕ → List ℕ → Parse (List ℕ)
copy_label zero msg pos out = done out
copy_label (suc c) msg pos out = do
  b ← byte msg pos
  o ← write out (tolower b)
  copy_label c msg (pos + 1) o

unfoldable pub drop_last : List ℕ → List ℕ
drop_last [] = []
drop_last (x ∷ []) = []
drop_last (x ∷ y ∷ r) = x ∷ drop_last (y ∷ r)

-- What follows the loop: the position behind the name, and the name without its last '.', behind
-- which the '\0' is written.
unfoldable pub end_name : ℕ → ℕ → List ℕ → Parse (ℕ × List ℕ)
unfolding drop_last
end_name pos saved out =
    if ltb (length (drop_last out)) dns_max_name
    then done (if saved == 0 then pos else saved, drop_last out)
    else outside

-- The body of the loop on the byte `c` before `pos`, at a pointer and at a label. `next` is the
-- rest of the loop, on the position, the saved position and the buffer.
unfoldable pub read_pointer :
    (ℕ → ℕ → List ℕ → Parse (ℕ × List ℕ)) → List ℕ → ℕ → ℕ → ℕ → List ℕ → Parse (ℕ × List ℕ)
read_pointer next msg c pos saved out =
    if leb (length msg) pos
    then invalid
    else byte msg pos >>= λ b.
        if leb (pos - 1) (c % 64 * 256 + b)
        then invalid
        else next (c % 64 * 256 + b) (if saved == 0 then pos + 1 else saved) out

unfoldable pub read_label :
    (ℕ → ℕ → List ℕ → Parse (ℕ × List ℕ)) → List ℕ → ℕ → ℕ → ℕ → List ℕ → Parse (ℕ × List ℕ)
read_label next msg c pos saved out =
    if ltb 63 c
    then invalid
    else if ltb (length msg) (pos + c) || leb dns_max_name (length out + c + 1)
    then invalid
    else copy_label c msg pos out >>= λ o. write o dot >>= λ o'. next (pos + c) saved o'

unfoldable pub read_byte :
    (ℕ → ℕ → List ℕ → Parse (ℕ × List ℕ)) → List ℕ → ℕ → ℕ → ℕ → List ℕ → Parse (ℕ × List ℕ)
unfolding read_pointer read_label end_name
read_byte next msg c pos saved out =
    if c == 0
    then end_name pos saved out
    else if c / 64 % 4 == 3
    then read_pointer next msg c pos saved out
    else read_label next msg c pos saved out

-- The loop of `read_name` with `depth` rounds left.
unfoldable pub read_loop : ℕ → List ℕ → ℕ → ℕ → List ℕ → Parse (ℕ × List ℕ)
unfolding read_byte
read_loop zero msg pos saved out = invalid
read_loop (suc depth) msg pos saved out =
    if ltb pos (length msg)
    then (byte msg pos >>= λ c. read_byte (read_loop depth msg) msg c (pos + 1) saved out)
    else invalid

-- `read_name`: the position behind the name at `pos`, and the name.
unfoldable pub read_name : List ℕ → ℕ → Parse (ℕ × List ℕ)
unfolding read_loop
read_name msg pos = read_loop dns_ptr_depth msg pos 0 []
