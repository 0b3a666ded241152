-- ===== src/Dns/Name.antt =====
-- luaclib-src/ldns.c: `read_name` on any message, hostile ones included.
use silly.Common.{
  ℕ, zero, suc, ◌+◌, ◌-◌, ◌*◌, ◌/◌, ◌%◌, ◌<◌, ◌≤◌, ◌≡◌, refl, List, [], ◌∷◌, ◌++◌, arith, length,
  length-append, Bool, true, false, Bool-cases, inl, inr, ltb, leb, ◌==◌, ◌||◌, if◌then◌else◌,
}
use silly.Dns.{
  Parse, outside, done, byte, write, copy_label, drop_last, end_name, read_pointer, read_label,
  read_byte, read_loop, read_name, tolower, dot,
}
use silly.Dns.Access.{Inside, Inside-map, Always, >>=-Inside, byte-Inside}

-- A position inside the message and a name that leaves room for its '\0'.
abbrev pub IsRead : List ℕ → ℕ × List ℕ → Type 0
IsRead msg r = (0 < r.0) × (r.0 ≤ length msg) × (length r.1 ≤ 254)

pub length-drop_last : (xs : List ℕ) → length (drop_last xs) ≡ length xs - 1
unfolding drop_last
length-drop_last [] = refl
length-drop_last (x ∷ []) = omega arith
length-drop_last (x ∷ y ∷ r) = omega (arith, length-drop_last (y ∷ r))

write-Inside :
    (out : List ℕ) (b : ℕ)
    → length out ≤ 255
    → Inside (λ (o : List ℕ). length o ≡ length out + 1) (write out b)
unfolding write
write-Inside out b h = if_room (ltb (length out) 256) (ground arith)
  where
    if_room :
        (t : Bool)
        → t ≡ true
        → Inside
            (λ (o : List ℕ). length o ≡ length out + 1)
            (if t then done (out ++ b ∷ []) else outside)
    if_room true e = omega (arith, length-append {0} out (b ∷ []))
    if_room false e = cc

copy_label-Inside :
    (c : ℕ) (msg : List ℕ) (pos : ℕ) (out : List ℕ)
    → pos + c ≤ length msg
    → length out + c ≤ 255
    → Inside (λ (o : List ℕ). length o ≡ length out + c) (copy_label c msg pos out)
unfolding copy_label
copy_label-Inside zero msg pos out hm ho = omega arith
copy_label-Inside (suc c) msg pos out hm ho =
    >>=-Inside Always (λ (o : List ℕ). length o ≡ length out + suc c) (byte msg pos) _
      (byte-Inside msg pos (omega arith))
      λ b _.
        >>=-Inside (λ (o : List ℕ). length o ≡ length out + 1)
          (λ (o : List ℕ). length o ≡ length out + suc c) (write out (tolower b)) _
          (write-Inside out (tolower b) (omega arith))
          λ o e.
            Inside-map (λ (o' : List ℕ). length o' ≡ length o + c)
              (λ (o' : List ℕ). length o' ≡ length out + suc c) (copy_label c msg (pos + 1) o)
              (λ o' e'. omega arith)
              (copy_label-Inside c msg (pos + 1) o (omega arith) (omega arith))

module _ (msg : List ℕ) (next : ℕ → ℕ → List ℕ → Parse (ℕ × List ℕ))
    (ih : (pos saved : ℕ) (out : List ℕ)
      → saved ≤ length msg
      → length out ≤ 255
      → Inside (IsRead msg) (next pos saved out))
    (pos saved : ℕ) (out : List ℕ) (hp : pos ≤ length msg) (p0 : 0 < pos) (hs : saved ≤ length msg)
    (ho : length out ≤ 255) where
  end_name-Inside : Inside (IsRead msg) (end_name pos saved out)
  unfolding end_name
  end_name-Inside = ground (arith, length-drop_last out)

  read_pointer-Inside : (c : ℕ) → Inside (IsRead msg) (read_pointer next msg c pos saved out)
  unfolding read_pointer
  read_pointer-Inside c = elim (Bool-cases (leb (length msg) pos)) [
    | inl e ↦ rw e tt
    | inr e ↦ rw e (
        >>=-Inside Always (IsRead msg) (byte msg pos) _ (byte-Inside msg pos (ground arith)) λ b _.
          elim (Bool-cases (leb (pos - 1) (c % 64 * 256 + b))) [
            | inl f ↦ rw f tt
            | inr f ↦ rw f (
                ih (c % 64 * 256 + b) (if saved == 0 then pos + 1 else saved) out (ground arith) ho)
          ])
  ]

  read_label-Inside : (c : ℕ) → Inside (IsRead msg) (read_label next msg c pos saved out)
  unfolding read_label
  read_label-Inside c = elim (Bool-cases (ltb 63 c)) [
    | inl e ↦ rw e tt
    | inr e ↦ rw e (elim (Bool-cases (ltb (length msg) (pos + c) || leb 256 (length out + c + 1))) [
      | inl f ↦ rw f tt
      | inr f ↦ rw f (
          >>=-Inside (λ (o : List ℕ). length o ≡ length out + c) (IsRead msg)
            (copy_label c msg pos out) _
            (copy_label-Inside c msg pos out (ground arith) (ground arith))
            λ o eo.
              >>=-Inside (λ (o' : List ℕ). length o' ≡ length o + 1) (IsRead msg) (write o dot) _
                (write-Inside o dot (ground arith))
                λ o' eo'. ih (pos + c) saved o' hs (ground arith))
    ])
  ]

  read_byte-Inside : (c : ℕ) → Inside (IsRead msg) (read_byte next msg c pos saved out)
  unfolding read_byte
  read_byte-Inside c = elim (Bool-cases (c == 0)) [
    | inl e ↦ rw e end_name-Inside
    | inr e ↦ rw e (elim (Bool-cases (c / 64 % 4 == 3)) [
      | inl f ↦ rw f (read_pointer-Inside c)
      | inr f ↦ rw f (read_label-Inside c)
    ])
  ]

read_loop-Inside :
    (depth : ℕ) (msg : List ℕ) (pos saved : ℕ) (out : List ℕ)
    → saved ≤ length msg
    → length out ≤ 255
    → Inside (IsRead msg) (read_loop depth msg pos saved out)
unfolding read_loop
read_loop-Inside zero msg pos saved out hs ho = tt
read_loop-Inside (suc depth) msg pos saved out hs ho = elim (Bool-cases (ltb pos (length msg))) [
  | inl e ↦ rw e (
      >>=-Inside Always (IsRead msg) (byte msg pos) _ (byte-Inside msg pos (ground arith)) λ c _.
        read_byte-Inside msg (read_loop depth msg)
          (λ pos' saved' out'. read_loop-Inside depth msg pos' saved' out') (pos + 1) saved out
          (ground arith) (omega arith) hs ho c)
  | inr e ↦ rw e tt
]

-- On any message and from any position, `read_name` reads only bytes of the message and writes
-- only into its 256 bytes, and where it succeeds, the position that it returns is neither 0 nor
-- beyond the message, and the name has at most 254 bytes.
pub read_name-Inside : (msg : List ℕ) (pos : ℕ) → Inside (IsRead msg) (read_name msg pos)
unfolding read_name
read_name-Inside msg pos = read_loop-Inside 128 msg pos 0 [] (omega arith) (omega arith)
