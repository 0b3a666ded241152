-- ===== src/Dns/Labels.antt =====
-- luaclib-src/ldns.c: `lvalidname` against the rule of RFC 1035 on the labels of a name.
use silly.Common.{
  ℕ, ◌+◌, ◌<◌, ◌≤◌, ◌≡◌, ◌↔◌, refl, List, [], ◌∷◌, arith, length, Bool, true, false, not, ◌&&◌,
  ◌||◌, Bool-cases, inl, inr, ltb, ◌==◌,
}
use silly.Dns.{dot}
use silly.Dns.Query.{cons_label, labels, valid_from, lvalidname}

-- Each label but the last has 1 to 63 bytes; the last may be empty too, behind a trailing dot.
-- The first label has `n` bytes more than the list shows.
abbrev ValidFrom : ℕ → List (List ℕ) → Type 0
ValidFrom n [] = ⊥
ValidFrom n (l ∷ []) = n + length l ≤ 63
ValidFrom n (l ∷ m ∷ ls) = (0 < n + length l) × (n + length l ≤ 63) × ValidFrom 0 (m ∷ ls)

abbrev pub ValidLabels : List (List ℕ) → Type 0
ValidLabels [] = ⊥
ValidLabels (l ∷ []) = length l ≤ 63
ValidLabels (l ∷ m ∷ ls) = (0 < length l) × (length l ≤ 63) × ValidLabels (m ∷ ls)

ValidFrom-zero : (ls : List (List ℕ)) → ValidFrom 0 ls ↔ ValidLabels ls
ValidFrom-zero [] = ((λ h. h), (λ h. h))
ValidFrom-zero (l ∷ []) = ((λ h. omega arith), (λ h. omega arith))
ValidFrom-zero (l ∷ m ∷ ls) = (
  (λ h. (omega arith, omega arith, (ValidFrom-zero (m ∷ ls)).0 h.2)),
  (λ h. (omega arith, omega arith, (ValidFrom-zero (m ∷ ls)).1 h.2)),
)

-- One byte moves from the first label into the count.
ValidFrom-cons :
    (n c : ℕ) (l : List ℕ) (ls : List (List ℕ))
    → ValidFrom (n + 1) (l ∷ ls) ↔ ValidFrom n ((c ∷ l) ∷ ls)
ValidFrom-cons n c l [] = ((λ h. omega arith), (λ h. omega arith))
ValidFrom-cons n c l (m ∷ ls) =
    ((λ h. (omega arith, omega arith, h.2)), (λ h. (omega arith, omega arith, h.2)))

pub labels_nonempty : (name : List ℕ) → (l : List ℕ) × (ls : List (List ℕ)) × (labels name ≡ l ∷ ls)
unfolding labels cons_label
labels_nonempty [] = ([], [], refl)
labels_nonempty (c ∷ name) =
    let (l, ls, e) = labels_nonempty name in
    rw e (elim (Bool-cases (c == dot)) [
      | inl f ↦ rw f ([], l ∷ ls, refl)
      | inr f ↦ rw f (c ∷ l, ls, refl)
    ])

&&_iff : (a b : Bool) → ((a && b) ≡ true) ↔ ((a ≡ true) × (b ≡ true))
&&_iff true b = ((λ h. (refl, h)), (λ h. h.1))
&&_iff false b = ((λ h. cc), (λ h. h.0))

-- The test of a label that a dot ends.
ended_label :
    (n : ℕ) (rest : Bool) (P : Type 0)
    → (rest ≡ true) ↔ P
    → ((not ((n == 0) || ltb 63 n) && rest) ≡ true) ↔ ((0 < n + 0) × (n + 0 ≤ 63) × P)
ended_label n rest P ih = (
  (λ h. let (a, b) = (&&_iff _ rest).0 h in (ground arith, ground arith, ih.0 b)),
  (λ h. (&&_iff _ rest).1 (ground arith, ih.1 h.2)),
)

valid_from_lem : (n : ℕ) (name : List ℕ) → (valid_from n name ≡ true) ↔ ValidFrom n (labels name)
unfolding valid_from labels cons_label
valid_from_lem n [] = ground arith
valid_from_lem n (c ∷ name) =
    let (l, ls, e) = labels_nonempty name in
    elim (Bool-cases (c == dot)) [
      | inl f ↦
          rw (e, f)
            (ended_label n (valid_from 0 name) (ValidFrom 0 (l ∷ ls))
              (rw e at (valid_from_lem 0 name)))
      | inr f ↦
          rw (e, f)
            (let ih : (valid_from (n + 1) name ≡ true) ↔ ValidFrom (n + 1) (l ∷ ls) =
                rw e at (valid_from_lem (n + 1) name) in
              (
                (λ h. (ValidFrom-cons n c l ls).0 (ih.0 h)),
                (λ h. ih.1 ((ValidFrom-cons n c l ls).1 h)),
              ))
    ]

-- `lvalidname` accepts a name exactly when it has 1 to 253 bytes, each of its labels but the last
-- has 1 to 63 bytes, and the last has at most 63, which allows one trailing dot.
pub lvalidname_iff :
    (name : List ℕ)
    → (lvalidname name ≡ true)
      ↔ ((0 < length name) × (length name ≤ 253) × ValidLabels (labels name))
unfolding lvalidname
lvalidname_iff name =
    let loop = valid_from_lem 0 name in
    let same = ValidFrom-zero (labels name) in
    elim (Bool-cases ((length name == 0) || ltb 253 (length name))) [
      | inl e ↦ rw e ((λ h. cc), (λ h. absurd (ground arith)))
      | inr e ↦
          rw e ((λ h. (ground arith, ground arith, same.0 (loop.0 h))), (λ h. loop.1 (same.1 h.2)))
    ]
