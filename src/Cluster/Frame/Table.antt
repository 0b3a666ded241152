-- ===== src/Cluster/Frame/Table.antt =====
-- The table of unfinished packets: one entry for each descriptor at most.
use silly.Common.{
  ℕ, suc, ◌-◌, ◌%◌, ◌≤◌, ◌≡◌, ◌≢◌, refl, ap, List, [], ◌∷◌, Option, none, some, arith, ◌==◌,
  if◌then◌else◌, ==_iff, ==_refl, ==-eq-false, Bool-cases, inl, inr,
}
use native.Mathlib.Decide.{ℕ_discrete}
use silly.Cluster.State.{Incomplete, NetPacket, hash_size}
use silly.Cluster.Frame.{find, unlink, get_incomplete, put_incomplete, or_fresh}

-- How many entries of a chain a descriptor has.
unfoldable pub count : ℕ → List Incomplete → ℕ
count g [] = 0
count g (i ∷ is) = if i.fd == g then suc (count g is) else count g is

count-unlink_self : (f : ℕ) (c : List Incomplete) → count f (unlink f c) ≡ count f c - 1
unfolding count unlink
count-unlink_self f [] = refl
count-unlink_self f (i ∷ is) = elim (Bool-cases (i.fd == f)) [
  | inl e ↦ rw e (omega arith)
  | inr e ↦ rw e (rw e (count-unlink_self f is))
]

count-unlink-le : (f g : ℕ) (c : List Incomplete) → count g (unlink f c) ≤ count g c
unfolding count unlink
count-unlink-le f g [] = omega arith
count-unlink-le f g (i ∷ is) = elim (Bool-cases (i.fd == f)) [
  | inl e ↦
      rw e
        (elim (Bool-cases (i.fd == g)) [ inl d ↦ rw d (omega arith) | inr d ↦ rw d (omega arith) ])
  | inr e ↦ rw e (elim (Bool-cases (i.fd == g)) [
    | inl d ↦ rw d (omega (arith, count-unlink-le f g is))
    | inr d ↦ rw d (count-unlink-le f g is)
  ])
]

find-none : (g : ℕ) (c : List Incomplete) → count g c ≡ 0 → find g c ≡ none
unfolding count find
find-none g [] h = refl
find-none g (i ∷ is) h = ground (arith, find-none g is)

count_none : (g : ℕ) (c : List Incomplete) → find g c ≡ none → count g c ≡ 0
unfolding count find
count_none g [] h = refl
count_none g (i ∷ is) h = ground (arith, count_none g is)

find-unlink_ne : (f g : ℕ) (c : List Incomplete) → f ≢ g → find g (unlink f c) ≡ find g c
unfolding find unlink
find-unlink_ne f g [] h = refl
find-unlink_ne f g (i ∷ is) h = ground (arith, find-unlink_ne f g is h)

-- What the table holds for a descriptor.
abbrev pub entry : NetPacket → ℕ → Option Incomplete
entry p fd = find fd (p.hash (fd % hash_size))

abbrev pub pending : NetPacket → ℕ → Incomplete
pending p fd = or_fresh fd (entry p fd)

abbrev pub Once : NetPacket → Type 0
Once p = (fd k : ℕ) → count fd (p.hash k) ≤ 1

module _ (p : NetPacket) (fd : ℕ) where
  pub taken-Once : Once p → Once (get_incomplete p fd).1
  unfolding get_incomplete
  taken-Once h g k = elim (Bool-cases (fd % hash_size == k)) [
    | inl e ↦
        rw e (omega (arith, h g (fd % hash_size), count-unlink-le fd g (p.hash (fd % hash_size))))
    | inr e ↦ rw e (h g k)
  ]

  pub taken_self : Once p → entry (get_incomplete p fd).1 fd ≡ none
  unfolding get_incomplete
  taken_self h = rw (==_refl (fd % hash_size)) (
      find-none fd (unlink fd (p.hash (fd % hash_size)))
        (omega (arith, count-unlink_self fd (p.hash (fd % hash_size)), h fd (fd % hash_size))))

  pub taken-ne : (g : ℕ) → fd ≢ g → entry (get_incomplete p fd).1 g ≡ entry p g
  unfolding get_incomplete
  taken-ne g ne = elim (ℕ_discrete (fd % hash_size) (g % hash_size)) [
    | yes e ↦ rw (e, ==_refl (g % hash_size)) (find-unlink_ne fd g (p.hash (g % hash_size)) ne)
    | no e ↦ rw (==-eq-false (fd % hash_size) (g % hash_size) e)
  ]

module _ (p : NetPacket) (ic : Incomplete) where
  pub put-Once : Once p → entry p ic.fd ≡ none → Once (put_incomplete p ic)
  unfolding put_incomplete count
  put-Once h e g k = elim (Bool-cases (ic.fd % hash_size == k)) [
    | inl q ↦ rw q (elim (Bool-cases (ic.fd == g)) [
      | inl d ↦
          let same : ic.fd ≡ g = (==_iff ic.fd g).0 d in
          rw d (
            omega (
              arith,
              ap (λ (x : ℕ). count x (p.hash (ic.fd % hash_size))) same,
              count_none ic.fd (p.hash (ic.fd % hash_size)) e,
            ))
      | inr d ↦ rw d (h g (ic.fd % hash_size))
    ])
    | inr q ↦ rw q (h g k)
  ]

  pub put_self : entry (put_incomplete p ic) ic.fd ≡ some ic
  unfolding put_incomplete find
  put_self = rw (==_refl (ic.fd % hash_size), ==_refl ic.fd)

  pub put-ne : (g : ℕ) → ic.fd ≢ g → entry (put_incomplete p ic) g ≡ entry p g
  unfolding put_incomplete find
  put-ne g ne = elim (ℕ_discrete (ic.fd % hash_size) (g % hash_size)) [
    | yes e ↦ rw (e, ==_refl (g % hash_size), ==-eq-false ic.fd g ne)
    | no e ↦ rw (==-eq-false (ic.fd % hash_size) (g % hash_size) e)
  ]
