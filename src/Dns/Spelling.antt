-- ===== src/Dns/Spelling.antt =====
-- luaclib-src/ldns.c: the name that `read_name` gives back, in terms of the name that was asked for.
use silly.Common.{
  ap₂, subst, ℕ, ◌+◌, ◌<◌, ◌≤◌, ◌≡◌, refl, sym, ap, ◌∙◌, List, [], ◌∷◌, ◌++◌, map, append_assoc,
  arith, length, length-append, drop, Bool-cases, inl, inr, true, ◌==◌, if◌then◌else◌, ==_iff,
}
use silly.Dns.{done, drop_last, read_name, tolower, dot}
use silly.Dns.Query.{cons_label, labels, lvalidname, q_labels, q_name}
use silly.Dns.Labels.{ValidLabels, labels_nonempty, lvalidname_iff}
use silly.Dns.RoundTrip.{dot_label, dotted, ValidRest, read_loop-q_labels}

-- A name without its trailing dot, and with one.
unfoldable pub without_dot : List ℕ → List ℕ
without_dot [] = []
without_dot (c ∷ []) = if c == dot then [] else c ∷ []
without_dot (c ∷ d ∷ r) = c ∷ without_dot (d ∷ r)

ended : List ℕ → List ℕ
ended [] = dot ∷ []
ended (c ∷ []) = if c == dot then dot ∷ [] else c ∷ dot ∷ []
ended (c ∷ d ∷ r) = c ∷ ended (d ∷ r)

drop_last-cons : (x : ℕ) (xs : List ℕ) → 0 < length xs → drop_last (x ∷ xs) ≡ x ∷ drop_last xs
unfolding drop_last
drop_last-cons x [] h = absurd (omega arith)
drop_last-cons x (y ∷ ys) h = refl

length-ended :
    (name : List ℕ)
    → (0 < length (map tolower (ended name)))
      × (length (map tolower (ended name)) ≤ length name + 1)
unfolding ended
length-ended [] = omega arith
length-ended (c ∷ []) = elim (Bool-cases (c == dot)) [
  | inl e ↦ rw e (omega arith)
  | inr e ↦ rw e (omega arith)
]
length-ended (c ∷ d ∷ r) = omega (arith, length-ended (d ∷ r))

drop_last-ended :
    (c : ℕ) (name : List ℕ)
    → drop_last (map tolower (ended (c ∷ name))) ≡ map tolower (without_dot (c ∷ name))
unfolding ended without_dot
drop_last-ended c [] = elim (Bool-cases (c == dot)) [
  | inl e ↦ unfold drop_last in rw e
  | inr e ↦ unfold drop_last in rw e
]
drop_last-ended c (d ∷ r) =
    drop_last-cons (tolower c) (map tolower (ended (d ∷ r))) (length-ended (d ∷ r)).0
    ∙ ap (◌∷◌ (tolower c)) (drop_last-ended d r)

-- Behind the first label.
tail_valid : (l : List ℕ) (ls : List (List ℕ)) → ValidLabels (l ∷ ls) → ValidRest ls
tail_valid l [] v = tt
tail_valid l (m ∷ ls) v = v.2

-- What the labels spell, with a dot behind the first even if it is empty.
full : List (List ℕ) → List ℕ
full [] = []
full (l ∷ ls) = map tolower l ++ dot ∷ dotted ls

abbrev TailValid : List (List ℕ) → Type 0
TailValid [] = Unit {0}
TailValid (l ∷ ls) = ValidRest ls

-- The first label of a valid name that is not empty is not empty.
dotted-eq-full :
    (c : ℕ) (name m : List ℕ) (ms : List (List ℕ))
    → labels (c ∷ name) ≡ m ∷ ms
    → ValidLabels (m ∷ ms)
    → dotted (m ∷ ms) ≡ full (m ∷ ms)
unfolding dotted full dot_label labels cons_label
dotted-eq-full c name (x ∷ m) ms e v = append_assoc (map tolower (x ∷ m)) (dot ∷ []) (dotted ms)
dotted-eq-full c name [] (k ∷ ms) e v = absurd (omega arith)
dotted-eq-full c name [] [] e v =
    let (l, ls, f) = labels_nonempty name in
    elim (Bool-cases (c == dot)) [ inl g ↦ cc (rw (f, g) at e) | inr g ↦ cc (rw (f, g) at e) ]

labels-cons : (c : ℕ) (name : List ℕ) → labels (c ∷ name) ≡ cons_label c (labels name)
unfolding labels
labels-cons c name = refl

full-cons_label :
    (c d : ℕ) (r m : List ℕ) (ms : List (List ℕ))
    → labels (d ∷ r) ≡ m ∷ ms
    → (TailValid (m ∷ ms) → full (m ∷ ms) ≡ map tolower (ended (d ∷ r)))
    → TailValid (cons_label c (m ∷ ms))
    → full (cons_label c (m ∷ ms)) ≡ tolower c ∷ map tolower (ended (d ∷ r))
unfolding cons_label full tolower
full-cons_label c d r m ms e ih v = elim (Bool-cases (c == dot)) [
  | inl g ↦
      let v' : ValidLabels (m ∷ ms) = rw g at v in
      rw g (
        ap₂ (λ (k : ℕ) (ks : List ℕ). k ∷ ks) (ap tolower (sym ((==_iff c dot).0 g)))
          (dotted-eq-full d r m ms e v' ∙ ih (tail_valid m ms v')))
  | inr g ↦ let v' : ValidRest ms = rw g at v in rw g (ap (◌∷◌ (tolower c)) (ih v'))
]

full-labels :
    (name : List ℕ) → TailValid (labels name) → full (labels name) ≡ map tolower (ended name)
unfolding ended tolower
full-labels [] v = unfold labels full dotted in refl
full-labels (c ∷ []) v =
    unfold labels full dotted dot_label tolower in
    elim (Bool-cases (c == dot)) [ inl e ↦ rw e | inr e ↦ rw e ]
full-labels (c ∷ d ∷ r) v =
    let (m, ms, e) = labels_nonempty (d ∷ r) in
    let apart : labels (c ∷ d ∷ r) ≡ cons_label c (m ∷ ms) =
      labels-cons c (d ∷ r) ∙ ap (cons_label c) e in
    ap full apart
    ∙ full-cons_label c d r m ms e (rw e at (full-labels (d ∷ r))) (subst TailValid apart v)

-- What `read_name` assembles before it drops the last dot.
dotted-labels :
    (c : ℕ) (name : List ℕ)
    → ValidLabels (labels (c ∷ name))
    → dotted (labels (c ∷ name)) ≡ map tolower (ended (c ∷ name))
dotted-labels c name v =
    let (m, ms, e) = labels_nonempty (c ∷ name) in
    let v' : ValidLabels (m ∷ ms) = rw e at v in
    ap dotted e
    ∙ dotted-eq-full c name m ms e v'
    ∙ ap full (sym e)
    ∙ full-labels (c ∷ name) (rw e (tail_valid m ms v'))

ValidLabels-ValidRest : (ls : List (List ℕ)) → ValidLabels ls → ValidRest ls
ValidLabels-ValidRest [] v = tt
ValidLabels-ValidRest (l ∷ ls) v = v

-- `read_name` reads the name that `q_name` wrote at a position of a message, if `lvalidname`
-- accepts it: the position it returns is the one behind the name, and what it returns is the name
-- in lower case and without a trailing dot.
pub read_name-q_name :
    (name rest msg : List ℕ) (pos : ℕ)
    → lvalidname name ≡ true
    → drop pos msg ≡ q_name name ++ rest
    → read_name msg pos ≡ done (pos + length (q_name name), map tolower (without_dot name))
unfolding read_name q_name
read_name-q_name [] rest msg pos h e = absurd (omega (arith, (lvalidname_iff []).0 h))
read_name-q_name (c ∷ name) rest msg pos h e =
    let (_, short, v) = (lvalidname_iff (c ∷ name)).0 h in
    let ls : List (List ℕ) = labels (c ∷ name) in
    let spelled : dotted ls ≡ map tolower (ended (c ∷ name)) = dotted-labels c name v in
    let size : length (dotted ls) ≤ 254 =
      omega (arith, ap length spelled, length-ended (c ∷ name)) in
    read_loop-q_labels 128 ls rest msg pos [] (ValidLabels-ValidRest ls v)
      (e ∙ append_assoc (q_labels ls) (0 ∷ []) rest) (omega arith) (omega arith)
    ∙ ap₂ (λ (k : ℕ) (o : List ℕ). done (k, o))
        (omega (arith, length-append {0} (q_labels ls) (0 ∷ [])))
        (ap drop_last spelled ∙ drop_last-ended c name)
