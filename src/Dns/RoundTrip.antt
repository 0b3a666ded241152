-- ===== src/Dns/RoundTrip.antt =====
-- luaclib-src/ldns.c: `read_name` on what `q_name` wrote.
use silly.Common.{
  false, ap₂, ℕ, zero, suc, ◌+◌, ◌*◌, ◌/◌, ◌%◌, ◌<◌, ◌≤◌, ◌≡◌, refl, sym, ap, ◌∙◌, List, [], ◌∷◌,
  ◌++◌, map, append-nil, append_assoc, arith, length, length-append, length-drop, drop, drop-drop,
  drop-append_length, ltb, leb, ◌==◌, ◌||◌, lt→ltb,
}
use silly.Dns.{
  Parse, done, write, copy_label, drop_last, end_name, read_label, read_byte, read_loop, tolower,
  dot,
}
use silly.Dns.Access.{byte-drop}
use silly.Dns.Name.{length-drop_last}
use silly.Dns.Query.{q_label, q_labels}
use silly.Dns.Labels.{ValidLabels}

-- The name that a list of labels spells, each label in lower case and followed by a dot.
unfoldable pub dot_label : List ℕ → List ℕ
dot_label [] = []
dot_label (c ∷ l) = map tolower (c ∷ l) ++ dot ∷ []

unfoldable pub dotted : List (List ℕ) → List ℕ
unfolding dot_label
dotted [] = []
dotted (l ∷ ls) = dot_label l ++ dotted ls

pub drop-step :
    (pos : ℕ) (msg xs ys : List ℕ) → drop pos msg ≡ xs ++ ys → drop (pos + length xs) msg ≡ ys
drop-step pos msg xs ys e =
    sym (drop-drop pos (length xs) msg) ∙ ap (drop (length xs)) e ∙ drop-append_length xs ys

pub lt-length_of_drop :
    (pos : ℕ) (msg xs ys : List ℕ)
    → drop pos msg ≡ xs ++ ys
    → 0 < length xs
    → pos + length xs ≤ length msg
lt-length_of_drop pos msg xs ys e h =
    omega (arith, length-drop {0} pos msg, ap length e, length-append {0} xs ys)

write_lem : (out : List ℕ) (b : ℕ) → length out < 256 → write out b ≡ done (out ++ b ∷ [])
unfolding write
write_lem out b h = rw (lt→ltb (length out) 256 h)

length-map : (f : ℕ → ℕ) (xs : List ℕ) → length (map f xs) ≡ length xs
length-map f [] = refl
length-map f (x ∷ xs) = ap suc (length-map f xs)

copy_label_lem :
    (lab more msg : List ℕ) (pos : ℕ) (out : List ℕ)
    → drop pos msg ≡ lab ++ more
    → length out + length lab ≤ 256
    → copy_label (length lab) msg pos out ≡ done (out ++ map tolower lab)
unfolding copy_label
copy_label_lem [] more msg pos out e h = ap done (sym (append-nil out))
copy_label_lem (c ∷ lab) more msg pos out e h =
    rw
      (
        byte-drop msg pos c (lab ++ more) e,
        write_lem out (tolower c) (omega arith),
        copy_label_lem lab more msg (pos + 1) (out ++ tolower c ∷ [])
            (drop-step pos msg (c ∷ []) (lab ++ more) e)
            (omega (arith, length-append {0} out (tolower c ∷ []))),
      )
      (ap done (append_assoc out (tolower c ∷ []) (map tolower lab)))

-- The body of the loop at a label, its length byte read.
read_byte-label :
    (next : ℕ → ℕ → List ℕ → Parse (ℕ × List ℕ)) (c : ℕ) (l more msg : List ℕ) (pos : ℕ)
    (out : List ℕ)
    → drop pos msg ≡ (c ∷ l) ++ more
    → length (c ∷ l) ≤ 63
    → length out + length (c ∷ l) ≤ 254
    → read_byte next msg (length (c ∷ l)) pos 0 out
      ≡ next (pos + length (c ∷ l)) 0 (out ++ dot_label (c ∷ l))
unfolding read_byte read_label dot_label
read_byte-label next c l more msg pos out e hl ho =
    let n : ℕ = length (c ∷ l) in
    let lab : List ℕ = map tolower (c ∷ l) in
    let inside : pos + n ≤ length msg = lt-length_of_drop pos msg (c ∷ l) more e (omega arith) in
    let a : (n == 0) ≡ false = ground arith in
    let b : (n / 64 % 4 == 3) ≡ false = ground arith in
    let d : ltb 63 n ≡ false = ground arith in
    let f : (ltb (length msg) (pos + n) || leb 256 (length out + n + 1)) ≡ false = ground arith in
    let copied : length (out ++ lab) < 256 =
      omega (arith, length-append {0} out lab, length-map tolower (c ∷ l)) in
    rw
      (
        a,
        b,
        d,
        f,
        copy_label_lem (c ∷ l) more msg pos out e (omega arith),
        write_lem (out ++ lab) dot copied,
      )
      (ap (λ (o : List ℕ). next (pos + n) 0 o) (append_assoc out lab (dot ∷ [])))

read_loop-byte :
    (depth : ℕ) (x : ℕ) (r msg : List ℕ) (pos saved : ℕ) (out : List ℕ)
    → drop pos msg ≡ x ∷ r
    → read_loop (suc depth) msg pos saved out
      ≡ read_byte (read_loop depth msg) msg x (pos + 1) saved out
unfolding read_loop
read_loop-byte depth x r msg pos saved out e =
    let inside : pos + 1 ≤ length msg = lt-length_of_drop pos msg (x ∷ []) r e (omega arith) in
    rw (lt→ltb pos (length msg) (omega arith), byte-drop msg pos x r e)

-- One round at a label of 1 to 63 bytes.
read_loop-label :
    (depth : ℕ) (c : ℕ) (l more msg : List ℕ) (pos : ℕ) (out : List ℕ)
    → drop pos msg ≡ q_label (c ∷ l) ++ more
    → length (c ∷ l) ≤ 63
    → length out + length (c ∷ l) ≤ 254
    → read_loop (suc depth) msg pos 0 out
      ≡ read_loop depth msg (pos + 1 + length (c ∷ l)) 0 (out ++ dot_label (c ∷ l))
unfolding q_label
read_loop-label depth c l more msg pos out e hl ho =
    let n : ℕ = length (c ∷ l) in
    let small : n % 256 ≡ n = omega arith in
    read_loop-byte depth (n % 256) ((c ∷ l) ++ more) msg pos 0 out e
    ∙ ap (λ (k : ℕ). read_byte (read_loop depth msg) msg k (pos + 1) 0 out) small
    ∙ read_byte-label (read_loop depth msg) c l more msg (pos + 1) out
        (drop-step pos msg (n % 256 ∷ []) ((c ∷ l) ++ more) e) hl ho

-- The last round.
pub read_loop-root :
    (depth : ℕ) (r msg : List ℕ) (pos : ℕ) (out : List ℕ)
    → drop pos msg ≡ 0 ∷ r
    → length out ≤ 254
    → read_loop (suc depth) msg pos 0 out ≡ done (pos + 1, drop_last out)
read_loop-root depth r msg pos out e ho = read_loop-byte depth 0 r msg pos 0 out e ∙ last
  where
    last : read_byte (read_loop depth msg) msg 0 (pos + 1) 0 out ≡ done (pos + 1, drop_last out)
    last =
        unfold read_byte end_name in
        rw (lt→ltb (length (drop_last out)) 256 (omega (arith, length-drop_last out)))

length-dot_label : (c : ℕ) (l : List ℕ) → length (dot_label (c ∷ l)) ≡ length (c ∷ l) + 1
unfolding dot_label
length-dot_label c l =
    omega (arith, length-append {0} (map tolower (c ∷ l)) (dot ∷ []), length-map tolower (c ∷ l))

length-q_label : (c : ℕ) (l : List ℕ) → length (q_label (c ∷ l)) ≡ length (c ∷ l) + 1
unfolding q_label
length-q_label c l = omega arith

-- What is left of valid labels.
abbrev pub ValidRest : List (List ℕ) → Type 0
ValidRest [] = Unit {0}
ValidRest (l ∷ ls) = ValidLabels (l ∷ ls)

ValidLabels-rest :
    (l : List ℕ) (ls : List (List ℕ)) → ValidLabels (l ∷ ls) → (length l ≤ 63) × ValidRest ls
ValidLabels-rest l [] v = (v, tt)
ValidLabels-rest l (m ∷ ls) v = (v.1, v.2)

-- `read_name` on the labels that `q_name` wrote: every label costs two bytes of the name at least,
-- so the rounds suffice.
pub read_loop-q_labels :
    (depth : ℕ) (ls : List (List ℕ)) (rest msg : List ℕ) (pos : ℕ) (out : List ℕ)
    → ValidRest ls
    → drop pos msg ≡ q_labels ls ++ 0 ∷ rest
    → length (dotted ls) < 2 * depth
    → length out + length (dotted ls) ≤ 254
    → read_loop depth msg pos 0 out
      ≡ done (pos + length (q_labels ls) + 1, drop_last (out ++ dotted ls))
unfolding dotted q_labels
read_loop-q_labels zero ls rest msg pos out v e hd ho = absurd (omega arith)
read_loop-q_labels (suc depth) [] rest msg pos out v e hd ho =
    read_loop-root depth rest msg pos out e (omega arith)
    ∙ ap₂ (λ (k : ℕ) (o : List ℕ). done (k, drop_last o)) (omega arith) (sym (append-nil out))
read_loop-q_labels (suc depth) ([] ∷ []) rest msg pos out v e hd ho =
    unfold q_label dot_label in
    read_loop-root depth rest msg pos out e (omega arith)
    ∙ ap₂ (λ (k : ℕ) (o : List ℕ). done (k, drop_last o)) (omega arith) (sym (append-nil out))
read_loop-q_labels (suc depth) ([] ∷ m ∷ ls) rest msg pos out v e hd ho = absurd (omega arith)
read_loop-q_labels (suc depth) ((c ∷ l) ∷ ls) rest msg pos out v e hd ho =
    let n : ℕ = length (c ∷ l) in
    let lab : List ℕ = dot_label (c ∷ l) in
    let (hl, v') = ValidLabels-rest (c ∷ l) ls v in
    let here : drop pos msg ≡ q_label (c ∷ l) ++ (q_labels ls ++ 0 ∷ rest) =
      e ∙ append_assoc (q_label (c ∷ l)) (q_labels ls) (0 ∷ rest) in
    let sizes : length (lab ++ dotted ls) ≡ n + 1 + length (dotted ls) =
      omega (arith, length-append {0} lab (dotted ls), length-dot_label c l) in
    let written : length (out ++ lab) ≡ length out + n + 1 =
      omega (arith, length-append {0} out lab, length-dot_label c l) in
    let behind : drop (pos + 1 + n) msg ≡ q_labels ls ++ 0 ∷ rest =
      ap (λ (k : ℕ). drop k msg) (omega (arith, length-q_label c l))
      ∙ drop-step pos msg (q_label (c ∷ l)) (q_labels ls ++ 0 ∷ rest) here in
    read_loop-label depth c l (q_labels ls ++ 0 ∷ rest) msg pos out here hl (omega arith)
    ∙ read_loop-q_labels depth ls rest msg (pos + 1 + n) (out ++ lab) v' behind (omega arith)
        (omega arith)
    ∙ ap₂ (λ (k : ℕ) (o : List ℕ). done (k, drop_last o))
        (omega (arith, length-append {0} (q_label (c ∷ l)) (q_labels ls), length-q_label c l))
        (append_assoc out lab (dotted ls))
