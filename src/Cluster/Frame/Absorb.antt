-- ===== src/Cluster/Frame/Absorb.antt =====
-- One read by `push_once` against the byte stream.
use silly.Common.{
  ℕ, ◌+◌, ◌-◌, ◌%◌, ◌^◌, if◌then◌else◌, ◌≤◌, ◌<◌, ◌≡◌, ◌⊎◌, inl, inr, refl, sym, ap, subst, ◌∙◌,
  min, List, [], ◌++◌, append-nil, Option, none, some, true, false, arith, leb, length, take, drop,
  length-append, length-take, length-drop, take-append-drop, take_all, ==_refl, drop-drop,
  drop-append_length, ap₂,
}
use native.Mathlib.Decide.{dec_le, dec_lt}
use silly.Common.Bytes.{get_u32}
use silly.Cluster.State.{Incomplete, Error}
use silly.Cluster.Frame.{
  fresh, validate_psize, validate_payload, Eaten, partial, whole, failed, aborted, complete, close,
  fill_body, start_body, absorb,
}
use silly.Cluster.Frame.Stream.{
  open_at, Fed, in_header, in_body, emit, stop, after_header, feed, feed-header_end,
  feed-header_part, feed-body_part, feed-body_end,
}

-- A well-formed entry of a descriptor: part of a header and no buffer, or a header of a size below
-- 2^31 and less of the body than it announces.
abbrev pub IsOpen : ℕ → Incomplete → Type 0
IsOpen fd ic =
    ((hdr : List ℕ) × (ic ≡ in_header fd hdr) × (length hdr < 4))
    ⊎ ((hdr : List ℕ) × (body : List ℕ) × (ic ≡ in_body fd hdr body)
        × (length hdr ≡ 4)
        × (length body < get_u32 hdr)
        × (get_u32 hdr < 2 ^ 31))

-- What an outcome says of the bytes `rest` that were still to eat, of which the stream from here
-- makes `f`; `next` is the stream of a descriptor with no entry.
abbrev pub Eats : ℕ → ℕ → List ℕ → Fed → (List ℕ → Fed) → Eaten → Type 0
Eats fd eat rest f next (partial n ic) =
    (n ≡ eat + length rest) × IsOpen fd ic × (f ≡ record { packets = []; end = open_at ic })
Eats fd eat rest f next (whole n pk) =
    (eat < n)
    × (n ≤ eat + length rest)
    × (length pk.buff < 2 ^ 31)
    × (f ≡ emit pk (next (drop (n - eat) rest)))
Eats fd eat rest f next (failed e) = f ≡ stop e
Eats fd eat rest f next aborted = ⊥

close-full :
    (ic : Incomplete) (psize eat : ℕ) (body : List ℕ)
    → psize ≡ length body
    → close ic psize body eat
      ≡ complete ic (length body) body eat (validate_payload (length body) body)
unfolding close
close-full ic psize eat body h =
    let t : leb (length body) (length body) ≡ true = ground arith in
    subst
      (λ (n : ℕ).
        close ic n body eat
        ≡ complete ic (length body) body eat (validate_payload (length body) body))
      (sym h) (rw t)

close-part :
    (ic : Incomplete) (psize eat : ℕ) (body : List ℕ)
    → length body < psize
    → close ic psize body eat ≡ partial eat (record ic { buff = some body })
unfolding close
close-part ic psize eat body h = let t : leb psize (length body) ≡ false = ground arith in rw t

validate_psize-none : (limit n : ℕ) → validate_psize limit n ≡ none → (4 ≤ n) × (n ≤ limit)
unfolding validate_psize
validate_psize-none limit n h = (ground arith, ground arith)

-- With part of a header: all bytes belong to it, or the first ones complete it.
absorb-part :
    (limit : ℕ) (ic : Incomplete) (buff : List ℕ)
    → length ic.hdr + length buff < 4
    → absorb limit ic buff ≡ partial (length buff) (record ic { hdr = ic.hdr ++ buff })
unfolding absorb
absorb-part limit ic buff h =
    let c : min (4 - length ic.hdr) (length buff) ≡ length buff = omega arith in
    let t : leb 4 (length (ic.hdr ++ buff)) ≡ false = ground (arith, length-append ic.hdr buff) in
    rw (c, take_all (length buff) buff (omega arith), t)

absorb-full :
    (limit c : ℕ) (ic : Incomplete) (buff : List ℕ)
    → length ic.hdr + c ≡ 4
    → c ≤ length buff
    → absorb limit ic buff ≡ start_body limit (record ic { hdr = ic.hdr ++ take c buff }) c buff
unfolding absorb
absorb-full limit c ic buff e h =
    let m : min (4 - length ic.hdr) (length buff) ≡ c = omega arith in
    let t : leb 4 (length (ic.hdr ++ take c buff)) ≡ true =
      ground (arith, length-append ic.hdr (take c buff), length-take c buff) in
    rw (m, t)

module _ (limit fd : ℕ) (narrow : limit < 2 ^ 31) where
  -- The rest of the bytes completes the body.
  full-Eats :
      (hdr body xs ys : List ℕ) (eat : ℕ) (ic : Incomplete)
      → ic.fd ≡ fd
      → length body < get_u32 hdr
      → get_u32 hdr < 2 ^ 31
      → length body + length xs ≡ get_u32 hdr
      → Eats fd eat
          (xs ++ ys)
          (feed limit (xs ++ ys) (in_body fd hdr body))
          (λ zs. feed limit zs (fresh fd))
          (close ic (get_u32 hdr) (body ++ xs) (eat + length xs))
  unfolding complete
  full-Eats hdr body xs ys eat ic hfd h wide e =
      let full : get_u32 hdr ≡ length (body ++ xs) = omega (arith, length-append body xs) in
      rw
        (
          close-full ic (get_u32 hdr) (eat + length xs) (body ++ xs) full,
          feed-body_end limit fd xs ys hdr body h e,
        )
        (go (validate_payload (length (body ++ xs)) (body ++ xs)))
    where
      go :
          (o : Option Error)
          → Eats fd eat
              (xs ++ ys)
              (elim o [
                | some e ↦ stop e
                | none ↦ emit (record { fd = fd; buff = body ++ xs }) (feed limit ys (fresh fd))
              ])
              (λ zs. feed limit zs (fresh fd))
              (complete ic (length (body ++ xs)) (body ++ xs) (eat + length xs) o)
      go (some e) = refl
      go none = rw (==_refl (length (body ++ xs))) (
        omega arith,
        omega (arith, length-append xs ys),
        omega (arith, wide, e, length-append body xs),
        ap₂
            (λ (d : ℕ) (zs : List ℕ).
              emit (record { fd = d; buff = body ++ xs }) (feed limit zs (fresh fd)))
            (sym hfd)
            (sym (
              ap (λ (k : ℕ). drop k (xs ++ ys)) {y = length xs} (omega arith)
              ∙ drop-append_length xs ys)),
      )

  -- The bytes run out within the body.
  part-Eats :
      (hdr body xs : List ℕ) (eat : ℕ) (ic : Incomplete)
      → ic.fd ≡ fd
      → ic.hdr ≡ hdr
      → length hdr ≡ 4
      → length body + length xs < get_u32 hdr
      → get_u32 hdr < 2 ^ 31
      → Eats fd eat xs
          (feed limit xs (in_body fd hdr body))
          (λ zs. feed limit zs (fresh fd))
          (close ic (get_u32 hdr) (body ++ xs) (eat + length xs))
  part-Eats hdr body xs eat ic hfd hh four h wide =
      let same : record ic { buff = some (body ++ xs) } ≡ in_body fd hdr (body ++ xs) =
        ap₂ (λ (f : ℕ) (h : List ℕ). in_body f h (body ++ xs)) hfd hh in
      let part : length (body ++ xs) < get_u32 hdr = omega (arith, length-append body xs) in
      rw (close-part ic (get_u32 hdr) (eat + length xs) (body ++ xs) part) (
        refl,
        inr (hdr, body ++ xs, same, four, part, wide),
        feed-body_part limit fd xs hdr body h
            ∙ ap (λ i. record { packets = []; end = open_at i }) (sym same),
      )

  fill_body-Eats :
      (hdr body buff : List ℕ) (eat : ℕ) (ic : Incomplete)
      → ic.fd ≡ fd
      → ic.hdr ≡ hdr
      → length hdr ≡ 4
      → length body < get_u32 hdr
      → get_u32 hdr < 2 ^ 31
      → eat ≤ length buff
      → Eats fd eat
          (drop eat buff)
          (feed limit (drop eat buff) (in_body fd hdr body))
          (λ ys. feed limit ys (fresh fd))
          (fill_body ic (get_u32 hdr) body eat buff)
  unfolding fill_body
  fill_body-Eats hdr body buff eat ic hfd hh four h wide he = elim (dec_le need left) [
    | yes p ↦
        let lx : length (take need rest) ≡ need = omega (arith, length-take need rest, lr) in
        subst (λ (c : ℕ). Goal rest (body ++ take c rest) (eat + c)) {x = need} {y = min need left}
          (omega arith)
          (subst (λ (n : ℕ). Goal rest (body ++ take need rest) (eat + n)) lx
            (subst (λ r. Goal r (body ++ take need rest) (eat + length (take need rest)))
              (take-append-drop need rest)
              (full-Eats hdr body (take need rest) (drop need rest) eat ic hfd h wide
                (omega (arith, lx)))))
    | no p ↦
        subst (λ (c : ℕ). Goal rest (body ++ take c rest) (eat + c)) {x = left} {y = min need left}
          (omega arith)
          (subst (λ (n : ℕ). Goal rest (body ++ take left rest) (eat + n)) lr
            (subst (λ r. Goal rest (body ++ r) (eat + length rest))
              (sym (take_all left rest (omega (arith, lr))))
              (part-Eats hdr body rest eat ic hfd hh four (omega (arith, lr)) wide)))
  ]
    where
      need : ℕ
      need = get_u32 hdr - length body

      left : ℕ
      left = length buff - eat

      rest : List ℕ
      rest = drop eat buff

      lr : length (drop eat buff) ≡ length buff - eat
      lr = length-drop eat buff

      Goal : List ℕ → List ℕ → ℕ → Type 0
      Goal r b n =
          Eats fd eat r (feed limit r (in_body fd hdr body)) (λ ys. feed limit ys (fresh fd))
            (close ic (get_u32 hdr) b n)

  -- The header is complete with `eat` bytes of the buffer.
  start_body-Eats :
      (hdr buff : List ℕ) (eat : ℕ)
      → length hdr ≡ 4
      → eat ≤ length buff
      → Eats fd eat
          (drop eat buff)
          (after_header limit fd hdr (feed limit (drop eat buff)))
          (λ ys. feed limit ys (fresh fd))
          (start_body limit (in_header fd hdr) eat buff)
  unfolding start_body
  start_body-Eats hdr buff eat four he = go (validate_psize limit (get_u32 hdr)) refl
    where
      go :
          (o : Option Error)
          → validate_psize limit (get_u32 hdr) ≡ o
          → Eats fd eat
              (drop eat buff)
              (elim o [ some e ↦ stop e | none ↦ feed limit (drop eat buff) (in_body fd hdr []) ])
              (λ ys. feed limit ys (fresh fd))
              (elim o [
                | some e ↦ failed e
                | none ↦
                    if leb (get_u32 hdr + 1) ((get_u32 hdr + 1) % 2 ^ 32)
                    then fill_body (in_header fd hdr) (get_u32 hdr) [] eat buff
                    else aborted
              ])
      go (some e) q = refl
      go none q =
          let (low, high) = validate_psize-none limit (get_u32 hdr) q in
          let fits : leb (get_u32 hdr + 1) ((get_u32 hdr + 1) % 4294967296) ≡ true =
            ground (arith, high) in
          rw fits (
            fill_body-Eats hdr [] buff eat (in_header fd hdr) refl refl four (omega (arith, low))
              (omega (arith, high)) he)

  Eats-shift :
      (c : ℕ) (buff : List ℕ) (f : Fed) (next : List ℕ → Fed) (o : Eaten)
      → c ≤ length buff
      → Eats fd c (drop c buff) f next o
      → Eats fd 0 buff f next o
  Eats-shift c buff f next (partial n ic) h (e, i, g) = (omega (arith, length-drop c buff), i, g)
  Eats-shift c buff f next (whole n pk) h (lo, hi, w, g) = (
    omega arith,
    omega (arith, length-drop c buff),
    w,
    g
        ∙ ap (λ zs. emit pk (next zs))
            (drop-drop c (n - c) buff ∙ ap (λ (k : ℕ). drop k buff) {y = n - 0} (omega arith)),
  )
  Eats-shift c buff f next (failed e) h g = g
  Eats-shift c buff f next aborted h g = g

  Reads : List ℕ → Incomplete → Type 0
  Reads buff i =
      Eats fd 0 buff (feed limit buff i) (λ ys. feed limit ys (fresh fd)) (absorb limit i buff)

  header-Reads : (buff hdr : List ℕ) → length hdr < 4 → Reads buff (in_header fd hdr)
  unfolding Reads
  header-Reads buff hdr h = elim (dec_lt (length hdr + length buff) 4) [
    | yes p ↦
        rw (absorb-part limit (in_header fd hdr) buff p, feed-header_part limit fd buff hdr p)
          (omega arith, inl (hdr ++ buff, refl, omega (arith, length-append hdr buff)), refl)
    | no p ↦
        let c : ℕ = 4 - length hdr in
        let split : feed limit buff (in_header fd hdr)
            ≡ after_header limit fd (hdr ++ take c buff) (feed limit (drop c buff)) =
          ap (λ zs. feed limit zs (in_header fd hdr)) (sym (take-append-drop c buff))
          ∙ feed-header_end limit fd (take c buff) (drop c buff) hdr h
              (omega (arith, length-take c buff)) in
        rw (absorb-full limit c (in_header fd hdr) buff (omega arith) (omega arith), split)
          (Eats-shift c buff _ (λ ys. feed limit ys (fresh fd)) _ (omega arith)
            (start_body-Eats (hdr ++ take c buff) buff c
              (omega (arith, length-append hdr (take c buff), length-take c buff)) (omega arith)))
  ]

  body-Reads :
      (buff hdr body : List ℕ)
      → length hdr ≡ 4
      → length body < get_u32 hdr
      → get_u32 hdr < 2 ^ 31
      → Reads buff (in_body fd hdr body)
  unfolding Reads start_body
  body-Reads buff hdr body four h wide =
      rw
        (absorb-full limit 0 (in_body fd hdr body) buff (omega arith) (omega arith), append-nil hdr)
        (fill_body-Eats hdr body buff 0 (in_body fd hdr body) refl refl four h wide (omega arith))

  -- One read eats as much of the bytes as the stream takes up to its first packet.
  pub absorb-Eats :
      (buff : List ℕ) (ic : Incomplete)
      → IsOpen fd ic
      → Eats fd 0 buff (feed limit buff ic) (λ ys. feed limit ys (fresh fd)) (absorb limit ic buff)
  unfolding Reads
  absorb-Eats buff ic (inl (hdr, e, h)) = subst (Reads buff) (sym e) (header-Reads buff hdr h)
  absorb-Eats buff ic (inr (hdr, body, e, four, h, wide)) =
      subst (Reads buff) (sym e) (body-Reads buff hdr body four h wide)
