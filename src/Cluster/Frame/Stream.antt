-- ===== src/Cluster/Frame/Stream.antt =====
-- The packets of a byte stream, read byte by byte: the specification of `push`.
use silly.Common.{
  ℕ, ◌+◌, ◌<◌, ◌≡◌, inl, inr, sym, ap, ◌∙◌, List, [], ◌∷◌, ◌++◌, append-nil, append_assoc, none,
  some, true, false, arith, ◌==◌, if◌then◌else◌, length, length-append, Bool-cases,
}
use silly.Common.Bytes.{get_u32}
use silly.Cluster.State.{Packet, Incomplete, Error}
use silly.Cluster.Frame.{fresh, validate_psize, validate_payload}

-- How a stream ends: with an entry to go on from, or at an error.
pub data End : Type 0 where
  open_at : Incomplete → End
  broken : Error → End

pub record Fed : Type 0 where
  pub packets : List Packet
  pub end : End

-- An entry that waits for its header, and one that waits for its body.
abbrev pub in_header : ℕ → List ℕ → Incomplete
in_header fd hdr = record { fd = fd; hdr = hdr; buff = none }

abbrev pub in_body : ℕ → List ℕ → List ℕ → Incomplete
in_body fd hdr body = record { fd = fd; hdr = hdr; buff = some body }

-- The packet and the rest of the stream.
abbrev pub emit : Packet → Fed → Fed
emit pk f = record { packets = pk ∷ f.packets; end = f.end }

abbrev pub stop : Error → Fed
stop e = record { packets = []; end = broken e }

-- A complete header, and a complete body, before the rest of the stream.
abbrev pub after_header : ℕ → ℕ → List ℕ → (Incomplete → Fed) → Fed
after_header limit fd hdr rest = elim (validate_psize limit (get_u32 hdr)) [
  | some e ↦ stop e
  | none ↦ rest (in_body fd hdr [])
]

abbrev pub after_body : ℕ → List ℕ → (Incomplete → Fed) → Fed
after_body fd body rest = elim (validate_payload (length body) body) [
  | some e ↦ stop e
  | none ↦ emit (record { fd = fd; buff = body }) (rest (fresh fd))
]

unfoldable pub feed : ℕ → List ℕ → Incomplete → Fed
feed limit [] ic = record { packets = []; end = open_at ic }
feed limit (b ∷ bs) ic = elim ic.buff [
  | none ↦ elim (length (ic.hdr ++ b ∷ []) == 4) [
    | true ↦ after_header limit ic.fd (ic.hdr ++ b ∷ []) (feed limit bs)
    | false ↦ feed limit bs (in_header ic.fd (ic.hdr ++ b ∷ []))
  ]
  | some body ↦ elim (length (body ++ b ∷ []) == get_u32 ic.hdr) [
    | true ↦ after_body ic.fd (body ++ b ∷ []) (feed limit bs)
    | false ↦ feed limit bs (in_body ic.fd ic.hdr (body ++ b ∷ []))
  ]
]

module _ (limit fd : ℕ) where
  -- One byte of a header, and of a body.
  feed-cons_header :
      (b : ℕ) (bs hdr : List ℕ)
      → feed limit (b ∷ bs) (in_header fd hdr) ≡ (
          if length (hdr ++ b ∷ []) == 4
          then after_header limit fd (hdr ++ b ∷ []) (feed limit bs)
          else feed limit bs (in_header fd (hdr ++ b ∷ [])))
  unfolding feed
  feed-cons_header b bs hdr = elim (Bool-cases (length (hdr ++ b ∷ []) == 4)) [
    | inl e ↦ rw (e, feed)
    | inr e ↦ rw (e, feed)
  ]

  feed-cons_body :
      (b : ℕ) (bs hdr body : List ℕ)
      → feed limit (b ∷ bs) (in_body fd hdr body) ≡ (
          if length (body ++ b ∷ []) == get_u32 hdr
          then after_body fd (body ++ b ∷ []) (feed limit bs)
          else feed limit bs (in_body fd hdr (body ++ b ∷ [])))
  unfolding feed
  feed-cons_body b bs hdr body = elim (Bool-cases (length (body ++ b ∷ []) == get_u32 hdr)) [
    | inl e ↦ rw (e, feed)
    | inr e ↦ rw (e, feed)
  ]

  -- Bytes that do not complete the header, and those that do.
  pub feed-header :
      (xs ys hdr : List ℕ)
      → length hdr + length xs < 4
      → feed limit (xs ++ ys) (in_header fd hdr) ≡ feed limit ys (in_header fd (hdr ++ xs))
  feed-header [] ys hdr h = rw (append-nil hdr)
  feed-header (x ∷ xs) ys hdr h =
      let no4 : (length (hdr ++ x ∷ []) == 4) ≡ false =
        ground (arith, length-append hdr (x ∷ [])) in
      rw (feed-cons_header x (xs ++ ys) hdr, no4)
        (feed-header xs ys (hdr ++ x ∷ []) (omega (arith, length-append hdr (x ∷ [])))
          ∙ rw (append_assoc hdr (x ∷ []) xs))

  pub feed-header_end :
      (xs ys hdr : List ℕ)
      → length hdr < 4
      → length hdr + length xs ≡ 4
      → feed limit (xs ++ ys) (in_header fd hdr) ≡ after_header limit fd (hdr ++ xs) (feed limit ys)
  feed-header_end [] ys hdr h e = absurd (omega arith)
  feed-header_end (x ∷ []) ys hdr h e =
      let four : (length (hdr ++ x ∷ []) == 4) ≡ true =
        ground (arith, length-append hdr (x ∷ [])) in
      rw (feed-cons_header x ys hdr, four)
  feed-header_end (x ∷ y ∷ xs) ys hdr h e =
      let no4 : (length (hdr ++ x ∷ []) == 4) ≡ false =
        ground (arith, length-append hdr (x ∷ [])) in
      rw (feed-cons_header x (y ∷ (xs ++ ys)) hdr, no4)
        (feed-header_end (y ∷ xs) ys (hdr ++ x ∷ []) (omega (arith, length-append hdr (x ∷ [])))
            (omega (arith, length-append hdr (x ∷ [])))
          ∙ rw (append_assoc hdr (x ∷ []) (y ∷ xs)))

  -- The same for the body.
  pub feed-body :
      (xs ys hdr body : List ℕ)
      → length body + length xs < get_u32 hdr
      → feed limit (xs ++ ys) (in_body fd hdr body) ≡ feed limit ys (in_body fd hdr (body ++ xs))
  feed-body [] ys hdr body h = rw (append-nil body)
  feed-body (x ∷ xs) ys hdr body h =
      let more : (length (body ++ x ∷ []) == get_u32 hdr) ≡ false =
        ground (arith, length-append body (x ∷ [])) in
      rw (feed-cons_body x (xs ++ ys) hdr body, more)
        (feed-body xs ys hdr (body ++ x ∷ []) (omega (arith, length-append body (x ∷ [])))
          ∙ rw (append_assoc body (x ∷ []) xs))

  pub feed-body_end :
      (xs ys hdr body : List ℕ)
      → length body < get_u32 hdr
      → length body + length xs ≡ get_u32 hdr
      → feed limit (xs ++ ys) (in_body fd hdr body) ≡ after_body fd (body ++ xs) (feed limit ys)
  feed-body_end [] ys hdr body h e = absurd (omega arith)
  feed-body_end (x ∷ []) ys hdr body h e =
      let all : (length (body ++ x ∷ []) == get_u32 hdr) ≡ true =
        ground (arith, length-append body (x ∷ [])) in
      rw (feed-cons_body x ys hdr body, all)
  feed-body_end (x ∷ y ∷ xs) ys hdr body h e =
      let more : (length (body ++ x ∷ []) == get_u32 hdr) ≡ false =
        ground (arith, length-append body (x ∷ [])) in
      rw (feed-cons_body x (y ∷ (xs ++ ys)) hdr body, more)
        (feed-body_end (y ∷ xs) ys hdr (body ++ x ∷ []) (omega (arith, length-append body (x ∷ [])))
            (omega (arith, length-append body (x ∷ [])))
          ∙ rw (append_assoc body (x ∷ []) (y ∷ xs)))

  -- A stream that ends within the header, or within the body.
  pub feed-header_part :
      (xs hdr : List ℕ)
      → length hdr + length xs < 4
      → feed limit xs (in_header fd hdr)
        ≡ record { packets = []; end = open_at (in_header fd (hdr ++ xs)) }
  unfolding feed
  feed-header_part xs hdr h =
      ap (λ zs. feed limit zs (in_header fd hdr)) (sym (append-nil xs)) ∙ feed-header xs [] hdr h

  pub feed-body_part :
      (xs hdr body : List ℕ)
      → length body + length xs < get_u32 hdr
      → feed limit xs (in_body fd hdr body)
        ≡ record { packets = []; end = open_at (in_body fd hdr (body ++ xs)) }
  unfolding feed
  feed-body_part xs hdr body h =
      ap (λ zs. feed limit zs (in_body fd hdr body)) (sym (append-nil xs))
      ∙ feed-body xs [] hdr body h
