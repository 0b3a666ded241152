-- ===== src/Cluster/Frame/Cuts.antt =====
-- Where a stream is cut into reads makes no difference to the packets.
use silly.Common.{
  ℕ, ◌+◌, ◌*◌, ◌^◌, ◌≤◌, ◌<◌, ◌≡◌, refl, sym, ap, ap₂, subst, ◌∙◌, List, [], ◌∷◌, ◌++◌,
  append_assoc, Option, none, some, Bool, true, false, arith, ◌==◌, length, length-append,
}
use silly.Common.Bytes.{get_u32}
use silly.Cluster.State.{Packet, Incomplete, NetPacket, Error}
use silly.Cluster.Ring.Fifo.{contents}
use silly.Cluster.Frame.{validate_psize, validate_payload, push, Pushed, ate}
use silly.Cluster.Frame.Stream.{
  End, open_at, broken, Fed, in_header, in_body, emit, stop, after_header, after_body, feed,
}
use silly.Cluster.Frame.Table.{pending}
use silly.Cluster.Frame.Push.{IsHeld, Took, report, left_over, push-Took}

-- A stream, and then one from the entry that it ends with.
abbrev joined : List Packet → Fed → Fed
joined pks f = record { packets = pks ++ f.packets; end = f.end }

abbrev follow_end : List Packet → End → (Incomplete → Fed) → Fed
follow_end pks (open_at i) k = joined pks (k i)
follow_end pks (broken e) k = record { packets = pks; end = broken e }

abbrev follow : Fed → (Incomplete → Fed) → Fed
follow f k = follow_end f.packets f.end k

follow-emit :
    (pk : Packet) (f : Fed) (k : Incomplete → Fed) → follow (emit pk f) k ≡ emit pk (follow f k)
follow-emit pk f k = go f.packets f.end
  where
    go : (pks : List Packet) (e : End) → follow_end (pk ∷ pks) e k ≡ emit pk (follow_end pks e k)
    go pks (open_at i) = refl
    go pks (broken e) = refl

-- One byte of a stream, before what comes behind it.
abbrev cons : ℕ → ℕ → (Incomplete → Fed) → ℕ → List ℕ → Option (List ℕ) → Fed
cons limit b c fd hdr none = elim (length (hdr ++ b ∷ []) == 4) [
  | true ↦ after_header limit fd (hdr ++ b ∷ []) c
  | false ↦ c (in_header fd (hdr ++ b ∷ []))
]
cons limit b c fd hdr (some body) = elim (length (body ++ b ∷ []) == get_u32 hdr) [
  | true ↦ after_body fd (body ++ b ∷ []) c
  | false ↦ c (in_body fd hdr (body ++ b ∷ []))
]

feed-cons :
    (limit b fd : ℕ) (bs hdr : List ℕ) (o : Option (List ℕ))
    → feed limit (b ∷ bs) (record { fd = fd; hdr = hdr; buff = o })
      ≡ cons limit b (feed limit bs) fd hdr o
unfolding feed
feed-cons limit b fd bs hdr none = refl
feed-cons limit b fd bs hdr (some body) = refl

module _ (limit : ℕ) (k j : Incomplete → Fed) (g : Incomplete → Fed)
    (same : (i : Incomplete) → j i ≡ follow (k i) g) where
  after_header-follow :
      (fd : ℕ) (hdr : List ℕ) → after_header limit fd hdr j ≡ follow (after_header limit fd hdr k) g
  after_header-follow fd hdr = go (validate_psize limit (get_u32 hdr))
    where
      go :
          (o : Option Error)
          → elim o [ some e ↦ stop e | none ↦ j (in_body fd hdr []) ]
            ≡ follow (elim o [ some e ↦ stop e | none ↦ k (in_body fd hdr []) ]) g
      go (some e) = refl
      go none = same (in_body fd hdr [])

  after_body-follow :
      (fd : ℕ) (body : List ℕ) → after_body fd body j ≡ follow (after_body fd body k) g
  after_body-follow fd body = go (validate_payload (length body) body)
    where
      pk : Packet
      pk = record { fd = fd; buff = body }

      fresh_entry : Incomplete
      fresh_entry = in_header fd []

      go :
          (o : Option Error)
          → elim o [ some e ↦ stop e | none ↦ emit pk (j fresh_entry) ]
            ≡ follow (elim o [ some e ↦ stop e | none ↦ emit pk (k fresh_entry) ]) g
      go (some e) = refl
      go none = ap (emit pk) (same fresh_entry) ∙ sym (follow-emit pk (k fresh_entry) g)

  header-follow :
      (fd : ℕ) (hdr : List ℕ) (full : Bool)
      → elim full [ true ↦ after_header limit fd hdr j | false ↦ j (in_header fd hdr) ]
        ≡ follow (elim full [ true ↦ after_header limit fd hdr k | false ↦ k (in_header fd hdr) ]) g
  header-follow fd hdr true = after_header-follow fd hdr
  header-follow fd hdr false = same (in_header fd hdr)

  body-follow :
      (fd : ℕ) (hdr body : List ℕ) (full : Bool)
      → elim full [ true ↦ after_body fd body j | false ↦ j (in_body fd hdr body) ]
        ≡ follow (elim full [ true ↦ after_body fd body k | false ↦ k (in_body fd hdr body) ]) g
  body-follow fd hdr body true = after_body-follow fd body
  body-follow fd hdr body false = same (in_body fd hdr body)

  cons-follow :
      (b fd : ℕ) (hdr : List ℕ) (o : Option (List ℕ))
      → cons limit b j fd hdr o ≡ follow (cons limit b k fd hdr o) g
  cons-follow b fd hdr none = header-follow fd (hdr ++ b ∷ []) (length (hdr ++ b ∷ []) == 4)
  cons-follow b fd hdr (some body) =
      body-follow fd hdr (body ++ b ∷ []) (length (body ++ b ∷ []) == get_u32 hdr)

-- Reading on after `xs` is reading `xs ++ ys`.
feed-append :
    (limit : ℕ) (xs ys : List ℕ) (ic : Incomplete)
    → feed limit (xs ++ ys) ic ≡ follow (feed limit xs ic) (feed limit ys)
unfolding feed
feed-append limit [] ys ic = refl
feed-append limit (b ∷ bs) ys ic =
    feed-cons limit b ic.fd (bs ++ ys) ic.hdr ic.buff
    ∙ cons-follow limit (feed limit bs) (feed limit (bs ++ ys)) (feed limit ys)
        (feed-append limit bs ys) b ic.fd ic.hdr ic.buff
    ∙ ap (λ f. follow f (feed limit ys)) (sym (feed-cons limit b ic.fd bs ic.hdr ic.buff))

-- A stream that goes on ended at an entry.
goes_on : (e : End) → report e ≡ ate 0 → (i : Incomplete) × (e ≡ open_at i)
goes_on (open_at i) h = (i, refl)
goes_on (broken e) h = absurd (ground arith)

-- What `push` gives for a stream that the reading takes to `f`.
push-as :
    (fuel : ℕ) (p : NetPacket) (fd : ℕ) (buff : List ℕ) (f : Fed)
    → IsHeld p
    → length buff < fuel
    → p.ring.cap + 2048 * length buff ≤ 2 ^ 29
    → feed p.hardlimit buff (pending p fd) ≡ f
    → (p' : NetPacket) × (push fuel p fd buff ≡ some (report f.end, p'))
      × Took p p' fd f.packets (left_over fd f.end)
push-as fuel p fd buff f v h room e =
    subst
      (λ f.
        (p' : NetPacket) × (push fuel p fd buff ≡ some (report f.end, p'))
        × Took p p' fd f.packets (left_over fd f.end))
      e (let (p', q, t, _) = push-Took fuel p fd buff v h room in (p', q, t))

answer : Pushed × NetPacket → Option (Pushed × NetPacket) → Pushed × NetPacket
answer d none = d
answer d (some r) = r

-- A stream read by two calls of `push`, of which the first meets no error, or by one, into a queue
-- that could grow for every byte and keep at most 2^29 places: the same answer, the same packets in the queue, and the same entry in the table.
pub push-cuts :
    (fuel : ℕ) (p p₁ : NetPacket) (fd : ℕ) (xs ys : List ℕ)
    → IsHeld p
    → length xs + length ys < fuel
    → p.ring.cap + 2048 * (length xs + length ys) ≤ 2 ^ 29
    → push fuel p fd xs ≡ some (ate 0, p₁)
    → (r : Pushed) × (p₂ q : NetPacket) × (push fuel p₁ fd ys ≡ some (r, p₂))
      × (push fuel p fd (xs ++ ys) ≡ some (r, q))
      × (contents q.ring ≡ contents p₂.ring)
      × (pending q fd ≡ pending p₂ fd)
unfolding answer
push-cuts fuel p p₁ fd xs ys v h room e₁ =
    let f : Fed = feed p.hardlimit xs (pending p fd) in
    let (p', e, t, grown) = push-Took fuel p fd xs v (omega arith) (omega arith) in
    let same : (report f.end, p') ≡ (ate 0, p₁) = ap (answer (ate 0, p)) (sym e ∙ e₁) in
    let (i, open_end) = goes_on f.end (ap (λ r. r.0) same) in
    let t₁ : Took p p₁ fd f.packets i =
      subst (λ u. Took p u fd f.packets i) (ap (λ r. r.1) same)
        (subst (λ d. Took p p' fd f.packets (left_over fd d)) open_end t) in
    let capped : p'.ring.cap ≡ p₁.ring.cap = ap (λ (r : Pushed × NetPacket). r.1.ring.cap) same in
    let g : Fed = feed p.hardlimit ys i in
    let (p₂, e₂, t₂) =
      push-as fuel p₁ fd ys g t₁.held (omega arith) (omega (arith, grown, capped))
        (ap₂ (λ l j. feed l ys j) t₁.limit t₁.entry) in
    let (q, eq, u) =
      push-as fuel p fd (xs ++ ys) (joined f.packets g) v (omega (arith, length-append xs ys))
        (omega (arith, length-append xs ys))
        (feed-append p.hardlimit xs ys (pending p fd)
          ∙ ap (λ d. follow_end f.packets d (feed p.hardlimit ys)) open_end) in
    (
      report g.end,
      p₂,
      q,
      e₂,
      eq,
      u.contents
          ∙ sym (append_assoc (contents p.ring) f.packets g.packets)
          ∙ ap (λ l. l ++ g.packets) (sym t₁.contents)
          ∙ sym t₂.contents,
      u.entry ∙ sym t₂.entry,
    )
