-- ===== src/Cluster/Frame/Push.antt =====
-- `push` cuts the stream of a descriptor as the byte-by-byte reading does, whatever the reads.
use silly.Common.{
  ℕ, zero, suc, ◌+◌, ◌-◌, ◌*◌, ◌^◌, ◌≤◌, ◌<◌, ◌≡◌, ◌≢◌, ◌⊎◌, inl, inr, refl, sym, ap, subst, ◌∙◌,
  List, [], ◌∷◌, ◌++◌, append-nil, append_assoc, Option, none, some, true, false, arith, ◌==◌, ap₂,
  length, drop, length-drop, drop_all,
}
use native.Mathlib.Decide.{ℕ_discrete, dec_lt}
use silly.Cluster.State.{Packet, Incomplete, Ring, NetPacket, Error}
use silly.Cluster.Ring.Fifo.{IsValid, contents, push_complete-contents}
use silly.Cluster.Frame.{
  clear_incomplete, fresh, Eaten, partial, whole, failed, aborted, absorb, settle, get_incomplete,
  put_incomplete, Pushed, ate, fault, push_once, push,
}
use silly.Cluster.Frame.Stream.{End, open_at, broken, Fed, emit, feed}
use silly.Cluster.Frame.Absorb.{IsOpen, Eats, absorb-Eats}
use silly.Cluster.Frame.Table.{
  pending, Once, taken-Once, taken_self, taken-ne, put-Once, put_self, put-ne, entry,
}

-- The queue is a ring of good shape, the entries are those of streams cut in the middle, and the
-- hard limit is below 2^31, so that the size of a packet fits its `int`.
pub record IsHeld (p : NetPacket) : Type 0 where
  pub ring : IsValid p.ring
  pub once : Once p
  pub entries : (fd : ℕ) → IsOpen fd (pending p fd)
  pub narrow : p.hardlimit < 2 ^ 31

-- What `push` ends with: packets queued behind the others, the descriptor at an entry, and the
-- other descriptors where they were.
pub record Took (p p' : NetPacket) (fd : ℕ) (packets : List Packet) (ic : Incomplete) : Type 0 where
  pub held : IsHeld p'
  pub contents : contents p'.ring ≡ contents p.ring ++ packets
  pub entry : pending p' fd ≡ ic
  pub others : (g : ℕ) → (fd ≡ g) ⊎ (pending p' g ≡ pending p g)
  pub limit : p'.hardlimit ≡ p.hardlimit

fresh-IsOpen : (fd : ℕ) → IsOpen fd (fresh fd)
fresh-IsOpen fd = inl ([], refl, omega arith)

IsOpen-fd : (fd : ℕ) (ic : Incomplete) → IsOpen fd ic → ic.fd ≡ fd
IsOpen-fd fd ic (inl (h, e, _)) = ap (λ (i : Incomplete). i.fd) e
IsOpen-fd fd ic (inr (h, b, e, _, _, _)) = ap (λ (i : Incomplete). i.fd) e

module _ (p : NetPacket) (fd : ℕ) (v : IsHeld p) where
  abbrev out : NetPacket
  out = (get_incomplete p fd).1

  out-limit : (get_incomplete p fd).1.hardlimit ≡ p.hardlimit
  unfolding get_incomplete
  out-limit = refl

  out-ring : (get_incomplete p fd).1.ring ≡ p.ring
  unfolding get_incomplete
  out-ring = refl

  -- With the entry taken out.
  out-Took : Took p (get_incomplete p fd).1 fd [] (fresh fd)
  out-Took = record {
    held = record {
      ring = subst IsValid (sym out-ring) v.ring;
      once = taken-Once p fd v.once;
      entries = λ g. elim (ℕ_discrete fd g) [
        | yes e ↦
            subst (λ h. IsOpen h (pending out h)) e (rw (taken_self p fd v.once) (fresh-IsOpen fd))
        | no ne ↦ rw (taken-ne p fd g ne) (v.entries g)
      ];
      narrow = subst (λ n. n < 2 ^ 31) (sym out-limit) v.narrow;
    };
    contents = ap contents out-ring ∙ sym (append-nil (contents p.ring));
    entry = rw (taken_self p fd v.once);
    others = λ g. elim (ℕ_discrete fd g) [ yes e ↦ inl e | no ne ↦ inr (rw (taken-ne p fd g ne)) ];
    limit = out-limit;
  }

  -- With an entry put back.
  put-Took : (ic : Incomplete) → IsOpen fd ic → Took p (put_incomplete out ic) fd [] ic
  unfolding put_incomplete
  put-Took ic o =
      let same : ic.fd ≡ fd = IsOpen-fd fd ic o in
      let here : entry (put_incomplete out ic) fd ≡ some ic =
        subst (λ d. entry (put_incomplete out ic) d ≡ some ic) same (put_self out ic) in
      let there : (g : ℕ) → fd ≢ g → entry (put_incomplete out ic) g ≡ entry out g =
        λ g ne. put-ne out ic g (λ e. ne (sym same ∙ e)) in
      record {
        held = record {
          ring = out-Took.held.ring;
          once =
              put-Once out ic out-Took.held.once
                (subst (λ d. entry out d ≡ none) (sym same) (taken_self p fd v.once));
          entries = λ g. elim (ℕ_discrete fd g) [
            | yes e ↦ subst (λ h. IsOpen h (pending (put_incomplete out ic) h)) e (rw here o)
            | no ne ↦ rw (there g ne) (out-Took.held.entries g)
          ];
          narrow = out-Took.held.narrow;
        };
        contents = out-Took.contents;
        entry = rw here;
        others = λ g. elim (ℕ_discrete fd g) [
          | yes e ↦ inl e
          | no ne ↦ inr (rw (there g ne, taken-ne p fd g ne))
        ];
        limit = out-Took.limit;
      }

  -- With a packet queued.
  queued-Took :
      (pk : Packet) (r : Ring)
      → IsValid r
      → contents r ≡ contents out.ring ++ pk ∷ []
      → Took p (record out { ring = r }) fd (pk ∷ []) (fresh fd)
  queued-Took pk r ok e = record {
    held = record {
      ring = ok;
      once = out-Took.held.once;
      entries = out-Took.held.entries;
      narrow = out-Took.held.narrow;
    };
    contents = e ∙ ap (λ q. contents q ++ pk ∷ []) out-ring;
    entry = out-Took.entry;
    others = out-Took.others;
    limit = out-Took.limit;
  }

-- What a call reports of a stream that ends so, and the entry that it leaves.
abbrev pub report : End → Pushed
report (open_at ic) = ate 0
report (broken e) = fault e

abbrev pub left_over : ℕ → End → Incomplete
left_over fd (open_at ic) = ic
left_over fd (broken e) = fresh fd

Took-trans :
    {p q r : NetPacket} {fd : ℕ} {xs ys : List Packet} {i j : Incomplete}
    → Took p q fd xs i
    → Took q r fd ys j
    → Took p r fd (xs ++ ys) j
Took-trans {p} {q} {r} {fd} {xs} {ys} t u = record {
  held = u.held;
  contents = u.contents ∙ ap (λ l. l ++ ys) t.contents ∙ append_assoc (contents p.ring) xs ys;
  entry = u.entry;
  others = λ g. elim (t.others g) [
    | inl e ↦ inl e
    | inr same ↦ elim (u.others g) [ inl e ↦ inl e | inr again ↦ inr (again ∙ same) ]
  ];
  limit = u.limit ∙ t.limit;
}

-- What one `push_once` comes to, of a read that the stream takes to `f`: it is all eaten, or an
-- error, or one packet is complete and the rest is a stream of its own.
abbrev Stepped : NetPacket → ℕ → List ℕ → Fed → Option (Pushed × NetPacket) → Type 0
Stepped p fd buff f res =
    ((p' : NetPacket) × (res ≡ some (ate (length buff), p'))
      × Took p p' fd f.packets (left_over fd f.end)
      × (report f.end ≡ ate 0)
      × (p'.ring.cap ≡ p.ring.cap))
    ⊎ ((e : Error) × (p' : NetPacket) × (res ≡ some (fault e, p'))
        × Took p p' fd f.packets (left_over fd f.end)
        × (report f.end ≡ fault e)
        × (p'.ring.cap ≡ p.ring.cap))
    ⊎ ((n : ℕ) × (pk : Packet) × (p' : NetPacket) × (0 < n)
        × (n ≤ length buff)
        × (res ≡ some (ate n, p'))
        × Took p p' fd (pk ∷ []) (fresh fd)
        × (f ≡ emit pk (feed p.hardlimit (drop n buff) (fresh fd)))
        × (p'.ring.cap ≤ p.ring.cap + 2048))

module _ (p : NetPacket) (fd : ℕ) (v : IsHeld p) where
  abbrev next : List ℕ → Fed
  next ys = feed p.hardlimit ys (fresh fd)

  put-ring : (ic : Incomplete) → (put_incomplete (out p fd v) ic).ring ≡ p.ring
  unfolding put_incomplete
  put-ring ic = out-ring p fd v

  settle-Stepped :
      (buff : List ℕ) (f : Fed) (o : Eaten)
      → p.ring.cap + 2048 * length buff ≤ 2 ^ 29
      → Eats fd 0 buff f next o
      → Stepped p fd buff f (settle (get_incomplete p fd).1 o)
  unfolding settle
  settle-Stepped buff f (partial n ic) room (e, ok, fe) = inl (
    put_incomplete (out p fd v) ic,
    ap (λ k. some (ate k, put_incomplete (out p fd v) ic)) (omega (arith, e)),
    rw fe (put-Took p fd v ic ok),
    rw fe,
    ap (λ (r : Ring). r.cap) (put-ring ic),
  )
  settle-Stepped buff f (whole n pk) room (lo, hi, size, fe) =
      let same : (out p fd v).ring.cap ≡ p.ring.cap = ap (λ (r : Ring). r.cap) (out-ring p fd v) in
      let (r, e, ok, c, grown) =
        push_complete-contents (out p fd v).ring pk (out-Took p fd v).held.ring
          (omega (arith, same, room)) size in
      inr (
        inr (
          n,
          pk,
          record (out p fd v) { ring = r },
          lo,
          omega (arith, hi),
          rw e,
          queued-Took p fd v pk r ok c,
          fe ∙ ap (λ (k : ℕ). emit pk (next (drop k buff))) {x = n - 0} (omega arith),
          omega (arith, grown, same),
        ))
  settle-Stepped buff f (failed e) room fe = inr (
      inl (
        e,
        out p fd v,
        refl,
        rw fe (out-Took p fd v),
        rw fe,
        ap (λ (r : Ring). r.cap) (out-ring p fd v),
      ))
  settle-Stepped buff f aborted room h = absurd h

  push_once-Stepped :
      (buff : List ℕ)
      → p.ring.cap + 2048 * length buff ≤ 2 ^ 29
      → Stepped p fd buff (feed p.hardlimit buff (pending p fd)) (push_once p fd buff)
  unfolding push_once get_incomplete
  push_once-Stepped buff room =
      settle-Stepped buff (feed p.hardlimit buff (pending p fd))
        (absorb p.hardlimit (pending p fd) buff) room
        (absorb-Eats p.hardlimit fd v.narrow buff (pending p fd) (v.entries fd))

push-all :
    (fuel : ℕ) (p p' : NetPacket) (fd n : ℕ) (buff : List ℕ)
    → push_once p fd buff ≡ some (ate n, p')
    → length buff ≤ n
    → push (suc fuel) p fd buff ≡ some (ate 0, p')
unfolding push
push-all fuel p p' fd n buff e h =
    let z : (length buff - n == 0) ≡ true = ground arith in rw (push, e, z)

push-more :
    (fuel : ℕ) (p p' : NetPacket) (fd n : ℕ) (buff : List ℕ)
    → push_once p fd buff ≡ some (ate n, p')
    → n < length buff
    → push (suc fuel) p fd buff ≡ push fuel p' fd (drop n buff)
unfolding push
push-more fuel p p' fd n buff e h =
    let z : (length buff - n == 0) ≡ false = ground arith in rw (push, e, z)

push-error :
    (fuel : ℕ) (p p' : NetPacket) (fd : ℕ) (err : Error) (buff : List ℕ)
    → push_once p fd buff ≡ some (fault err, p')
    → push (suc fuel) p fd buff ≡ some (fault err, p')
unfolding push
push-error fuel p p' fd err buff e = rw (push, e)

-- `push` on this fuel does to the queue and the table what the stream `f` says.
abbrev Pushes : ℕ → NetPacket → ℕ → List ℕ → Fed → Type 0
Pushes fuel p fd buff f =
    (p' : NetPacket) × (push fuel p fd buff ≡ some (report f.end, p'))
    × Took p p' fd f.packets (left_over fd f.end)
    × (p'.ring.cap ≤ p.ring.cap + 2048 * length buff)

module _ (fuel : ℕ) (p : NetPacket) (fd n : ℕ) (buff : List ℕ) (pk : Packet) (p' : NetPacket) where
  abbrev rest : Fed
  rest = feed p.hardlimit (drop n buff) (fresh fd)

  -- The packet ends with the read.
  all-Pushes :
      push_once p fd buff ≡ some (ate n, p')
      → length buff ≤ n
      → Took p p' fd (pk ∷ []) (fresh fd)
      → p'.ring.cap ≤ p.ring.cap + 2048 * length buff
      → Pushes (suc fuel) p fd buff (emit pk rest)
  unfolding feed
  all-Pushes e m t c = rw (drop_all n buff m) (p', push-all fuel p p' fd n buff e m, t, c)

  -- The loop goes on behind it.
  more-Pushes :
      push_once p fd buff ≡ some (ate n, p')
      → n < length buff
      → Took p p' fd (pk ∷ []) (fresh fd)
      → 0 < n
      → p'.ring.cap ≤ p.ring.cap + 2048
      → Pushes fuel p' fd (drop n buff) (feed p'.hardlimit (drop n buff) (pending p' fd))
      → Pushes (suc fuel) p fd buff (emit pk rest)
  more-Pushes e m t lo c (q, eq, u, d) =
      let same : feed p'.hardlimit (drop n buff) (pending p' fd) ≡ rest =
        ap₂ (λ l i. feed l (drop n buff) i) t.limit t.entry in
      (
        q,
        push-more fuel p p' fd n buff e m ∙ eq ∙ ap (λ g. some (report g.end, q)) same,
        Took-trans t (subst (λ g. Took p' q fd g.packets (left_over fd g.end)) same u),
        omega (arith, c, d, length-drop n buff),
      )

step-Pushes :
    (fuel : ℕ) (p : NetPacket) (fd : ℕ) (buff : List ℕ) (f : Fed)
    → ((p' : NetPacket) (n : ℕ)
        → IsHeld p'
        → 0 < n
        → n < length buff
        → p'.ring.cap ≤ p.ring.cap + 2048
        → Pushes fuel p' fd (drop n buff) (feed p'.hardlimit (drop n buff) (pending p' fd)))
    → Stepped p fd buff f (push_once p fd buff)
    → Pushes (suc fuel) p fd buff f
step-Pushes fuel p fd buff f again (inl (p', e, t, r, c)) = (
  p',
  push-all fuel p p' fd (length buff) buff e (omega arith) ∙ ap (λ o. some (o, p')) (sym r),
  t,
  omega (arith, c),
)
step-Pushes fuel p fd buff f again (inr (inl (err, p', e, t, r, c))) =
    (p', push-error fuel p p' fd err buff e ∙ ap (λ o. some (o, p')) (sym r), t, omega (arith, c))
step-Pushes fuel p fd buff f again (inr (inr (n, pk, p', lo, hi, e, t, fe, c))) =
    subst (Pushes (suc fuel) p fd buff) (sym fe) (elim (dec_lt n (length buff)) [
      | yes m ↦ more-Pushes fuel p fd n buff pk p' e m t lo c (again p' n t.held lo m c)
      | no m ↦ all-Pushes fuel p fd n buff pk p' e (omega arith) t (omega (arith, c))
    ])

-- `push` with fuel for every byte and one more never fails on a queue that could grow for every byte
-- and keep at most 2^29 places, with a hard limit below 2^31: whatever part of the stream of `fd`
-- the bytes are, the packets that the byte-by-byte reading makes of them are queued in order
-- behind the others, the table keeps the entry where that reading ends and the entries of the
-- other descriptors, and an error is reported when the reading meets one. The queue grows by at most
-- 2048 places for each byte.
pub push-Took :
    (fuel : ℕ) (p : NetPacket) (fd : ℕ) (buff : List ℕ)
    → IsHeld p
    → length buff < fuel
    → p.ring.cap + 2048 * length buff ≤ 2 ^ 29
    → let f = feed p.hardlimit buff (pending p fd) in
      (p' : NetPacket) × (push fuel p fd buff ≡ some (report f.end, p'))
      × Took p p' fd f.packets (left_over fd f.end)
      × (p'.ring.cap ≤ p.ring.cap + 2048 * length buff)
push-Took zero p fd buff v h room = absurd (omega arith)
push-Took (suc fuel) p fd buff v h room =
    step-Pushes fuel p fd buff (feed p.hardlimit buff (pending p fd))
      (λ p' n v' lo m c.
        push-Took fuel p' fd (drop n buff) v' (omega (arith, length-drop n buff))
          (omega (arith, c, room, length-drop n buff)))
      (push_once-Stepped p fd v buff room)

-- `clear_incomplete` drops the entry of the descriptor, so that its next bytes begin a stream, and
-- leaves the queue and the entries of the other descriptors as they are.
pub clear_incomplete-Took :
    (p : NetPacket) (fd : ℕ) → IsHeld p → Took p (clear_incomplete p fd) fd [] (fresh fd)
unfolding clear_incomplete
clear_incomplete-Took p fd v = out-Took p fd v
