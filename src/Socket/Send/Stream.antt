-- ===== src/Socket/Send/Stream.antt =====
-- The byte stream of a connection: what is sent, what the kernel took, and what still waits.
use silly.Common.{
  ℕ, zero, suc, ◌+◌, ◌-◌, ◌≤◌, ◌<◌, ◌≡◌, inl, inr, refl, sym, ap, ap₂, ◌∙◌, List, [], ◌∷◌, ◌++◌,
  append_assoc, arith, ltb, ltb→lt, ◌==◌, ==_iff, length, take, drop, length-append, length-drop,
  take-append-drop, take-append_left, drop-append_left, drop-append_right, drop_all, drop-drop,
  Bool-cases, ==_refl,
}
use silly.Socket.State.{Wlist, Manager, iov_size}
use silly.Socket.Pool.{at, wcache_put}
use silly.Socket.Send.{iov_bytes, consume, took}

-- The bytes of a write list behind the offset into its head.
abbrev pub waiting : ℕ → List Wlist → List ℕ
waiting offset [] = []
waiting offset (w ∷ ws) = drop offset w.buf ++ waiting 0 ws

-- The `iov` is the front of them.
iov_bytes-front :
    (k offset : ℕ) (ws : List Wlist)
    → (rest : List ℕ) × (waiting offset ws ≡ iov_bytes k offset ws ++ rest)
unfolding iov_bytes
iov_bytes-front zero offset ws = (waiting offset ws, refl)
iov_bytes-front (suc k) offset [] = ([], refl)
iov_bytes-front (suc k) offset (w ∷ ws) =
    let (rest, e) = iov_bytes-front k 0 ws in
    (
      rest,
      ap (λ (xs : List ℕ). drop offset w.buf ++ xs) e
          ∙ sym (append_assoc (drop offset w.buf) (iov_bytes k 0 ws) rest),
    )

-- A non-empty list whose offset lies within its head; no node is empty.
abbrev pub IsList : ℕ → List Wlist → Type 0
IsList offset [] = offset ≡ 0
IsList offset (w ∷ ws) = (offset < length w.buf) × IsList 0 ws

-- Bytes that the loop consumes are the first of those that wait, and the offset stays in range.
consume-waiting :
    (total offset : ℕ) (ws : List Wlist) (cache : List ℕ)
    → IsList offset ws
    → total ≤ length (waiting offset ws)
    → let c = consume total offset ws cache in
      (waiting c.0 c.1 ≡ drop total (waiting offset ws)) × IsList c.0 c.1
unfolding consume
consume-waiting total offset [] cache h t = (sym (drop_all total [] (omega arith)), h)
consume-waiting total offset (w ∷ ws) cache (h, hs) t =
    let avail : ℕ = length w.buf - offset in
    let head : length (drop offset w.buf) ≡ avail = length-drop offset w.buf in
    elim (Bool-cases (total == 0)) [
      | inl z ↦
          let e : total ≡ 0 = (==_iff total 0).0 z in
          rw z (sym (ap (λ (n : ℕ). drop n (waiting offset (w ∷ ws))) e), (h, hs))
      | inr pos ↦ elim (Bool-cases (ltb total avail)) [
        | inl part ↦
            let few : total < avail = ltb→lt total avail part in
            rw (pos, part)
              (
                ap (λ xs. xs ++ waiting 0 ws) (sym (drop-drop offset total w.buf))
                    ∙ sym (drop-append_left total (drop offset w.buf) (waiting 0 ws) (omega arith)),
                (omega arith, hs),
              )
        | inr all ↦
            let many : avail ≤ total = ground arith in
            let size : length (waiting offset (w ∷ ws)) ≡ avail + length (waiting 0 ws) =
              omega (arith, length-append (drop offset w.buf) (waiting 0 ws)) in
            let (e, l) =
              consume-waiting (total - avail) 0 ws (wcache_put cache w) hs (omega arith) in
            rw (pos, all)
              (
                e
                    ∙ drop-append_right (drop offset w.buf) (waiting 0 ws) total (omega arith)
                        (omega arith),
                l,
              )
      ]
    ]

-- All that was ever written to a connection, sent or not.
abbrev pub stream : Manager → ℕ → List ℕ
stream ss i = (ss.ports i).wire ++ waiting (at ss i).wloffset (at ss i).wlhead

-- The bytes that `writev` takes move from one part to the other.
pub took-stream :
    (ss : Manager) (i total : ℕ)
    → IsList (at ss i).wloffset (at ss i).wlhead
    → total ≤ length (iov_bytes iov_size (at ss i).wloffset (at ss i).wlhead)
    → (stream (took ss i total) i ≡ stream ss i)
      × IsList (at (took ss i total) i).wloffset (at (took ss i total) i).wlhead
unfolding took
took-stream ss i total h t =
    let s = at ss i in
    let iov : List ℕ = iov_bytes iov_size s.wloffset s.wlhead in
    let all : List ℕ = waiting s.wloffset s.wlhead in
    let wire : List ℕ = (ss.ports i).wire in
    let (rest, e) = iov_bytes-front iov_size s.wloffset s.wlhead in
    let (w, l) =
      consume-waiting total s.wloffset s.wlhead ss.wcache h
        (omega (arith, ap (λ (xs : List ℕ). length xs) e, length-append iov rest)) in
    let front : take total iov ≡ take total all =
      sym (take-append_left total iov rest t) ∙ ap (λ xs. take total xs) (sym e) in
    rw (==_refl i) (
      ap₂ (λ (xs ys : List ℕ). (wire ++ xs) ++ ys) front w
          ∙ append_assoc wire (take total all) (drop total all)
          ∙ ap (λ xs. wire ++ xs) (take-append-drop total all),
      l,
    )
