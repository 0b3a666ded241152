-- ===== src/Timer/Wheel/Sent.antt =====
-- The messages of src/timer.c to the worker: `expire_nodes` sends the session of each node that it
-- fires, and moves the node to its next version.
use silly.Common.{
  ℕ, ◌+◌, ◌*◌, ◌^◌, ◌≡◌, inl, inr, refl, sym, ap, ap₂, subst, ◌∙◌, List, [], ◌∷◌, ◌++◌, append-nil,
  append_assoc, In, update, ==-eq-false,
}
use native.Mathlib.Decide.{ℕ_discrete}
use silly.Timer.State.{Nodes, Timer, add32}

-- The versions after the nodes `ns` were freed one after the other.
abbrev pub bumped : (ℕ → ℕ) → List ℕ → ℕ → ℕ
bumped version [] = version
bumped version (n ∷ ns) = bumped (update version n (add32 (version n) 1)) ns

-- The sessions of the nodes `ns`, each under the version that it has when its turn comes.
abbrev pub sessions : (ℕ → ℕ) → (ℕ → ℕ) → List ℕ → List ℕ
sessions cookie version [] = []
sessions cookie version (n ∷ ns) =
    (version n * 2 ^ 32 + cookie n) ∷ sessions cookie (update version n (add32 (version n) 1)) ns

-- What the worker is sent when the nodes `ns` fire in their order.
abbrev pub messages : Timer → List ℕ → List ℕ
messages t ns = sessions t.nodes.cookie t.nodes.version ns

-- Firing `ns` sends exactly their messages.
pub record Sent (ns : List ℕ) (t t' : Timer) : Type 0 where
  pub cookies : t'.nodes.cookie ≡ t.nodes.cookie
  pub versions : t'.nodes.version ≡ bumped t.nodes.version ns
  pub appended : t'.sent ≡ t.sent ++ messages t ns

pub Sent-nil : (t : Timer) → Sent [] t t
Sent-nil t = record { cookies = refl; versions = refl; appended = sym (append-nil t.sent) }

bumped-append :
    (version : ℕ → ℕ) (ms ns : List ℕ) → bumped version (ms ++ ns) ≡ bumped (bumped version ms) ns
bumped-append version [] ns = refl
bumped-append version (m ∷ ms) ns = bumped-append (update version m (add32 (version m) 1)) ms ns

sessions-append :
    (cookie version : ℕ → ℕ) (ms ns : List ℕ)
    → sessions cookie version (ms ++ ns)
      ≡ sessions cookie version ms ++ sessions cookie (bumped version ms) ns
sessions-append cookie version [] ns = refl
sessions-append cookie version (m ∷ ms) ns =
    ap (λ (xs : List ℕ). (version m * 2 ^ 32 + cookie m) ∷ xs)
      (sessions-append cookie (update version m (add32 (version m) 1)) ms ns)

-- What is sent depends on the nodes and on what was sent before.
pub Sent-from :
    {ns : List ℕ} (t u w : Timer) → u.nodes ≡ t.nodes → u.sent ≡ t.sent → Sent ns u w → Sent ns t w
Sent-from {ns} t u w e f s = record {
  cookies = s.cookies ∙ ap (λ (q : Nodes). q.cookie) e;
  versions = s.versions ∙ ap (λ (q : Nodes). bumped q.version ns) e;
  appended = s.appended ∙ ap₂ (λ (q : Nodes) xs. xs ++ sessions q.cookie q.version ns) e f;
}

pub Sent-trans : {ms ns : List ℕ} (t u w : Timer) → Sent ms t u → Sent ns u w → Sent (ms ++ ns) t w
Sent-trans {ms} {ns} t u w p q = record {
  cookies = q.cookies ∙ p.cookies;
  versions =
      q.versions
      ∙ ap (λ (v : ℕ → ℕ). bumped v ns) p.versions
      ∙ sym (bumped-append t.nodes.version ms ns);
  appended =
      q.appended
      ∙ ap₂ (λ (c v : ℕ → ℕ). u.sent ++ sessions c v ns) p.cookies p.versions
      ∙ ap (λ (xs : List ℕ). xs ++ sessions t.nodes.cookie (bumped t.nodes.version ms) ns)
          p.appended
      ∙ append_assoc t.sent (messages t ms) (sessions t.nodes.cookie (bumped t.nodes.version ms) ns)
      ∙ ap (λ (xs : List ℕ). t.sent ++ xs)
          (sym (sessions-append t.nodes.cookie t.nodes.version ms ns));
}

-- The session that a node has before is sent when it is among those that fire.
pub sessions-In :
    (cookie version : ℕ → ℕ) (m : ℕ) (ns : List ℕ)
    → In m ns
    → In (version m * 2 ^ 32 + cookie m) (sessions cookie version ns)
sessions-In cookie version m [] h = absurd h
sessions-In cookie version m (n ∷ ns) h = elim (ℕ_discrete m n) [
  | yes e ↦ inl (ap (λ k. version k * 2 ^ 32 + cookie k) e)
  | no e ↦ inr (
      subst (λ v. In (v * 2 ^ 32 + cookie m) (sessions cookie (bump n) ns)) (kept e)
        (sessions-In cookie (bump n) m ns (later e h)))
]
  where
    bump : ℕ → ℕ → ℕ
    bump n = update version n (add32 (version n) 1)

    kept : ¬ (m ≡ n) → bump n m ≡ version m
    kept e = rw (==-eq-false n m (λ q. e (sym q)))

    later : ¬ (m ≡ n) → In m (n ∷ ns) → In m ns
    later e (inl q) = absurd (e q)
    later e (inr q) = q
