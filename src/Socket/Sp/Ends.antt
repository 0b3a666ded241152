-- ===== src/Socket/Sp/Ends.antt =====
-- What `write_enable` and `free_socket` leave of the slot that they change.
use silly.Common.{
  ℕ, ◌∙◌, ◌+◌, ◌%◌, ◌^◌, ◌≡◌, refl, sym, subst, [], ◌∷◌, ◌++◌, none, some, Bool, true, false,
  if◌then◌else◌, ==_refl, ==-eq-false, ◌≢◌, Bool-cases, inl, inr,
}
use silly.Socket.State.{reserve, Manager}
use silly.Socket.Pool.{at, put, no_flags, wlist_empty, socket_default, wlist_free, pool_free}
use silly.Socket.Sp.{is_kind, same, set_state, sp_ctrl, write_enable, remove_from_sp, free_socket}

-- Sockets other than `i` are as before.
abbrev pub Others : ℕ → Manager → Manager → Type 0
Others i ss ss' = (j : ℕ) → i ≢ j → ((at ss' j) ≡ (at ss j)) × (ss'.ports j ≡ ss.ports j)

pub Others-trans : (i : ℕ) (a b c : Manager) → Others i a b → Others i b c → Others i a c
Others-trans i a b c f g j ne = let (s, p) = f j ne in let (s', p') = g j ne in (s' ∙ s, p' ∙ p)

-- The socket is as before, but for its flag.
pub record Enabled (b : Bool) (i : ℕ) (ss ss' : Manager) : Type 0 where
  pub flag : (at ss' i).state.writing ≡ b
  pub wlhead : (at ss' i).wlhead ≡ (at ss i).wlhead
  pub wloffset : (at ss' i).wloffset ≡ (at ss i).wloffset
  pub wire : (ss'.ports i).wire ≡ (ss.ports i).wire
  pub closewait : (at ss' i).state.closewait ≡ (at ss i).state.closewait
  pub kind : (at ss' i).kind ≡ (at ss i).kind
  pub dirty : (at ss' i).dirty ≡ (at ss i).dirty
  pub others : Others i ss ss'
  pub batch : ss'.dirty_sockets ≡ ss.dirty_sockets

abbrev switched : Manager → ℕ → Bool → Manager
switched ss i b = sp_ctrl (set_state ss i (λ f. record f { writing = b })) i

switched-Enabled : (b : Bool) (i : ℕ) (ss : Manager) → Enabled b i ss (switched ss i b)
unfolding sp_ctrl
switched-Enabled b i ss = record {
  flag = rw (==_refl i);
  wlhead = rw (==_refl i);
  wloffset = rw (==_refl i);
  wire = rw (==_refl i);
  closewait = rw (==_refl i);
  kind = rw (==_refl i);
  dirty = rw (==_refl i);
  others = λ j ne. rw (==-eq-false i j ne) (refl, refl);
  batch = refl;
}

unchanged-Enabled :
    (b : Bool) (i : ℕ) (ss : Manager) → (at ss i).state.writing ≡ b → Enabled b i ss ss
unchanged-Enabled b i ss e = record {
  flag = e;
  wlhead = refl;
  wloffset = refl;
  wire = refl;
  closewait = refl;
  kind = refl;
  dirty = refl;
  others = λ j ne. (refl, refl);
  batch = refl;
}

pub write_enable-Enabled : (b : Bool) (i : ℕ) (ss : Manager) → Enabled b i ss (write_enable ss i b)
unfolding write_enable
write_enable-Enabled true i ss = elim (Bool-cases (at ss i).state.writing) [
  | inl e ↦ rw e (unchanged-Enabled true i ss e)
  | inr e ↦
      subst (λ w. Enabled true i ss (if same w true then ss else switched ss i true)) (sym e)
        (switched-Enabled true i ss)
]
write_enable-Enabled false i ss = elim (Bool-cases (at ss i).state.writing) [
  | inl e ↦
      subst (λ w. Enabled false i ss (if same w false then ss else switched ss i false)) (sym e)
        (switched-Enabled false i ss)
  | inr e ↦ rw e (unchanged-Enabled false i ss e)
]

-- The slot is free with its defaults and the next version, and the bytes that were sent stand. A
-- descriptor that was polled is closed and no longer watched.
pub record Freed (i : ℕ) (ss ss' : Manager) : Type 0 where
  pub sid : (at ss' i).sid ≡ none
  pub fd : (at ss' i).fd ≡ none
  pub dirty : (at ss' i).dirty ≡ false
  pub wlbytes : (at ss' i).wlbytes ≡ 0
  pub sent_bytes : (at ss' i).sent_bytes ≡ 0
  pub received_bytes : (at ss' i).received_bytes ≡ 0
  pub closed :
      (at ss i).state.polling ≡ true
      → ((ss'.ports i).watched ≡ false)
        × ((ss'.ports i).watch_in ≡ false)
        × ((ss'.ports i).watch_out ≡ false)
        × (ss'.shut_fds ≡ ss.shut_fds ++ (at ss i).fd ∷ [])
  pub wlhead : (at ss' i).wlhead ≡ []
  pub wloffset : (at ss' i).wloffset ≡ 0
  pub kind : (at ss' i).kind ≡ reserve
  pub state : (at ss' i).state ≡ no_flags
  pub wire : (ss'.ports i).wire ≡ (ss.ports i).wire
  pub version : (at ss' i).version ≡ ((at ss i).version + 1) % 2 ^ 32
  pub free : ss'.free ≡ ss.free ++ i ∷ []
  pub others : Others i ss ss'
  pub batch : ss'.dirty_sockets ≡ ss.dirty_sockets

module _ (ss : Manager) (i : ℕ) where
  abbrev removed : Manager
  removed = remove_from_sp (wlist_free ss i) i

  abbrev defaulted : Manager
  defaulted =
      put (record removed { free = removed.free ++ i ∷ [] }) i
        (socket_default (record (at removed i) { version = ((at removed i).version + 1) % 2 ^ 32 }))

  removed-keeps :
      ((at removed i).wlhead ≡ [])
      × ((removed.ports i).wire ≡ (ss.ports i).wire)
      × ((at removed i).version ≡ (at ss i).version)
      × (removed.free ≡ ss.free)
      × (removed.dirty_sockets ≡ ss.dirty_sockets)
  unfolding remove_from_sp wlist_free
  removed-keeps = elim (Bool-cases (at ss i).state.polling) [
    | inl e ↦ rw (==_refl i, e, ==_refl i) (refl, refl, refl, refl, refl)
    | inr e ↦ rw (==_refl i, e, ==_refl i) (refl, refl, refl, refl, refl)
  ]

  removed-closed :
      (at ss i).state.polling ≡ true
      → ((removed.ports i).watched ≡ false)
        × ((removed.ports i).watch_in ≡ false)
        × ((removed.ports i).watch_out ≡ false)
        × (removed.shut_fds ≡ ss.shut_fds ++ (at ss i).fd ∷ [])
  unfolding remove_from_sp wlist_free
  removed-closed e = rw (==_refl i, e, ==_refl i) (refl, refl, refl, refl)

  removed-Others : Others i ss removed
  unfolding remove_from_sp wlist_free
  removed-Others j ne = elim (Bool-cases (at ss i).state.polling) [
    | inl e ↦ rw (==_refl i, e, ==-eq-false i j ne) (refl, refl)
    | inr e ↦ rw (==_refl i, e, ==-eq-false i j ne) (refl, refl)
  ]

  -- `free_socket` of a slot in use, with bytes to write or not, never fails: the slot goes to the end
  -- of the free list with its defaults and the next version, and what was sent stands. If its
  -- descriptor was polled, it is closed and no longer watched. No other socket changes.
  pub free_socket-Freed :
      is_kind (at ss i).kind reserve ≡ false
      → (ss' : Manager) × (free_socket ss i ≡ some ss') × Freed i ss ss'
  unfolding free_socket pool_free socket_default
  free_socket-Freed e =
      let (empty, wire, version, free, batch) = removed-keeps in
      (
        defaulted,
        rw (e, wlist_empty, empty),
        record {
          sid = rw (==_refl i);
          fd = rw (==_refl i);
          dirty = rw (==_refl i);
          wlbytes = rw (==_refl i);
          sent_bytes = rw (==_refl i);
          received_bytes = rw (==_refl i);
          closed = removed-closed;
          wlhead = rw (==_refl i);
          wloffset = rw (==_refl i);
          kind = rw (==_refl i);
          state = rw (==_refl i);
          wire = wire;
          version = rw (==_refl i, version);
          free = rw free;
          others = λ j ne. rw (==-eq-false i j ne) (removed-Others j ne);
          batch = batch;
        },
      )
