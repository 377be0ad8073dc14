-- ===== src/Service/Safety.antt =====
-- What the counts of references promise to whoever uses a context.
use jump.Base.{
  ◌%◌, ◌^◌, ℕ, ◌+◌, ◌≤◌, ◌≡◌, ◌≢◌, inl, inr, refl, sym, ap, ◌∙◌, Bool, true, false, Option, none,
  some, List, [], ◌∷◌, arith, length, count, count-cons_self, ◌-◌, Option-cases, ◌==◌, Bool-cases,
  ◌>>=◌,
}
use jump.Handle.{grab, init, hash}
use jump.Handle.Table.{grab_iff}
use jump.Handle.Register.{init_lem}
use jump.Handle.Names.{no_names, retire_all}
use jump.Mq.{Message, MessageQueue}
use jump.Mq.Owners as Owners
use jump.Mq.Owners.{World}
use jump.Mq.Owners.Safety as Queues
use jump.Service.{
  Node, Context, write_context, without_context, context_release, context_grab, delete_context,
  queue_push, handle_grab, handle_take, handle_retire, context_push, context_reserve, uncounted,
}
use jump.Service.Step.{System, find, unname, push, Reach, here, next}
use jump.Service.Refs.{
  ref_of, stored, present, names_it, names_it_self, names_it-none, free-Absent, slots-alive,
}
use jump.Service.Queues.{queue_of}
use jump.Service.Invariant.{Inv, Step-Inv}

-- A node before its first service; `q` is what the memory of each queue holds.
abbrev pub idle : ℕ → MessageQueue → System
idle harbor q = record {
  node = record {
    total = 0;
    storage = init harbor;
    names = no_names;
    handle = λ _. 0;
    context = λ _. none;
    mem = (Owners.empty q).mem;
  };
  live = λ _. false;
  held = [];
  alive = [];
  refs = [];
  reserves = 0;
}

pub idle-Inv : (harbor : ℕ) (q : MessageQueue) → Inv (idle harbor q)
unfolding count
idle-Inv harbor q = record {
  list = [];
  queues = Queues.empty-Inv q;
  refs = record {
    table = (init_lem (λ _. 0) harbor).0;
    counts = λ p. omega (arith, ap (λ o. names_it o p) ((init_lem (λ _. 0) harbor).1 0));
    positive = λ p c e. cc;
    living = λ p. refl;
    total = refl;
  };
  own = record { ready = λ p q e. cc; apart = λ p r q e f. cc };
}

pub Reach-Inv : {s t : System} → Inv s → Reach s t → Inv t
Reach-Inv v here = v
Reach-Inv v (next r a) = Step-Inv a (Reach-Inv v r)

-- The table has a reference to what it names.
pub named_once :
    {s : System} (h p : ℕ)
    → Inv s
    → grab s.node.handle s.node.storage h ≡ some p
    → stored s.node.handle s.node.storage p ≡ 1
named_once {s} h p v z =
    let named = ((grab_iff s.node.handle s.node.storage h p).0 z).1 in
    names_it_self p (ap (grab s.node.handle s.node.storage) named ∙ z)

-- A context with a reference somewhere is allocated.
pub held_alive :
    {s : System} (p : ℕ)
    → Inv s
    → 1 ≤ count p s.refs + stored s.node.handle s.node.storage p
    → (c : Context) × (s.node.context p ≡ some c)
held_alive {s} p v h = elim (Option-cases (s.node.context p)) [
  | inr x ↦ x
  | inl e ↦ absurd (omega (arith, v.refs.counts p, ap ref_of e))
]

-- Whoever has a reference can push a message,
push_lem :
    {s : System} (p : ℕ) (m : Message)
    → Inv s
    → 1 ≤ count p s.refs
    → (n : Node) × (queue_push s.node p m ≡ some n)
unfolding queue_push
push_lem {s} p m v h =
    let (c, at) = held_alive p v (omega arith) in
    let (live, fresh) = v.own.ready p c.queue (ap queue_of at) in
    let (mem, f, _) = Queues.send_lem c.queue m v.queues live fresh in
    (record s.node { mem = mem }, rw (at, queue_push, ◌>>=◌) (rw (f, queue_push) refl))

-- and give the reference back,
release_lem :
    {s : System} (p : ℕ)
    → Inv s
    → 1 ≤ count p s.refs
    → (r : Bool × Node) × (context_release s.node p ≡ some r)
unfolding context_release delete_context
release_lem {s} p v h =
    let (c, at) = held_alive p v (omega arith) in
    let (live, fresh) = v.own.ready p c.queue (ap queue_of at) in
    let (mem, f, _) = Queues.retire_lem c.queue v.queues live fresh in
    elim (Bool-cases (c.ref == 1)) [
      | inl y ↦ (
        (false, without_context s.node p mem),
        rw (at, context_release, ◌>>=◌) (rw (y, f, context_release, delete_context) refl),
      )
      | inr y ↦ (
        (true, write_context s.node p (record c { ref = c.ref - 1 })),
        rw (at, context_release, ◌>>=◌) (rw (y, context_release) refl),
      )
    ]

-- What the table names is allocated, so that it can be grabbed.
grab_lem : {s : System} (h : ℕ) → Inv s → (r : Option ℕ × Node) × (handle_grab s.node h ≡ some r)
unfolding handle_grab context_grab
grab_lem {s} h v = elim (Option-cases (grab s.node.handle s.node.storage h)) [
  | inl z ↦ ((none, s.node), rw (slots-alive h v.refs, z, handle_grab) refl)
  | inr (p, z) ↦
      let (c, at) = held_alive p v (omega (arith, named_once h p v z)) in
      (
        (some p, write_context s.node p (record c { ref = c.ref + 1 })),
        rw (slots-alive h v.refs, z, handle_grab) (rw (at, context_grab, ◌>>=◌) refl),
      )
]

take_lem : {s : System} (h : ℕ) → Inv s → (r : Option ℕ × Node) × (handle_take s.node h ≡ some r)
unfolding handle_take
take_lem {s} h v =
    let (o, t, names) = retire_all s.node.handle s.node.storage s.node.names h in
    ((o, record s.node { storage = t; names = names }), rw (slots-alive h v.refs, handle_take) refl)

-- `skynet_handle_retire` takes the reference of the table, and gives it back.
retire_lem : {s : System} (h : ℕ) → Inv s → (r : Bool × Node) × (handle_retire s.node h ≡ some r)
unfolding handle_retire
retire_lem {s} h v = let (x, e) = take_lem h v in go x e
  where
    go :
        (x : Option ℕ × Node)
        → handle_take s.node h ≡ some x
        → (r : Bool × Node) × (handle_retire s.node h ≡ some r)
    go (none, n) e = ((false, n), rw (e, handle_retire, ◌>>=◌) refl)
    go (some p, n) e =
        let w = Step-Inv {s = s} (unname h e) v in
        let (r, f) = release_lem p w (omega (arith, count-cons_self p s.refs)) in
        ((true, r.1), rw (e, handle_retire, ◌>>=◌) (rw (f, handle_retire) refl))

-- Whoever has a reference can reserve the context, that is, take another one that is not counted.
reserve_lem :
    {s : System} (p : ℕ)
    → Inv s
    → 1 ≤ count p s.refs
    → (n : Node) × (context_reserve s.node p ≡ some n)
unfolding context_reserve context_grab
reserve_lem {s} p v h =
    let (c, at) = held_alive p v (omega arith) in
    (
      uncounted (write_context s.node p (record c { ref = c.ref + 1 })),
      rw (at, context_reserve, context_grab, ◌>>=◌) refl,
    )

-- `skynet_context_push` finds the service, pushes and gives its reference back.
context_push_lem :
    {s : System} (h : ℕ) (m : Message)
    → Inv s
    → (r : Bool × Node) × (context_push s.node h m ≡ some r)
unfolding context_push
context_push_lem {s} h m v = let (x, e) = grab_lem h v in go x e
  where
    go :
        (x : Option ℕ × Node)
        → handle_grab s.node h ≡ some x
        → (r : Bool × Node) × (context_push s.node h m ≡ some r)
    go (none, n) e = ((false, n), rw (e, context_push, ◌>>=◌) refl)
    go (some p, n) e =
        let w = Step-Inv {s = s} (find h e) v in
        let has : 1 ≤ count p (p ∷ s.refs) = omega (arith, count-cons_self p s.refs) in
        let (l, f) = push_lem p m w has in
        let (r, g) = release_lem p (Step-Inv (push p m has f) w) has in
        (
          (true, r.1),
          rw (e, context_push, ◌>>=◌) (rw (f, context_push, ◌>>=◌) (rw (g, context_push) refl)),
        )

-- In every history of a node that starts without services, where a context is registered and gets its
-- handle in one step, these calls return: none of them reads or writes a context that is freed, or
-- fails an assertion. They are `skynet_handle_grab`, `skynet_handle_retire` and `skynet_context_push`
-- of any handle; and a push to a context, its release and `skynet_context_reserve` of it, by a thread
-- that has a reference. The write of `init` that `skynet_context_new` makes after it has given its
-- reference back is not among them: the histories have it only where the context is still there.
pub calls_find_contexts :
    (harbor : ℕ) (q : MessageQueue) {s : System} (h p : ℕ) (m : Message)
    → Reach (idle harbor q) s
    → ((r : Option ℕ × Node) × (handle_grab s.node h ≡ some r))
      × ((r : Bool × Node) × (handle_retire s.node h ≡ some r))
      × ((r : Bool × Node) × (context_push s.node h m ≡ some r))
      × (1 ≤ count p s.refs
          → ((n : Node) × (queue_push s.node p m ≡ some n))
            × ((r : Bool × Node) × (context_release s.node p ≡ some r))
            × ((n : Node) × (context_reserve s.node p ≡ some n)))
calls_find_contexts harbor q h p m r =
    let v = Reach-Inv (idle-Inv harbor q) r in
    (
      grab_lem h v,
      retire_lem h v,
      context_push_lem h m v,
      λ has. (push_lem p m v has, release_lem p v has, reserve_lem p v has),
    )

-- In every history of a node that starts without services, where a context is registered and gets its
-- handle in one step, the count in an allocated context is the number of references that threads
-- have, those that `skynet_context_reserve` took included, and one more if the handle table names it;
-- it is not 0, so that a context that nobody has is freed. A context that is not allocated has no
-- reference, and no handle names it. `G_NODE.total` and the number of calls of
-- `skynet_context_reserve` are, modulo 2^32, the number of contexts, of which `alive` has each once.
pub reference_count :
    (harbor : ℕ) (q : MessageQueue) {s : System} (p : ℕ)
    → Reach (idle harbor q) s
    → ((c : Context)
        → s.node.context p ≡ some c
        → (c.ref ≡ count p s.refs + stored s.node.handle s.node.storage p) × (1 ≤ c.ref))
      × (s.node.context p ≡ none
          → (count p s.refs ≡ 0) × ((h : ℕ) → grab s.node.handle s.node.storage h ≢ some p))
      × ((s.node.total + s.reserves) % 2 ^ 32 ≡ length s.alive % 2 ^ 32)
      × (count p s.alive ≡ present (s.node.context p))
reference_count harbor q {s} p r =
    let v = Reach-Inv (idle-Inv harbor q) r in
    (
      λ c e. (ap ref_of (sym e) ∙ v.refs.counts p, v.refs.positive p c e),
      λ e.
          let (a, _, gone) = free-Absent p v.refs e in
          (
            a,
            λ h f. gone (hash s.node.storage h) ((grab_iff s.node.handle s.node.storage h p).0 f).0,
          ),
      v.refs.total,
      v.refs.living p,
    )

none_counted : (xs : List ℕ) → ((p : ℕ) → count p xs ≡ 0) → length xs ≡ 0
unfolding count
none_counted [] h = refl
none_counted (x ∷ xs) h = absurd (omega (arith, h x, count-cons_self x xs))

-- In every history of a node that starts without services, where a context is registered and gets its
-- handle in one step, when the handle table names no context and no thread has a reference, also none
-- that `skynet_context_reserve` took, every context is freed. `skynet_context_total` is then, modulo
-- 2^32, minus the number of calls of `skynet_context_reserve`, since a context that was reserved is
-- taken off the count twice; it is 0 where there was no such call.
pub all_freed :
    (harbor : ℕ) (q : MessageQueue) {s : System}
    → Reach (idle harbor q) s
    → ((h : ℕ) → grab s.node.handle s.node.storage h ≡ none)
    → s.refs ≡ []
    → ((s.node.total + s.reserves) % 2 ^ 32 ≡ 0) × ((p : ℕ) → s.node.context p ≡ none)
unfolding count
all_freed harbor q {s} r unnamed no_refs =
    let v = Reach-Inv (idle-Inv harbor q) r in
    let gone : (p : ℕ) → s.node.context p ≡ none = λ p. elim (Option-cases (s.node.context p)) [
      | inl e ↦ e
      | inr (c, e) ↦ absurd (
          omega (
            arith,
            v.refs.positive p c e,
            v.refs.counts p,
            ap ref_of e,
            ap (count p) no_refs,
            names_it-none p (unnamed (s.node.handle p)),
          ))
    ] in
    let empty = none_counted s.alive (λ p. v.refs.living p ∙ ap present (gone p)) in
    (omega (arith, v.refs.total, empty), gone)
