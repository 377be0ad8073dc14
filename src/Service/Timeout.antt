-- ===== src/Service/Timeout.antt =====
-- skynet_timer.c: `skynet_timeout`, and the messages of the timers that are due.
use mathlib.Core.Option
use jump.Base.{
  ℕ, ◌^◌, ◌≡◌, refl, sym, ap, ◌∙◌, Bool, true, false, Option, none, some, List, [], ◌∷◌, ◌++◌,
  append-nil, append_assoc, ◌>>=◌, ◌==◌, ==_no, ==_iff, if◌then◌else◌, Option-cases, inl, inr,
  ℕ_discrete, subst, Bool-cases, ◌*◌,
}
use jump.Handle.{grab}
use jump.Mq.{Message, MessageQueue}
use jump.Mq.Ring.{contents}
use jump.Timer.{Timer, timer_add}
use jump.Timer as Timers
use jump.Service.{Node, context_push}
use jump.Service.Step.{System, Reach}
use jump.Service.Queues.{queue_of}
use jump.Service.Refs.{slots-alive}
use jump.Service.Invariant.{Inv}
use jump.Service.Safety.{idle, idle-Inv, Reach-Inv}
use jump.Service.Send.{minus_one}
use jump.Service.Send.Deliver.{context_push_delivers}
use jump.Service.Send.Fail.{absent_lem}

-- The message of a timer: PTYPE_RESPONSE is 1.
abbrev pub response : ℕ → Message
response session = record { source = 0; session = session; body = 0; sz = 1 * 2 ^ 24 }

-- `dispatch_list`; the nodes are freed, and what `skynet_context_push` returns is not read.
pub dispatch_list : Node → List Timers.Node → Option Node
dispatch_list n [] = some n
dispatch_list n (t ∷ ts) = do r ← context_push n t.handle (response t.session); dispatch_list r.1 ts

-- `skynet_timeout`, with what it returns; `delay` and `session` are 32-bit patterns.
unfoldable pub timeout : Node → Timer → ℕ → ℕ → ℕ → Option (ℕ × Node × Timer)
timeout n timer handle delay session =
    if delay == 0
    then Option.map (λ r. (if r.0 then session else minus_one, r.1, timer))
        (context_push n handle (response session))
    else some (session, n, timer_add timer handle session delay)

-- The queue of the service that a handle names
abbrev pub queue_named : Node → ℕ → Option ℕ
queue_named n h = do p ← grab n.handle n.storage h; queue_of (n.context p)

-- Whether the queue found is `q`
abbrev pub is : ℕ → Option ℕ → Bool
is q none = false
is q (some r) = r == q

-- The messages that the timers have for a queue, in order
abbrev pub due : (ℕ → Option ℕ) → ℕ → List Timers.Node → List Message
due to q [] = []
due to q (t ∷ ts) =
    let rest = due to q ts in if is q (to t.handle) then response t.session ∷ rest else rest

-- One message, whether its handle names a service or not
record Pushed (n : Node) (t : Timers.Node) : Type 0 where
  node : Node
  found : Bool
  run : context_push n t.handle (response t.session) ≡ some (found, node)
  to : (h : ℕ) → queue_named node h ≡ queue_named n h
  arrives :
      (q : ℕ)
      → contents (node.mem.ring q) ≡ contents (n.mem.ring q) ++ due (queue_named n) q (t ∷ [])

due_cons :
    (to : ℕ → Option ℕ) (q : ℕ) (t : Timers.Node) (ts : List Timers.Node)
    → due to q (t ∷ ts) ≡ due to q (t ∷ []) ++ due to q ts
due_cons to q t ts = elim (Bool-cases (is q (to t.handle))) [
  | inl e ↦ rw (e, due) refl
  | inr e ↦ rw (e, due) refl
]

queue_named_same :
    (n m : Node)
    → n.handle ≡ m.handle
    → n.storage ≡ m.storage
    → ((k : ℕ) → queue_of (n.context k) ≡ queue_of (m.context k))
    → (h : ℕ) → queue_named n h ≡ queue_named m h
queue_named_same n m a b same h = elim (Option-cases (grab m.handle m.storage h)) [
  | inl e ↦ rw (a, b, e) refl
  | inr (p, e) ↦ rw (a, b, e) (same p)
]

due_same :
    {f g : ℕ → Option ℕ} (q : ℕ) (ts : List Timers.Node)
    → ((h : ℕ) → f h ≡ g h)
    → due f q ts ≡ due g q ts
due_same q [] same = refl
due_same {f} {g} q (t ∷ ts) same = rw (same t.handle) (rw (due_same {f = f} {g = g} q ts same) refl)

pushed :
    {s : System} (t : Timers.Node)
    → Inv s
    → (p : Pushed s.node t) × Inv (record s { node = p.node })
pushed {s} t v = elim (Option-cases (grab s.node.handle s.node.storage t.handle)) [
  | inl e ↦
      let none_named : queue_named s.node t.handle ≡ none = rw (e) refl in
      (
        record {
          node = s.node;
          found = false;
          run = absent_lem s.node t.handle (response t.session) (slots-alive t.handle v.refs) e;
          to = λ h. refl;
          arrives = λ q. rw (none_named, due) (sym (append-nil (contents (s.node.mem.ring q))));
        },
        v,
      )
  | inr (p, e) ↦
      let (c, n, at, run, behind, others, w, hs, st, same) =
        context_push_delivers {s = s} t.handle p (response t.session) v e in
      let named : queue_named s.node t.handle ≡ some c.queue = rw (e) (ap queue_of at) in
      (
        record {
          node = n;
          found = true;
          run = run;
          to = queue_named_same n s.node hs st same;
          arrives = λ q. elim (ℕ_discrete c.queue q) [
            | yes z ↦
                rw (named, due)
                  (rw ((==_iff c.queue q).1 z) (
                    subst
                      (λ r.
                        contents (n.mem.ring r)
                        ≡ contents (s.node.mem.ring r) ++ response t.session ∷ [])
                      z behind))
            | no ne ↦
                rw (named, due)
                  (rw (==_no c.queue q ne)
                    (ap contents (others q ne) ∙ sym (append-nil (contents (s.node.mem.ring q)))))
          ];
        },
        w,
      )
]

in_order :
    {s : System} (ts : List Timers.Node)
    → Inv s
    → (n : Node) × (dispatch_list s.node ts ≡ some n)
      × ((q : ℕ)
          → contents (n.mem.ring q) ≡ contents (s.node.mem.ring q) ++ due (queue_named s.node) q ts)
unfolding dispatch_list
in_order {s} [] v = (s.node, refl, λ q. sym (append-nil (contents (s.node.mem.ring q))))
in_order {s} (t ∷ ts) v =
    let (k, w) = pushed t v in
    let (n, run, all) = in_order {s = record s { node = k.node }} ts w in
    let to = queue_named s.node in
    (
      n,
      rw (k.run, dispatch_list, ◌>>=◌) run,
      λ q.
          let old = contents (s.node.mem.ring q) in
          all q
          ∙ ap (λ xs. contents (k.node.mem.ring q) ++ xs) (due_same q ts k.to)
          ∙ ap (λ xs. xs ++ due to q ts) (k.arrives q)
          ∙ append_assoc old (due to q (t ∷ [])) (due to q ts)
          ∙ ap (λ xs. old ++ xs) (sym (due_cons to q t ts)),
    )

-- In every history of a node that starts without services, let `dispatch_list` go through any list
-- of timers that are due. It returns, and every queue then holds what it held and behind that the
-- messages of those timers whose handles name the service of the queue, one for each and in the
-- order of the list; a timer whose handle names no service leaves nothing.
pub dispatch_list_lem :
    (harbor : ℕ) (r : MessageQueue) {s : System} (ts : List Timers.Node)
    → Reach (idle harbor r) s
    → (n : Node) × (dispatch_list s.node ts ≡ some n)
      × ((q : ℕ)
          → contents (n.mem.ring q) ≡ contents (s.node.mem.ring q) ++ due (queue_named s.node) q ts)
dispatch_list_lem harbor r ts reach = in_order ts (Reach-Inv (idle-Inv harbor r) reach)
