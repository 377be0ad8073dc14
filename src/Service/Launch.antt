-- ===== src/Service/Launch.antt =====
-- The end of `skynet_context_new` in skynet_server.c, after the module's init function. `queue` is the
-- message queue of the context; what is logged is not here.
use mathlib.Core.Option
use jump.Base.{
  ℕ, ◌-◌, ◌≤◌, ◌≡◌, ◌≢◌, refl, ap, ◌∙◌, Bool, true, Option, some, List, [], ◌∷◌, ◌++◌, arith, count,
  ◌>>=◌, ==_no, if◌then◌else◌, update_self, update_ne,
}
use jump.Handle.{grab}
use jump.Mq.{MessageQueue}
use jump.Mq.Global.{IsList}
use jump.Mq.Memory.{Memory, Release, dropped, kept, enqueue, mq_release}
use jump.Mq.Owners.Steps.{enqueue_lem, at_most_one}
use jump.Service.{Node, Context, write_context, context_release, set_init, handle_retire}
use jump.Service.Step.{System, Reach}
use jump.Service.Refs.{ref_of, names_it_self}
use jump.Service.Safety.{idle, idle-Inv, Reach-Inv}

abbrev with_memory : Node → Memory → Node
with_memory n mem = record n { mem = mem }

-- For a service that is started: the flag says whether it is still there, and its queue is given to the
-- workers.
pub launched : Node → ℕ → ℕ → Option (Bool × Node)
launched n p queue = do
  (there, k) ← context_release n p
  l ← if there then set_init k p else some k
  Option.map (λ mem. (there, with_memory l mem)) (enqueue l.mem queue)

-- For a service that failed to start: its context goes, and its queue with it. The messages that are
-- dropped are part of the result.
pub failed : Node → ℕ → ℕ → Option (Release × Node)
failed n p queue = do
  c ← n.context p
  let handle = n.handle p in
      do
        (_, k) ← context_release n p
        (_, l) ← handle_retire k handle
        r ← mq_release l.mem queue
        some (r, elim r [ dropped ms ↦ l | kept mem ↦ with_memory l mem ])

-- In every history of a node that starts without services, where a context is registered and gets its
-- handle in one step, let the creator of a service have its reference and hold its queue, while the
-- handle table names the service; and let nothing come between the calls that end
-- `skynet_context_new`. Then no assertion fails and no freed context is used: the service is there, its
-- `init` is set, it has one reference less, its queue is the last one of the global queue, and neither
-- another context nor the messages of any queue change.
pub launched_lem :
    (harbor : ℕ) (r : MessageQueue) {s : System} (p : ℕ) {c : Context}
    → Reach (idle harbor r) s
    → s.node.context p ≡ some c
    → 1 ≤ count p s.refs
    → grab s.node.handle s.node.storage (s.node.handle p) ≡ some p
    → 1 ≤ count c.queue s.held
    → (n : Node) × (launched s.node p c.queue ≡ some (true, n))
      × (n.context p ≡ some (record c { ref = c.ref - 1; init = true }))
      × ((q : ℕ) → p ≢ q → n.context q ≡ s.node.context q)
      × (n.mem.ring ≡ s.node.mem.ring)
      × ((xs : List ℕ) × IsList s.node.mem.global xs × IsList n.mem.global (xs ++ c.queue ∷ []))
unfolding launched context_release set_init
launched_lem harbor r {s} p {c} reach at has named held =
    let v = Reach-Inv (idle-Inv harbor r) reach in
    let w = v.queues in
    let two : 2 ≤ c.ref = omega (arith, v.refs.counts p, ap ref_of at, names_it_self p named) in
    let less : Context = record c { ref = c.ref - 1 } in
    let done : Context = record less { init = true } in
    let k = write_context s.node p less in
    let l = write_context k p done in
    let free : count c.queue v.list ≡ 0 = omega (arith, at_most_one w c.queue) in
    let (g, run, list) = enqueue_lem s.node.mem c.queue v.list w.list free in
    let there : k.context p ≡ some less = update_self s.node.context p (some less) in
    let released : context_release s.node p ≡ some (true, k) =
      rw (at, context_release, ◌>>=◌)
        (rw (==_no c.ref 1 (λ z. absurd (omega (arith, z))), context_release) refl) in
    let set : set_init k p ≡ some l = rw (there, set_init, ◌>>=◌) refl in
    (
      with_memory l (record s.node.mem { global = g }),
      rw (released, launched, ◌>>=◌) (rw (set, launched, ◌>>=◌) (rw (run, launched) refl)),
      update_self k.context p (some done),
      λ q ne. update_ne k.context p q (some done) ne ∙ update_ne s.node.context p q (some less) ne,
      refl,
      (v.list, w.list, list),
    )
