-- ===== src/Service/Send/Deliver.antt =====
-- A message that is sent to a service of this node arrives in its queue.
use jump.Base.{
  ℕ, ◌+◌, ◌-◌, ◌≤◌, ◌<◌, ◌≡◌, ◌≢◌, refl, sym, ap, ◌∙◌, true, false, some, List, [], ◌∷◌, ◌++◌,
  arith, count, update_self, update_ne, ◌>>=◌, ◌==◌, ==_no, ==_iff, if◌then◌else◌, ltb, ◌%◌, ◌^◌,
  ◌⊎◌, count-cons_self, remove_head, at_update, subst,
}
use jump.Handle.{grab}
use jump.Mq.{Message, MessageQueue, push}
use jump.Mq.Ring.{contents}
use jump.Mq.Push.{push_refines}
use jump.Mq.Memory.{Memory}
use jump.Harbor.{message_isremote}
use jump.Mq.Owners.Fresh.{mq_push_ring}
use jump.Mq.Owners.Safety as Queues
use jump.Service.{
  Node, Context, write_context, handle_grab, context_grab, queue_push, context_release,
  context_push,
}
use jump.Service.Step.{find, drop, push as push_message, System, Reach}
use jump.Service.Queues.{queue_of}
use jump.Service.Refs.{slots-alive}
use jump.Service.Invariant.{Inv, Step-Inv}
use jump.Service.Safety.{held_alive, named_once, idle, idle-Inv, Reach-Inv}
use jump.Service.Send.{Process, Args, send, send_local, tag_size, untag, alloc_session}
use jump.Service.Send.Words.{untag-tag_size}
use jump.Service.Send.Filter.{Taken, filter_args_lem, source_lem, data_at, session_of}

-- `skynet_context_push` puts the message behind all others of the service, in its queue only.
pub context_push_delivers :
    {s : System} (h p : ℕ) (m : Message)
    → Inv s
    → grab s.node.handle s.node.storage h ≡ some p
    → (c : Context) × (n : Node) × (s.node.context p ≡ some c)
      × (context_push s.node h m ≡ some (true, n))
      × (contents (n.mem.ring c.queue) ≡ contents (s.node.mem.ring c.queue) ++ m ∷ [])
      × ((q : ℕ) → c.queue ≢ q → n.mem.ring q ≡ s.node.mem.ring q)
      × Inv (record s { node = n })
      × (n.handle ≡ s.node.handle)
      × (n.storage ≡ s.node.storage)
      × ((k : ℕ) → queue_of (n.context k) ≡ queue_of (s.node.context k))
unfolding context_push handle_grab context_grab queue_push context_release
context_push_delivers {s} h p m v named =
    let (c, at) = held_alive p v (omega (arith, named_once h p v named)) in
    let (live, fresh) = v.own.ready p c.queue (ap queue_of at) in
    let (mem, f, _) = Queues.send_lem c.queue m v.queues live fresh in
    let more = record c { ref = c.ref + 1 } in
    let k = write_context s.node p more in
    let l = record k { mem = mem } in
    let there : k.context p ≡ some more = update_self s.node.context p (some more) in
    let grabbed : handle_grab s.node h ≡ some (some p, k) =
      rw (slots-alive h v.refs, named, handle_grab) (rw (at, context_grab, ◌>>=◌) refl) in
    let pushed : queue_push k p m ≡ some l =
      rw (there, queue_push, ◌>>=◌) (rw (f, queue_push) refl) in
    let n = write_context l p (record more { ref = more.ref - 1 }) in
    let left : context_release l p ≡ some (true, n) =
      rw (there, context_release, ◌>>=◌)
        (rw
          (
            ==_no (c.ref + 1) 1 (λ z. absurd (omega (arith, z, v.refs.positive p c at))),
            context_release,
          )
          refl) in
    let ring = mq_push_ring s.node.mem c.queue m f in
    let q = s.node.mem.ring c.queue in
    let found = Step-Inv {s = s} (find h grabbed) v in
    let has : 1 ≤ count p (p ∷ s.refs) = omega (arith, count-cons_self p s.refs) in
    let ended = Step-Inv (drop p has left) (Step-Inv (push_message p m has pushed) found) in
    (
      c,
      n,
      at,
      rw (grabbed, context_push, ◌>>=◌)
          (rw (pushed, context_push, ◌>>=◌) (rw (left, context_push) refl)),
      ap (λ r. contents (r c.queue)) ring
          ∙ ap contents (update_self s.node.mem.ring c.queue (push q m).0)
          ∙ (push_refines m ((v.queues.owned c.queue).ring live)).0,
      λ r ne. ap (λ x. x r) ring ∙ update_ne s.node.mem.ring c.queue r (push q m).0 ne,
      subst (λ xs. Inv (record s { node = n; refs = xs })) (remove_head p s.refs) ended,
      refl,
      refl,
      at_update (λ k o. queue_of o ≡ queue_of (s.node.context k)) k.context p
          (some (record more { ref = more.ref - 1 })) (ap queue_of (sym at))
          (λ r ne. ap queue_of (update_ne s.node.context p r (some more) ne)),
    )

-- The message stands behind all others of the service at `p`, and no other queue is changed.
pub record Arrives (s : System) (p : ℕ) (m : Message) (n : Node) : Type 0 where
  pub queue : ℕ
  pub owner : queue_of (s.node.context p) ≡ some queue
  pub behind : contents (n.mem.ring queue) ≡ contents (s.node.mem.ring queue) ++ m ∷ []
  pub others : (q : ℕ) → queue ≢ q → n.mem.ring q ≡ s.node.mem.ring q

local_lem :
    {s : System} (v : Process) (n : Node) (source destination p : ℕ) (a : Args)
    → Taken s n
    → grab s.node.handle s.node.storage destination ≡ some p
    → (k : Node) × (send_local (record v { node = n }) source destination a
        ≡ some (a.session, record v { node = k }))
      × Arrives s p (record { source = source; session = a.session; body = a.body; sz = a.sz }) k
unfolding send_local
local_lem {s} v n source destination p a t named =
    let m : Message = record { source = source; session = a.session; body = a.body; sz = a.sz } in
    let found : grab n.handle n.storage destination ≡ some p = rw (t.handle, t.storage) named in
    let (c, k, at, run, behind, others, _, _, _, _) =
      context_push_delivers {s = record s { node = n }} destination p m t.inv found in
    (
      k,
      rw (run, send_local, ◌>>=◌) refl,
      record {
        queue = c.queue;
        owner = sym (t.queues p) ∙ ap queue_of at;
        behind = behind ∙ ap (λ (x : Memory). contents (x.ring c.queue) ++ m ∷ []) t.mem;
        others = λ q ne. others q ne ∙ ap (λ (x : Memory). x.ring q) t.mem;
      },
    )

-- In every history of a node that starts without services, let a thread that has a reference to the
-- context `ctx` send a message of less than 2^24 bytes, which are in memory, to a handle of this node
-- that names the context `p`; the session is 0 if it is to be allocated. Then `skynet_send` returns the
-- session, and one message stands behind all others in the queue of `p`, while no other queue changes.
-- It has that session, the source that was given, or else the handle of `ctx`, and the same bytes;
-- `dispatch_message` finds the low byte of the type in it, for types below 128 (else that less 256),
-- and the size.
pub send_delivers :
    (harbor : ℕ) (q : MessageQueue) {s : System} (w : Process)
    (buf rmsg ctx source destination type p : ℕ) (a : Args) {xs : List ℕ}
    → Reach (idle harbor q) s
    → 1 ≤ count ctx s.refs
    → a.sz < 2 ^ 24
    → (alloc_session type ≡ false) ⊎ (a.session ≡ 0)
    → buf ≢ 0
    → data_at w.block a.body a.sz ≡ some xs
    → grab s.node.handle s.node.storage destination ≡ some p
    → destination ≢ 0
    → message_isremote w.harbor destination ≡ false
    → (m : Message) × (v : Process) × (send
          (record w { node = s.node })
          buf
          rmsg
          ctx
          source
          destination
          type
          a
        ≡ some (m.session, v))
      × Arrives s p m v.node
      × (m.session ≡ session_of s.node ctx type a.session)
      × (m.source ≡ (if source == 0 then s.node.handle ctx else source))
      × (data_at v.block m.body a.sz ≡ some xs)
      × (untag m.sz
          ≡ (if ltb (type % 256) 128 then type % 256 else 2 ^ 32 - 256 + type % 256, a.sz))
unfolding send
send_delivers harbor q {s} w buf rmsg ctx source destination type p a r has small ok nz read named
      nd here =
    let v = Reach-Inv (idle-Inv harbor q) r in
    let f = filter_args_lem w buf ctx type a v has ok nz read in
    let from = if source == 0 then s.node.handle ctx else source in
    let b : Args = record {
      session = session_of s.node ctx type a.session;
      body = f.body;
      sz = tag_size (type % 256) a.sz;
    } in
    let (k, run, arrives) =
      local_lem (record w { block = f.block }) f.node from destination p b f.taken named in
    (
      record { source = from; session = b.session; body = b.body; sz = b.sz },
      record w { node = k; block = f.block },
      rw ((==_iff (a.sz % 2 ^ 24) a.sz).1 (omega arith), send)
          (rw (f.runs, send, ◌>>=◌)
            (rw (source_lem f.node ctx source f.taken has, send, ◌>>=◌)
              (rw (==_no destination 0 nd, here, send) run))),
      arrives,
      refl,
      refl,
      f.same,
      untag-tag_size type a.sz small,
    )
