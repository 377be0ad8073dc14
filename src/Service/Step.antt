-- ===== src/Service/Step.antt =====
-- Who holds references to contexts: the handle table has one for each context that it has, and the
-- threads have the others. Each step holds the lock of what it changes, or is an atomic operation.
use jump.Base.{ℕ, suc, ◌≤◌, ◌≡◌, Bool, true, false, none, some, List, ◌∷◌, count, remove, update}
use jump.Mq.{Message}
use jump.Mq.Owners as Owners
use jump.Mq.Owners.{World}
use jump.Mq.Owners.Fresh.{IsWorker}
use jump.Service.{
  Node, Context, write_context, context_new, context_release, handle_grab, handle_take, queue_push,
  set_init, context_reserve,
}

-- The node, the message queues that are allocated and those that threads hold, the contexts that are
-- allocated, the references of the threads, once for each, and how many of them
-- `skynet_context_reserve` took.
pub record System : Type 0 where
  pub node : Node
  pub live : ℕ → Bool
  pub held : List ℕ
  pub alive : List ℕ
  pub refs : List ℕ
  pub reserves : ℕ

-- The state of the queues
abbrev pub world : System → World
world s = record { mem = s.node.mem; live = s.live; held = s.held }

pub data Step (s : System) : System → Type 0 where
  -- `skynet_context_new` up to the init function, at memory that is free; the creator has a
  -- reference, and the queue. The registration and the write of the handle are one step.
  start :
      (p q : ℕ) {h : ℕ} {n : Node}
      → s.node.context p ≡ none
      → s.live q ≡ false
      → context_new s.node p q ≡ some (h, n)
      → Step s (record {
        node = n;
        live = update s.live q true;
        held = q ∷ s.held;
        alive = p ∷ s.alive;
        refs = p ∷ s.refs;
        reserves = s.reserves;
      })
  -- `skynet_context_new` writes `init` after it gave its reference back. There is such a step only
  -- where the context is still allocated.
  launch : (p : ℕ) {n : Node} → set_init s.node p ≡ some n → Step s (record s { node = n })
  -- `skynet_context_reserve`, by the holder of a reference
  reserve :
      (p : ℕ) {n : Node}
      → 1 ≤ count p s.refs
      → context_reserve s.node p ≡ some n
      → Step s (record s { node = n; refs = p ∷ s.refs; reserves = suc s.reserves })
  -- `skynet_handle_grab`
  find :
      (h : ℕ) {p : ℕ} {n : Node}
      → handle_grab s.node h ≡ some (some p, n)
      → Step s (record s { node = n; refs = p ∷ s.refs })
  -- `skynet_handle_retire` takes the context out of the table.
  unname :
      (h : ℕ) {p : ℕ} {n : Node}
      → handle_take s.node h ≡ some (some p, n)
      → Step s (record s { node = n; refs = p ∷ s.refs })
  -- `skynet_context_release` by the holder of a reference, when others are left
  drop :
      (p : ℕ) {n : Node}
      → 1 ≤ count p s.refs
      → context_release s.node p ≡ some (true, n)
      → Step s (record s { node = n; refs = remove p s.refs })
  -- The same, for the last reference
  delete :
      (p : ℕ) {n : Node}
      → 1 ≤ count p s.refs
      → context_release s.node p ≡ some (false, n)
      → Step s (record s { node = n; alive = remove p s.alive; refs = remove p s.refs })
  -- The holder of a reference pushes a message.
  push :
      (p : ℕ) (m : Message) {n : Node}
      → 1 ≤ count p s.refs
      → queue_push s.node p m ≡ some n
      → Step s (record s { node = n })
  -- The holder of a reference writes its fields but for `ref` and `queue`.
  field :
      (p : ℕ) {c : Context} (d : Context)
      → 1 ≤ count p s.refs
      → s.node.context p ≡ some c
      → d.queue ≡ c.queue
      → d.ref ≡ c.ref
      → Step s (record s { node = write_context s.node p d })
  -- A worker does something with a message queue.
  work :
      {w : World} (step : Owners.Step (world s) w)
      → IsWorker step
      → Step s (record s { node = record s.node { mem = w.mem }; live = w.live; held = w.held })

pub data Reach (s : System) : System → Type 0 where
  here : Reach s s
  next : {t u : System} → Reach s t → Step t u → Reach s u
