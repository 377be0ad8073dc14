-- ===== src/Mq/Owners.antt =====
-- Who owns a message queue. Worker threads take queues from the global queue, run their messages
-- and give them back (the calls of skynet-src/skynet_server.c); any thread may push. Each call holds
-- the lock of its queue, so a history is a sequence of the steps below.
pub mod Rings
pub mod Steps
pub mod Safety
pub mod Fresh
use jump.Base.{
  ℕ, zero, suc, ◌+◌, ◌-◌, ◌≤◌, ◌≡◌, ◌≢◌, refl, sym, subst, ◌∙◌, Bool, true, false, Option, none,
  some, List, [], ◌∷◌, ◌++◌, arith, ◌==◌, if◌then◌else◌, count, remove, update, ℕ_discrete,
}
use jump.Mq.{Message, MessageQueue, create, push, pop}
use jump.Mq.Ring.{IsValid, contents}
use jump.Mq.Global
use jump.Mq.Global.{IsList}
use jump.Mq.Memory.{
  Memory, Release, dropped, kept, store, enqueue, mq_push, mark_release, mq_release,
}

-- The memory, which queues are allocated, and the queues that threads hold, once for each holder.
pub record World : Type 0 where
  pub mem : Memory
  pub live : ℕ → Bool
  pub held : List ℕ

-- No queue is allocated; `q` is what the memory of each holds.
abbrev pub empty : MessageQueue → World
empty q = record {
  mem = record { ring = λ _. q; global = Global.init };
  live = λ _. false;
  held = [];
}

pub data Step : World → World → Type 0 where
  -- `skynet_context_new` makes a queue, which it holds until the service is started.
  make :
      (w : World) (p h : ℕ)
      → w.live p ≡ false
      → Step w (record {
        mem = store w.mem p (create h);
        live = update w.live p true;
        held = p ∷ w.held;
      })
  -- `skynet_context_push` by any thread that has a reference to the service
  send :
      (w : World) (p : ℕ) (m : Message) {mem : Memory}
      → w.live p ≡ true
      → (w.mem.ring p).release ≡ 0
      → mq_push w.mem p m ≡ some mem
      → Step w (record w { mem = mem })
  -- A worker takes the first queue of the global queue.
  take :
      (w : World) {p : ℕ} {g : Global.Global}
      → Global.pop w.mem.global ≡ some (some p, g)
      → Step w (record w { mem = record { ring = w.mem.ring; global = g }; held = p ∷ w.held })
  -- The holder puts its queue back with `skynet_globalmq_push`.
  give :
      (w : World) (p : ℕ) {mem : Memory}
      → 1 ≤ count p w.held
      → enqueue w.mem p ≡ some mem
      → Step w (record w { mem = mem; held = remove p w.held })
  -- The holder, with a reference to the service, gets a message.
  next :
      (w : World) (p : ℕ) {m : Message} {q : MessageQueue}
      → 1 ≤ count p w.held
      → (w.mem.ring p).release ≡ 0
      → pop (w.mem.ring p) ≡ (some m, q)
      → Step w (record w { mem = store w.mem p q })
  -- The holder finds the queue empty, and lets go of it.
  drained :
      (w : World) (p : ℕ) {q : MessageQueue}
      → 1 ≤ count p w.held
      → (w.mem.ring p).release ≡ 0
      → pop (w.mem.ring p) ≡ (none, q)
      → Step w (record w { mem = store w.mem p q; held = remove p w.held })
  -- `delete_context`: the last reference to the service is gone.
  retire :
      (w : World) (p : ℕ) {mem : Memory}
      → w.live p ≡ true
      → mark_release w.mem p ≡ some mem
      → Step w (record w { mem = mem })
  -- The holder finds no service for its queue: `skynet_mq_release` frees the queue, or puts it back.
  discard :
      (w : World) (p : ℕ) {ms : List Message}
      → 1 ≤ count p w.held
      → mq_release w.mem p ≡ some (dropped ms)
      → Step w (record w { live = update w.live p false; held = remove p w.held })
  keep :
      (w : World) (p : ℕ) {mem : Memory}
      → 1 ≤ count p w.held
      → mq_release w.mem p ≡ some (kept mem)
      → Step w (record w { mem = mem; held = remove p w.held })

pub data Reach (w : World) : World → Type 0 where
  here : Reach w w
  step : {u v : World} → Reach w u → Step u v → Reach w v

-- How often a queue is to be in the global queue or held.
abbrev pub wanted : Bool → MessageQueue → ℕ
wanted false q = 0
wanted true q = if q.in_global == 1 then 1 else if q.release == 0 then 0 else 1

-- What holds of one queue that is in the global queue or held `n` times.
pub record Owned (live : Bool) (q : MessageQueue) (n : ℕ) : Type 0 where
  pub times : n ≡ wanted live q
  pub flag : live ≡ true → q.in_global ≤ 1
  pub ring : live ≡ true → IsValid q
  pub quiet : live ≡ true → q.in_global ≡ 0 → contents q ≡ []

pub record Inv (w : World) (xs : List ℕ) : Type 0 where
  pub list : IsList w.mem.global xs
  pub owned : (p : ℕ) → Owned (w.live p) (w.mem.ring p) (count p xs + count p w.held)

-- One queue changes, and all others stay.
pub Owned-frame :
    (p : ℕ) (l m : ℕ → Bool) (f g : ℕ → MessageQueue) (c d : ℕ → ℕ)
    → ((r : ℕ) → p ≢ r → (m r ≡ l r) × (g r ≡ f r) × (d r ≡ c r))
    → ((r : ℕ) → Owned (l r) (f r) (c r))
    → Owned (m p) (g p) (d p)
    → (r : ℕ) → Owned (m r) (g r) (d r)
Owned-frame p l m f g c d same all new r = elim (ℕ_discrete p r) [
  | yes e ↦ subst (λ x. Owned (m x) (g x) (d x)) e new
  | no ne ↦ let (a, b, e) = same r ne in rw (a, b, e) (all r)
]
