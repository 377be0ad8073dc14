-- ===== src/Service.antt =====
-- skynet-src/skynet_server.c: contexts and their references, sending, and the dispatch of messages.
-- A context is named by its pointer. The module, its instance, the log file and the buffer `result`
-- are not here.
pub mod Step
pub mod Refs
pub mod Queues
pub mod Calls
pub mod Invariant
pub mod Safety
pub mod Send
pub mod Address
pub mod Dispatch
pub mod Timeout
pub mod Launch
pub mod Tests
use mathlib.Core.Option
use jump.Base.{
  ℕ, zero, suc, ◌+◌, ◌-◌, ◌*◌, ◌/◌, ◌%◌, ◌^◌, Bool, true, false, ◌||◌, List, [], ◌∷◌, Option, none,
  some, ltb, leb, ◌==◌, if◌then◌else◌, ◌>>=◌, update,
}
use jump.Mq.{Message, create}
use jump.Mq.Memory.{Memory, store, mq_push, mark_release}
use jump.Handle.{Storage, register, grab, slot_at, hash}
use jump.Handle.Names.{Names, retire_all}

-- `struct skynet_context` but for `handle`; `cb` says whether a callback is set. `session_id` is an
-- `int` as a 32-bit pattern.
pub record Context : Type 0 where
  pub queue : ℕ
  pub cb : Bool
  pub session_id : ℕ
  pub ref : ℕ
  pub init : Bool
  pub endless : Bool

-- `G_NODE`, the handle storage and the memory. `context` is `none` at a pointer that is not
-- allocated; `handle` is the field `handle` of each context.
pub record Node : Type 0 where
  pub total : ℕ
  pub storage : Storage
  pub names : Names
  pub handle : ℕ → ℕ
  pub context : ℕ → Option Context
  pub mem : Memory

-- What `skynet_context_new` writes to a new context
abbrev pub new_context : ℕ → Context
new_context queue = record {
  queue = queue;
  cb = false;
  session_id = 0;
  ref = 2;
  init = false;
  endless = false;
}

-- `context_dec`: the count is an `int`, as a 32-bit pattern.
abbrev pub less_one : ℕ → ℕ
less_one total = (total + (2 ^ 32 - 1)) % 2 ^ 32

-- The node with the context at `ctx` and the queue at `queue`, which has the handle of `r`.
abbrev pub with_context : Node → ℕ → ℕ → ℕ × Storage → Node
with_context n ctx queue r = record n {
  total = (n.total + 1) % 2 ^ 32;
  storage = r.1;
  handle = update n.handle ctx r.0;
  context = update n.context ctx (some (new_context queue));
  mem = store n.mem queue (create r.0);
}

-- `skynet_context_new` up to the call of the module's init function: the context at `ctx` with the
-- message queue at `queue`, both of them new. The result is its handle. The handle is written to the
-- context together with its registration here, though the source does so after the lock of the table.
pub context_new : Node → ℕ → ℕ → Option (ℕ × Node)
context_new n ctx queue =
    Option.map (λ r. (r.0, with_context n ctx queue r)) (register n.handle n.storage ctx)

-- A write to the context at a pointer; `none` is an access to freed memory.
abbrev pub write_context : Node → ℕ → Context → Node
write_context n p c = record n { context = update n.context p (some c) }

-- `skynet_context_grab`
pub context_grab : Node → ℕ → Option Node
context_grab n p = do c ← n.context p; some (write_context n p (record c { ref = c.ref + 1 }))

-- What `skynet_context_new` does after it has given its reference back to a service that is started: it
-- writes `init`, and finds the context only if another reference is left.
pub set_init : Node → ℕ → Option Node
set_init n p = do c ← n.context p; some (write_context n p (record c { init = true }))

-- The node with one context less in `G_NODE.total`
abbrev pub uncounted : Node → Node
uncounted n = record n { total = less_one n.total }

-- `skynet_context_reserve`
pub context_reserve : Node → ℕ → Option Node
context_reserve n p = Option.map uncounted (context_grab n p)

-- The node when the context is freed, and its queue marked.
abbrev pub without_context : Node → ℕ → Memory → Node
without_context n p mem = record n {
  total = less_one n.total;
  context = update n.context p none;
  mem = mem;
}

-- `delete_context`; the queue lives on.
pub delete_context : Node → ℕ → Context → Option Node
delete_context n p c = Option.map (without_context n p) (mark_release n.mem c.queue)

-- `skynet_context_release`: the flag says whether the context is still there.
pub context_release : Node → ℕ → Option (Bool × Node)
context_release n p = do
  c ← n.context p
  elim (c.ref == 1) [
    | true ↦ Option.map (λ m. (false, m)) (delete_context n p c)
    | false ↦ some (true, write_context n p (record c { ref = c.ref - 1 }))
  ]

-- Whether the context in the slot of a handle is allocated, so that its `handle` can be read
pub slot_alive : Node → ℕ → Bool
slot_alive n h = elim (slot_at n.storage.slot (hash n.storage h)) [
  | none ↦ true
  | some p ↦ elim (n.context p) [ none ↦ false | some c ↦ true ]
]

-- `skynet_handle_grab`, which takes a reference under the lock of the table
pub handle_grab : Node → ℕ → Option (Option ℕ × Node)
handle_grab n h =
    if slot_alive n h
    then elim (grab n.handle n.storage h) [
      | none ↦ some (none, n)
      | some p ↦ Option.map (λ m. (some p, m)) (context_grab n p)
    ]
    else none

-- `skynet_handle_retire` under its lock: the reference of the table goes to the caller.
pub handle_take : Node → ℕ → Option (Option ℕ × Node)
handle_take n h =
    let (o, s, names) = retire_all n.handle n.storage n.names h in
    if slot_alive n h then some (o, record n { storage = s; names = names }) else none

-- `skynet_handle_retire`
pub handle_retire : Node → ℕ → Option (Bool × Node)
handle_retire n h = do
  (o, m) ← handle_take n h
  elim o [ none ↦ some (false, m) | some p ↦ Option.map (λ r. (true, r.1)) (context_release m p) ]

-- The call of `skynet_mq_push` in `skynet_context_push`
pub queue_push : Node → ℕ → Message → Option Node
queue_push n p m = do
  c ← n.context p
  Option.map (λ mem. record n { mem = mem }) (mq_push n.mem c.queue m)

-- `skynet_context_push`: the flag says that the service was there (0, and not -1).
pub context_push : Node → ℕ → Message → Option (Bool × Node)
context_push n h m = do
  (o, k) ← handle_grab n h
  elim o [
    | none ↦ some (false, k)
    | some p ↦ do l ← queue_push k p m; Option.map (λ r. (true, r.1)) (context_release l p)
  ]

-- `skynet_context_newsession`
pub context_newsession : Context → ℕ × Context
context_newsession c =
    let session = (c.session_id + 1) % 2 ^ 32 in
    if leb (2 ^ 31) session || session == 0
    then (1, record c { session_id = 1 })
    else (session, record c { session_id = session })
