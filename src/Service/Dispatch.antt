-- ===== src/Service/Dispatch.antt =====
-- The dispatch of messages in skynet-src/skynet_server.c. The callback of a service is an argument: a
-- function of the process, the context and what it is called with; its flag says that it keeps the data.
-- The log file, the thread's handle and what `skynet_error` logs are not here.
pub mod Order
mod Tests
use mathlib.Core.Option
use jump.Base.{
  ℕ, zero, suc, ◌+◌, ◌-◌, ◌/◌, ◌^◌, Bool, true, false, List, [], ◌∷◌, Option, none, some, ◌==◌,
  if◌then◌else◌, ◌>>=◌,
}
use jump.Mq.{Message, MessageQueue, pop, overload, mq_length}
use jump.Mq.Global
use jump.Mq.Memory.{Memory, Release, dropped, kept, store, enqueue, mq_release}
use jump.Monitor.{Monitor, trigger}
use jump.Service.{Node, Context, context_release, handle_grab}
use jump.Service.Send.{Process, Args, untag, free, send}

-- What a callback is called with, but for the context
pub record Call : Type 0 where
  pub type : ℕ
  pub session : ℕ
  pub source : ℕ
  pub body : ℕ
  pub sz : ℕ

abbrev pub Callback : Type 0
Callback = Process → ℕ → Call → Option (Bool × Process)

-- The process with the queue at `q` and the memory changed
abbrev pub with_mem : Process → Memory → Process
with_mem w mem = record w { node = record w.node { mem = mem } }

abbrev pub with_queue : Process → ℕ → MessageQueue → Process
with_queue w q r = with_mem w (store w.node.mem q r)

-- What one round of the loop leaves; `len` is the length of the queue after the pop.
pub record Round : Type 0 where
  pub message : Option Message
  pub len : ℕ
  pub process : Process
  pub monitor : Monitor

-- What the loop leaves, and whether the queue ran empty
pub record Ran : Type 0 where
  pub drained : Bool
  pub process : Process
  pub monitor : Monitor

-- `n` after the first message, for the length of the queue that is left
pub rounds_of : Option ℕ → ℕ → ℕ
rounds_of none len = 1
rounds_of (some weight) len = len / 2 ^ weight

module _ (callback : Callback) where
  -- `dispatch_message`
  pub dispatch_message : Process → ℕ → Message → Option Process
  dispatch_message w p m = do
    c ← w.node.context p
    let (type, sz) = untag m.sz in
        if c.init
        then (if c.cb
            then (do
              (keep, v) ← callback w p (record {
                type = type;
                session = m.session;
                source = m.source;
                body = m.body;
                sz = sz;
              })
              if keep then some v else free v m.body)
            else none)
        else none

  -- A service without a callback drops its messages.
  pub handle_message : Process → ℕ → Message → Option Process
  handle_message w p m = do
    c ← w.node.context p
    if c.cb then dispatch_message w p m else free w m.body

  -- The body of the loop in `skynet_context_message_dispatch`
  pub round : Process → Monitor → ℕ → ℕ → ℕ → Option Round
  round w sm q p handle =
      let (o, r) = pop (w.node.mem.ring q) in
      elim o [
        | none ↦ some (record { message = none; len = 0; process = with_queue w q r; monitor = sm })
        | some m ↦ do
          v ← handle_message (with_queue w q (overload r).1) p m
          some (record {
            message = some m;
            len = mq_length r;
            process = v;
            monitor = trigger (trigger sm m.source handle) 0 0;
          })
      ]

  -- The rounds that are left
  pub rounds : ℕ → Process → Monitor → ℕ → ℕ → ℕ → Option Ran
  rounds zero w sm q p handle = some (record { drained = false; process = w; monitor = sm })
  rounds (suc n) w sm q p handle = do
    r ← round w sm q p handle
    elim r.message [
      | none ↦ some (record { drained = true; process = r.process; monitor = r.monitor })
      | some m ↦ rounds n r.process r.monitor q p handle
    ]

  -- The loop; a negative weight is `none`.
  pub run : Process → Monitor → ℕ → ℕ → ℕ → Option ℕ → Option Ran
  run w sm q p handle weight = do
    r ← round w sm q p handle
    elim r.message [
      | none ↦ some (record { drained = true; process = r.process; monitor = r.monitor })
      | some m ↦ rounds (rounds_of weight r.len - 1) r.process r.monitor q p handle
    ]

  -- `skynet_context_dispatchall`, on fuel
  pub dispatch_all : ℕ → Process → ℕ → ℕ → Option Process
  dispatch_all zero w q p = none
  dispatch_all (suc fuel) w q p =
      let (o, r) = pop (w.node.mem.ring q) in
      elim o [
        | none ↦ some (with_queue w q r)
        | some m ↦ do v ← dispatch_message (with_queue w q r) p m; dispatch_all fuel v q p
      ]

-- `drop_message`: the source gets an error. A message for another node is put at `rmsg`.
pub drop_message : Process → ℕ → ℕ → Message → Option Process
drop_message w rmsg handle m = do
  v ← free w m.body
  if handle == 0
      then none
      else Option.map (λ r. r.1)
          (send v 0 rmsg 0 handle m.source 7 (record { session = 0; body = 0; sz = 0 }))

-- The next queue, after the context is given back
pub leave : Process → ℕ → Option (Option ℕ × Process)
leave w p = do
  (_, n) ← context_release w.node p
  (o, g) ← Global.pop n.mem.global
  some (o, record w { node = record n { mem = record n.mem { global = g } } })

-- The end of `skynet_context_message_dispatch`: a worker goes on with its queue if there is no other.
pub change_queue : Process → ℕ → ℕ → Option (Option ℕ × Process)
change_queue w q p = do
  c ← w.node.context p
  (o, g) ← Global.pop w.node.mem.global
  let mem = record w.node.mem { global = g } in
      if c.queue == q
      then elim o [
        | none ↦
            Option.map (λ r. (some q, record w { node = r.1 }))
              (context_release (record w.node { mem = mem }) p)
        | some x ↦ do
          after ← enqueue mem q
          Option.map (λ r. (some x, record w { node = r.1 }))
              (context_release (record w.node { mem = after }) p)
      ]
      else none

-- The messages of a queue that is dropped; the i-th message for another node is put at `rmsg i`.
pub drop_messages : Process → (ℕ → ℕ) → ℕ → ℕ → List Message → Option Process
drop_messages w rmsg i handle [] = some w
drop_messages w rmsg i handle (m ∷ ms) = do
  v ← drop_message w (rmsg i) handle m
  drop_messages v rmsg (i + 1) handle ms

-- The queue of a service that is gone: `skynet_mq_release`, and the next queue
pub abandon : Process → (ℕ → ℕ) → ℕ → ℕ → Option (Option ℕ × Process)
abandon w rmsg q handle = do
  r ← mq_release w.node.mem q
  v ← elim r [ dropped ms ↦ drop_messages w rmsg 0 handle ms | kept mem ↦ some (with_mem w mem) ]
  (o, g) ← Global.pop v.node.mem.global
  some (o, with_mem v (record v.node.mem { global = g }))

-- `skynet_context_message_dispatch`, from a queue: the next queue, the process and the monitor
pub dispatch_queue :
    Callback → Process → Monitor → (ℕ → ℕ) → ℕ → Option ℕ → Option (Option ℕ × Process × Monitor)
dispatch_queue callback w sm rmsg q weight = do
  let handle = (w.node.mem.ring q).handle in
      do
        (o, n) ← handle_grab w.node handle
        let v = record w { node = n } in
            elim o [
              | none ↦ Option.map (λ r. (r.0, r.1, sm)) (abandon v rmsg q handle)
              | some p ↦ do
                r ← run callback v sm q p handle weight
                Option.map (λ s. (s.0, s.1, r.monitor))
                    (if r.drained then leave r.process p else change_queue r.process q p)
            ]

-- And from NULL
pub message_dispatch :
    Callback
    → Process
    → Monitor
    → (ℕ → ℕ)
    → Option ℕ
    → Option ℕ
    → Option (Option ℕ × Process × Monitor)
message_dispatch callback w sm rmsg (some q) weight = dispatch_queue callback w sm rmsg q weight
message_dispatch callback w sm rmsg none weight = do
  (o, g) ← Global.pop w.node.mem.global
  let v = with_mem w (record w.node.mem { global = g }) in
      elim o [ none ↦ some (none, v, sm) | some q ↦ dispatch_queue callback v sm rmsg q weight ]
