-- ===== src/Service/Dispatch/Order.antt =====
-- A worker handles the first messages of its queue, in order.
use native.Mathlib.Nat.{div-le_self}
use jump.Base.{
  ℕ, zero, suc, ◌-◌, ◌/◌, ◌^◌, ◌≤◌, ◌≡◌, refl, sym, ap, subst, ◌∙◌, true, false, Option, none, some,
  List, [], ◌∷◌, ◌++◌, append-nil, append_assoc, arith, ◌==◌, length, take, drop, update_self,
  ◌>>=◌, Bool-cases, inl, inr, map, ◌%◌, length-append, take-append, drop-append,
}
use jump.Mq.{Message, MessageQueue, pop, overload, mq_length}
use jump.Mq.Ring.{IsValid, contents, pop_front, pop_refines}
use jump.Mq.Drop.{length-contents}
use jump.Monitor.{Monitor, trigger}
use jump.Service.{Context}
use jump.Service.Send.{Process, untag}
use jump.Service.Dispatch.{
  Call, Callback, Ran, rounds_of, with_queue, dispatch_message, handle_message, round, rounds, run,
}

-- The queue is in order, and the context is started and has a callback.
pub record Works (w : Process) (q p : ℕ) : Type 0 where
  pub ring : IsValid (w.node.mem.ring q)
  pub context : Context
  pub at : w.node.context p ≡ some context
  pub cb : context.cb ≡ true
  pub init : context.init ≡ true

-- The messages of the queue
abbrev pub messages : Process → ℕ → List Message
messages w q = contents (w.node.mem.ring q)

-- A callback that takes the data over and writes down what it is called with; it may send to its own
-- service too.
abbrev pub IsCalm : {A : Type 0} → Callback → ℕ → ℕ → (Process → List A) → (Call → A) → Type 0
IsCalm callback q p written entry =
    (w : Process) (call : Call)
    → Works w q p
    → (v : Process) × (new : List Message) × (callback w p call ≡ some (true, v))
      × Works v q p
      × (messages v q ≡ messages w q ++ new)
      × (written v ≡ written w ++ entry call ∷ [])

-- What it writes stands apart from the message queues.
abbrev pub StandsApart : {A : Type 0} → (Process → List A) → Type 0
StandsApart written =
    (w : Process) (q : ℕ) (r : MessageQueue) → written (with_queue w q r) ≡ written w

-- What the callback is to be called with for a message: the type stands above the size.
abbrev pub call_of : Message → Call
call_of m = record {
  type = m.sz / 2 ^ 24 % 2 ^ 32;
  session = m.session;
  source = m.source;
  body = m.body;
  sz = m.sz % 2 ^ 24;
}

-- The reading of the overload has no part in the messages.
overload_lem :
    (q : MessageQueue) → IsValid q → IsValid (overload q).1 × (contents (overload q).1 ≡ contents q)
unfolding overload
overload_lem q v = elim (Bool-cases (q.overload == 0)) [
  | inl e ↦ rw e (v, refl)
  | inr e ↦ rw e (
    record {
      size = v.size;
      head_in = v.head_in;
      tail_in = v.tail_in;
      threshold_pos = v.threshold_pos;
    },
    unfold mq_length in refl,
  )
]

module _ {A : Type 0} (callback : Callback) (q p : ℕ) (written : Process → List A)
    (entry : Call → A) (calm : IsCalm callback q p written entry)
    (apart : StandsApart written) where
  -- One message
  handle_lem :
      (w : Process) (r : MessageQueue) (m : Message)
      → Works w q p
      → IsValid r
      → (v : Process) × (new : List Message) × (handle_message callback (with_queue w q r) p m
          ≡ some v)
        × Works v q p
        × (messages v q ≡ contents r ++ new)
        × (written v ≡ written w ++ entry (call_of m) ∷ [])
  unfolding handle_message dispatch_message untag
  handle_lem w r m k valid =
      let there = update_self w.node.mem.ring q r in
      let u : Works (with_queue w q r) q p = record {
        ring = subst IsValid (sym there) valid;
        context = k.context;
        at = k.at;
        cb = k.cb;
        init = k.init;
      } in
      let (v, new, e, after, grown, wrote) = calm (with_queue w q r) (call_of m) u in
      (
        v,
        new,
        rw (k.at, handle_message, dispatch_message, ◌>>=◌)
            (rw (k.cb, k.init, handle_message, dispatch_message) (rw (e, ◌>>=◌) refl)),
        after,
        grown ∙ ap (λ x. contents x ++ new) there,
        wrote ∙ ap (λ x. x ++ entry (call_of m) ∷ []) (apart w q r),
      )

  -- One round, when there is a message
  round_lem :
      (w : Process) (sm : Monitor) (handle : ℕ) (m : Message) (ms : List Message)
      → Works w q p
      → messages w q ≡ m ∷ ms
      → (v : Process) × (new : List Message) × (round callback w sm q p handle
          ≡ some (record {
            message = some m;
            len = length ms;
            process = v;
            monitor = trigger (trigger sm m.source handle) 0 0;
          }))
        × Works v q p
        × (messages v q ≡ ms ++ new)
        × (written v ≡ written w ++ entry (call_of m) ∷ [])
  unfolding round
  round_lem w sm handle m ms k e =
      let old = w.node.mem.ring q in
      let (front, valid) = pop_refines k.ring in
      let popped : ((pop old).0, contents (pop old).1) ≡ (some m, ms) = front ∙ ap pop_front e in
      let o = ap (λ (x : Option Message × List Message). x.0) popped in
      let left = ap (λ (x : Option Message × List Message). x.1) popped in
      let (ready, same) = overload_lem (pop old).1 valid in
      let (v, new, run, after, grown, wrote) = handle_lem w (overload (pop old).1).1 m k ready in
      let len : mq_length (pop old).1 ≡ length ms =
        sym (length-contents (pop old).1) ∙ ap length left in
      (
        v,
        new,
        rw (o, round) (rw (run, round, ◌>>=◌) (rw len refl)),
        after,
        grown ∙ ap (λ x. x ++ new) (same ∙ left),
        wrote,
      )

  written_more :
      (w v u : Process) (m : Message) (ms : List Message)
      → written v ≡ written w ++ entry (call_of m) ∷ []
      → written u ≡ written v ++ map (λ m. entry (call_of m)) ms
      → written u ≡ written w ++ map (λ m. entry (call_of m)) (m ∷ ms)
  written_more w v u m ms e f =
      let rest = map (λ m. entry (call_of m)) ms in
      f ∙ ap (λ x. x ++ rest) e ∙ append_assoc (written w) (entry (call_of m) ∷ []) rest

  -- So many messages are handled as there are rounds, when there are as many.
  rounds_lem :
      (n : ℕ) (xs : List Message) (w : Process) (sm : Monitor) (handle : ℕ)
      → Works w q p
      → messages w q ≡ xs
      → n ≤ length xs
      → (s : Ran) × (new : List Message) × (rounds callback n w sm q p handle ≡ some s)
        × (written s.process ≡ written w ++ map (λ m. entry (call_of m)) (take n xs))
        × (s.drained ≡ false)
        × Works s.process q p
        × (messages s.process q ≡ drop n xs ++ new)
  unfolding rounds
  rounds_lem zero xs w sm handle k e l = (
    record { drained = false; process = w; monitor = sm },
    [],
    refl,
    sym (append-nil (written w)),
    refl,
    k,
    e ∙ sym (append-nil xs),
  )
  rounds_lem (suc n) [] w sm handle k e l = absurd (omega arith)
  rounds_lem (suc n) (m ∷ ms) w sm handle k e l =
      let (v, grown, run_round, u, left, wrote) = round_lem w sm handle m ms k e in
      let t = trigger (trigger sm m.source handle) 0 0 in
      let calls : List Message → List A = λ ms. written v ++ map (λ m. entry (call_of m)) ms in
      let (s, new, run_rest, handled, more, x, rest) =
        rounds_lem n (ms ++ grown) v t handle u left (omega (arith, length-append ms grown)) in
      (
        s,
        grown ++ new,
        rw (run_round, rounds, ◌>>=◌) (rw (run_rest, rounds) refl),
        written_more w v s.process m (take n ms) wrote
            (handled ∙ ap calls (take-append n ms grown (omega arith))),
        more,
        x,
        rest
            ∙ ap (λ xs. xs ++ new) (drop-append n ms grown (omega arith))
            ∙ append_assoc (drop n ms) grown new,
      )

-- How many messages are handled after the first
abbrev pub further : Option ℕ → ℕ → ℕ
further none len = 0
further (some k) len = len / 2 ^ k - 1

rounds_of_lem : (weight : Option ℕ) (len : ℕ) → rounds_of weight len - 1 ≡ further weight len
unfolding rounds_of
rounds_of_lem none len = refl
rounds_of_lem (some k) len = refl

rounds_le : (weight : Option ℕ) (len : ℕ) → further weight len ≤ len
rounds_le none len = omega arith
rounds_le (some k) len = omega (arith, div-le_self len (2 ^ k))

-- Let the service at `p` be started with a callback that takes the data over, keeps the service working,
-- changes its queue by further messages at the end only, and writes down each call, apart from the
-- message queues; and let the queue have a message. Then the loop of `skynet_context_message_dispatch`
-- ends without a failed assertion, and does not find the queue empty. For a negative weight it calls the
-- callback for one message; for a weight of `k` for as many as the length of the queue after the first
-- message, divided by 2^k, but one at least. What is written down are the calls for the first messages
-- of the queue, once each and in order, with the session, the source, the data, the size below 2^24 and
-- the type above it; the other messages are left in the queue, in order, and before what was sent
-- meanwhile.
pub run_lem :
    {A : Type 0} (callback : Callback) (written : Process → List A) (entry : Call → A) (w : Process)
    (sm : Monitor) (q p handle : ℕ) (weight : Option ℕ) (m : Message) (ms : List Message)
    → IsCalm callback q p written entry
    → StandsApart written
    → Works w q p
    → messages w q ≡ m ∷ ms
    → let n = further weight (length ms) in
      (s : Ran) × (new : List Message) × (run callback w sm q p handle weight ≡ some s)
      × (written s.process ≡ written w ++ map (λ m. entry (call_of m)) (m ∷ take n ms))
      × (s.drained ≡ false)
      × Works s.process q p
      × (messages s.process q ≡ drop n ms ++ new)
unfolding run
run_lem callback written entry w sm q p handle weight m ms calm apart k e =
    let n = further weight (length ms) in
    let enough = rounds_le weight (length ms) in
    let (v, grown, run_round, u, left, wrote) =
      round_lem callback q p written entry calm apart w sm handle m ms k e in
    let t = trigger (trigger sm m.source handle) 0 0 in
    let calls = λ (xs : List Message). written v ++ map (λ m. entry (call_of m)) xs in
    let (s, new, run_rest, handled, more, x, rest) =
      rounds_lem callback q p written entry calm apart n (ms ++ grown) v t handle u left
        (omega (arith, enough, length-append ms grown)) in
    (
      s,
      grown ++ new,
      rw (run_round, run, ◌>>=◌) (rw (rounds_of_lem weight (length ms), run_rest, run) refl),
      written_more callback q p written entry calm apart w v s.process m (take n ms) wrote
          (handled ∙ ap calls (take-append n ms grown enough)),
      more,
      x,
      rest
          ∙ ap (λ xs. xs ++ new) (drop-append n ms grown enough)
          ∙ append_assoc (drop n ms) grown new,
    )
