-- ===== src/Timer/Delay.antt =====
-- A timer runs exactly when it is due, whatever other timers are added meanwhile.
use jump.Base.{
  ℕ, suc, ◌+◌, ◌/◌, ◌%◌, ◌^◌, ◌<◌, ◌≤◌, ◌≡◌, ◌≢◌, refl, ap, subst, sym, ◌∙◌, Option, none, some,
  List, [], ◌∷◌, ◌++◌, arith,
}
use jump.Timer.{
  Node, Timer, new_node, timer_add, add_node, timer_shift, timer_execute, timer_update, Slot, near,
  link_clear, due_list, move_due, move_list,
}
use jump.Timer.Slots.{tick, near_due}
use jump.Timer.Wheel.{
  All, All-map, Stands, Coming, IsPlaced, timer_add-IsPlaced, timer_shift-IsPlaced,
  timer_execute-IsPlaced, timer_execute_due, time-add_nodes,
}
use jump.Timer.Bag.{
  node_eq, count, count-append, pending, pending-add_node, pending-timer_shift,
  pending-timer_execute,
}

time-timer_shift : (timer : Timer) → (timer_shift timer).time ≡ tick timer.time
unfolding timer_shift
time-timer_shift timer =
    time-move_due (record timer { time = tick timer.time }) (due_list (tick timer.time))
  where
    time-move_due : (t : Timer) (o : Option Slot) → (move_due t o).time ≡ t.time
    time-move_due t none = unfold move_due in refl
    time-move_due t (some s) =
        unfold move_due move_list in
        time-add_nodes (record t { wheel = link_clear t.wheel s }) (t.wheel s)

time-timer_execute : (timer : Timer) → (timer_execute timer).1.time ≡ timer.time
unfolding timer_execute
time-timer_execute timer = refl

nothing_due :
    (t : ℕ) (ns : List Node) → All (λ n. (n.expire ≡ t) × Coming 1 t n.expire) ns → ns ≡ []
nothing_due t [] a = refl
nothing_due t (n ∷ ns) a =
    let l = a.0.1.1 (ap (λ x. x / 2 ^ 26) a.0.0) in absurd (omega (arith, a.0.0))

-- If the wheel is in order, the first `timer_execute` of a tick finds nothing.
early_nil : {timer : Timer} → IsPlaced 1 timer → (timer_execute timer).0 ≡ []
unfolding timer_execute
early_nil {timer} v = nothing_due timer.time (timer.wheel (near (timer.time % 256))) (
    All-map (Stands 1 timer.time (near (timer.time % 256))) _
      (timer.wheel (near (timer.time % 256))) (λ n st. (near_due timer.time n.expire st.0, st.1))
      (v.placed (near (timer.time % 256))))

IsPlaced-weaken : {timer : Timer} → IsPlaced 1 timer → IsPlaced 0 timer
IsPlaced-weaken {timer} v = record {
  clock = v.clock;
  placed = λ s.
      All-map (Stands 1 timer.time s) (Stands 0 timer.time s) (timer.wheel s)
        (λ n st. (st.0, (st.1.0, λ h. let l = st.1.1 h in omega arith))) (v.placed s);
}

-- On a wheel in order, for a node that can be in it: a tick moves the time on and keeps the wheel in
-- order. It runs nodes of the new time only; if the node is due then, the tick runs it as often as it
-- was in the wheel and leaves none, and if not, the tick does not run it and keeps it as often.
pub timer_update_lem :
    {timer : Timer} (n : Node)
    → IsPlaced 1 timer
    → Coming 1 timer.time n.expire
    → let (out, u) = timer_update timer in
      IsPlaced 1 u
      × (u.time ≡ tick timer.time)
      × All (λ m. m.expire ≡ tick timer.time) out
      × (n.expire ≡ tick timer.time → (count n out ≡ pending timer n) × (pending u n ≡ 0))
      × (n.expire ≢ tick timer.time → (count n out ≡ 0) × (pending u n ≡ pending timer n))
unfolding timer_update
timer_update_lem {timer} n v c =
    let t1 = (timer_execute timer).1 in
    let v1 : IsPlaced 1 t1 = timer_execute-IsPlaced (IsPlaced-weaken v) in
    let e1 : t1.time ≡ timer.time = time-timer_execute timer in
    let p1 =
      (pending-timer_execute n v).1
        (λ e. let l = c.1 (ap (λ x. x / 2 ^ 26) e) in omega (arith, e)) in
    let v2 = timer_shift-IsPlaced v1 in
    let e2 : (timer_shift t1).time ≡ tick timer.time = time-timer_shift t1 ∙ ap tick e1 in
    let p2 = pending-timer_shift n v1 (subst (λ x. Coming 1 x n.expire) (sym e1) c) in
    let p3 = pending-timer_execute n v2 in
    rw (early_nil v) (
      timer_execute-IsPlaced v2,
      time-timer_execute (timer_shift t1) ∙ e2,
      subst (λ x. All (λ m. m.expire ≡ x) (timer_execute (timer_shift t1)).0) e2
          (timer_execute_due v2),
      λ e. let q = p3.0 (e ∙ sym e2) in (q.0 ∙ p2 ∙ p1.1, q.1),
      λ ne. let q = p3.1 (λ e. ne (e ∙ e2)) in (q.0, q.1 ∙ p2 ∙ p1.1),
    )

-- A history of the wheel: other threads add timers between the ticks.
pub data Event : Type 0 where
  add : ℕ → ℕ → ℕ → Event
  ticked : Event

-- What the ticks dispatch, in order.
unfoldable pub run : Timer → List Event → List Node × Timer
run timer [] = ([], timer)
run timer (add handle session delay ∷ es) = run (timer_add timer handle session delay) es
run timer (ticked ∷ es) =
    let (out, t) = timer_update timer in let (rest, u) = run t es in (out ++ rest, u)

abbrev pub ticks : List Event → ℕ
ticks [] = 0
ticks (add handle session delay ∷ es) = ticks es
ticks (ticked ∷ es) = suc (ticks es)

-- The delays are positive as an `int`.
abbrev pub HasDelays : List Event → Type 0
HasDelays [] = Unit {0}
HasDelays (add handle session delay ∷ es) = (1 ≤ delay) × (delay < 2 ^ 31) × HasDelays es
HasDelays (ticked ∷ es) = HasDelays es

-- The node is due in `k` ticks.
abbrev pub DueIn : ℕ → Timer → Node → Type 0
DueIn k timer n = n.expire ≡ (k + timer.time) % 2 ^ 32

pub due-Coming : (k t e : ℕ) → e ≡ (k + t) % 2 ^ 32 → t < 2 ^ 32 → 1 ≤ k → k < 2 ^ 31 → Coming 1 t e
due-Coming k t e d c p q = omega arith

pending-le-timer_add :
    (timer : Timer) (handle session delay : ℕ) (n : Node)
    → pending timer n ≤ pending (timer_add timer handle session delay) n
unfolding timer_add
pending-le-timer_add timer handle session delay n =
    omega (arith, pending-add_node timer (new_node timer handle session delay) n)

pending-timer_add :
    (timer : Timer) (handle session delay : ℕ)
    → let n = new_node timer handle session delay in
      pending (timer_add timer handle session delay) n ≡ pending timer n + 1
unfolding timer_add count node_eq
pending-timer_add timer handle session delay =
    let n = new_node timer handle session delay in ground (arith, pending-add_node timer n n)

time-timer_add :
    (timer : Timer) (handle session delay : ℕ)
    → (timer_add timer handle session delay).time ≡ timer.time
unfolding timer_add add_node
time-timer_add timer handle session delay = refl

-- Before its tick a node stays in the wheel.
pub run_waits :
    (timer : Timer) (es : List Event) (n : Node) (k : ℕ)
    → IsPlaced 1 timer
    → HasDelays es
    → DueIn (ticks es + k) timer n
    → 1 ≤ k
    → ticks es + k < 2 ^ 31
    → let (out, u) = run timer es in
      IsPlaced 1 u × DueIn k u n × (count n out ≡ 0) × (pending timer n ≤ pending u n)
unfolding run
run_waits timer [] n k v h d p q = (v, omega arith, unfold count in refl, omega arith)
run_waits timer (add handle session delay ∷ es) n k v h d p q =
    let (a, b, c, e) =
      run_waits (timer_add timer handle session delay) es n k
        (timer_add-IsPlaced handle session delay (omega arith) h.0 h.1 v) h.2 (rw time-timer_add d)
        p q in
    (a, b, c, omega (arith, pending-le-timer_add timer handle session delay n))
run_waits timer (ticked ∷ es) n k v h d p q =
    let clock = v.clock in
    let c = due-Coming (suc (ticks es) + k) timer.time n.expire d clock (omega arith) q in
    let (v', at, _, _, miss) = timer_update_lem n v c in
    let (none_now, same) = miss (omega arith) in
    let (a, b, e, f) = run_waits (timer_update timer).1 es n k v' h (omega arith) p (omega arith) in
    (
      a,
      b,
      omega (arith, count-append n (timer_update timer).0 (run (timer_update timer).1 es).0),
      omega arith,
    )

-- A timer that is added to a wheel in order with a delay `d` below 2^31 is not run by the first `d - 1`
-- ticks, whatever timers with delays in that range are added between them. The next tick runs it, as
-- often as a node like it was in the wheel and once more at least, and leaves none.
pub runs_on_time :
    (timer : Timer) (handle session d : ℕ) (es : List Event)
    → IsPlaced 1 timer
    → d < 2 ^ 31
    → HasDelays es
    → ticks es + 1 ≡ d
    → let n = new_node timer handle session d in
      let (before, t) = run (timer_add timer handle session d) es in
      (count n before ≡ 0)
      × (1 + pending timer n ≤ count n (timer_update t).0)
      × (pending (timer_update t).1 n ≡ 0)
runs_on_time timer handle session d es v q h e =
    let n = new_node timer handle session d in
    let t = timer_add timer handle session d in
    let v' = timer_add-IsPlaced handle session d (omega arith) (omega arith) q v in
    let (a, b, c, f) =
      run_waits t es n 1 v' h (rw (time-timer_add timer handle session d, e) refl) (omega arith)
        (omega arith) in
    let w = (run t es).1 in
    let clock = a.clock in
    let (_, _, _, hit, _) =
      timer_update_lem n a (due-Coming 1 w.time n.expire b clock (omega arith) (omega arith)) in
    let (all_run, gone) = hit (omega arith) in
    (c, omega (arith, pending-timer_add timer handle session d), gone)
