-- ===== src/Timer/Wheel.antt =====
-- The invariant of the wheel: every node stands in its slot and is still to come.
use jump.Base.{
  ℕ, ◌+◌, ◌/◌, ◌%◌, ◌^◌, ◌<◌, ◌≤◌, ◌≡◌, ◌≢◌, ◌↔◌, inl, inr, refl, ap, sym, ◌∙◌, true, false, Option,
  none, some, List, [], ◌∷◌, ◌++◌, arith, Bool-cases, some-eq, some-ne-none, ℕ_discrete,
}
use jump.Timer.{
  Node, Slot, near, level, slot_eq, Timer, slot_of, link, link_clear, add_node, timer_add,
  add_nodes, move_list, due_list, move_due, timer_shift, timer_execute,
}
use jump.Timer.Slots.{Fresh, tick, slot_of_tick, near_due, due_near}

pub slot_eq_iff : (r s : Slot) → ((slot_eq r s) ≡ true) ↔ (r ≡ s)
unfolding slot_eq
slot_eq_iff (near i) (near j) = ground arith
slot_eq_iff (near i) (level k l) = ground arith
slot_eq_iff (level i j) (near k) = ground arith
slot_eq_iff (level i j) (level k l) = ground arith

pub slot_ne : (r s : Slot) → slot_eq r s ≡ false → r ≢ s
slot_ne r s h e = cc ((slot_eq_iff r s).1 e)

abbrev pub All {ℓ} : (Node → Type ℓ) → List Node → Type ℓ
All P [] = Unit
All P (n ∷ ns) = P n × All P ns

pub All-append : (P : Node → Type 0) (xs ys : List Node) → All P xs → All P ys → All P (xs ++ ys)
All-append P [] ys a b = b
All-append P (x ∷ xs) ys a b = (a.0, All-append P xs ys a.1 b)

pub All-map :
    (P Q : Node → Type 0) (xs : List Node) → ((n : Node) → P n → Q n) → All P xs → All Q xs
All-map P Q [] f a = tt
All-map P Q (x ∷ xs) f a = (f x a.0, All-map P Q xs f a.1)

-- A time of the 32-bit clock that is still to come, by at least `b` ticks. Behind the clock's top block
-- the clock has to wrap round first.
abbrev pub Coming : ℕ → ℕ → ℕ → Type 0
Coming b time expire = (expire < 2 ^ 32) × (expire / 2 ^ 26 ≡ time / 2 ^ 26 → time + b ≤ expire)

abbrev pub Stands : ℕ → ℕ → Slot → Node → Type 0
Stands b time s n = (slot_of time n.expire ≡ s) × Coming b time n.expire

-- With `b` 0 the nodes of this tick may be there, with `b` 1 they are not.
pub record IsPlaced (b : ℕ) (timer : Timer) : Type 0 where
  pub clock : timer.time < 2 ^ 32
  pub placed : (s : Slot) → All (Stands b timer.time s) (timer.wheel s)

pub link_self :
    (wheel : Slot → List Node) (s : Slot) (n : Node) → link wheel s n s ≡ wheel s ++ n ∷ []
unfolding link
link_self wheel s n = rw ((slot_eq_iff s s).1 refl)

add_node-IsPlaced :
    {b : ℕ} {timer : Timer} (n : Node)
    → IsPlaced b timer
    → Coming b timer.time n.expire
    → IsPlaced b (add_node timer n)
unfolding add_node link
add_node-IsPlaced {b} {timer} n v c = record {
  clock = v.clock;
  placed = λ s. elim (Bool-cases (slot_eq (slot_of timer.time n.expire) s)) [
    | inl e ↦ rw e (
        All-append (Stands b timer.time s) (timer.wheel s) (n ∷ []) (v.placed s)
          (((slot_eq_iff (slot_of timer.time n.expire) s).0 e, c), tt))
    | inr e ↦ rw e (v.placed s)
  ];
}

pub time-add_nodes : (timer : Timer) (ns : List Node) → (add_nodes timer ns).time ≡ timer.time
unfolding add_nodes add_node
time-add_nodes timer [] = refl
time-add_nodes timer (n ∷ ns) = time-add_nodes (add_node timer n) ns

add_nodes-IsPlaced :
    {b : ℕ} {timer : Timer} (ns : List Node)
    → IsPlaced b timer
    → All (λ n. Coming b timer.time n.expire) ns
    → IsPlaced b (add_nodes timer ns)
unfolding add_nodes add_node
add_nodes-IsPlaced [] v c = v
add_nodes-IsPlaced {b} {timer} (n ∷ ns) v c =
    add_nodes-IsPlaced {timer = add_node timer n} ns (add_node-IsPlaced n v c.0) c.1

-- `timer_add` with a delay that is positive as an `int`
pub timer_add-IsPlaced :
    {b : ℕ} {timer : Timer} (handle session delay : ℕ)
    → b ≤ 1
    → 1 ≤ delay
    → delay < 2 ^ 31
    → IsPlaced b timer
    → IsPlaced b (timer_add timer handle session delay)
unfolding timer_add
timer_add-IsPlaced {b} {timer} handle session delay h p q v =
    let c = v.clock in add_node-IsPlaced _ v (omega arith, omega arith)

Coming-tick : (t e : ℕ) → t < 2 ^ 32 → Coming 1 t e → Coming 0 (tick t) e
Coming-tick t e c d = elim (ℕ_discrete (e / 2 ^ 26) (t / 2 ^ 26)) [
  | yes h ↦ let l = d.1 h in (d.0, λ g. omega arith)
  | no h ↦ (d.0, λ g. omega arith)
]

pub Fresh-Coming : (t e : ℕ) → Coming 1 t e → Fresh t e
Fresh-Coming t e c h = omega (arith, c.1 h)

-- After a tick, a node that is not in the list to move keeps its slot.
stays :
    (t : ℕ) (s : Slot) (n : Node)
    → t < 2 ^ 32
    → due_list (tick t) ≢ some s
    → Stands 1 t s n
    → Stands 0 (tick t) s n
stays t s n c ne st = (
  elim (slot_of_tick t n.expire c st.1.0 (Fresh-Coming t n.expire st.1)) [
    | inl same ↦ same ∙ st.0
    | inr moved ↦ absurd (ne (moved ∙ ap some st.0))
  ],
  Coming-tick t n.expire c st.1,
)

move_due-IsPlaced :
    (timer : Timer) (o : Option Slot)
    → IsPlaced 1 timer
    → due_list (tick timer.time) ≡ o
    → IsPlaced 0 (move_due (record timer { time = tick timer.time }) o)
unfolding move_due move_list link_clear
move_due-IsPlaced timer none v e = record {
  clock = omega arith;
  placed = λ s.
      All-map _ _ (timer.wheel s) (λ n. stays timer.time s n v.clock (λ f. some-ne-none f e))
        (v.placed s);
}
move_due-IsPlaced timer (some m) v e =
    add_nodes-IsPlaced (timer.wheel m)
      (record {
        clock = omega arith;
        placed = λ s. elim (Bool-cases (slot_eq m s)) [
          | inl h ↦ rw h tt
          | inr h ↦ rw h (
              All-map (Stands 1 timer.time s) (Stands 0 (tick timer.time) s) (timer.wheel s)
                (λ n. stays timer.time s n v.clock (λ f. slot_ne m s h (some-eq (sym e ∙ f))))
                (v.placed s))
        ];
      })
      (All-map (Stands 1 timer.time m) (λ n. Coming 0 (tick timer.time) n.expire) (timer.wheel m)
        (λ n st. Coming-tick timer.time n.expire v.clock st.1) (v.placed m))

-- A tick keeps the wheel in order, if the nodes of the present tick are gone.
pub timer_shift-IsPlaced : {timer : Timer} → IsPlaced 1 timer → IsPlaced 0 (timer_shift timer)
unfolding timer_shift
timer_shift-IsPlaced {timer} v = move_due-IsPlaced timer (due_list (tick timer.time)) v refl

-- After `timer_execute` the nodes of the present tick are gone.
pub timer_execute-IsPlaced : {timer : Timer} → IsPlaced 0 timer → IsPlaced 1 (timer_execute timer).1
unfolding timer_execute link_clear
timer_execute-IsPlaced {timer} v = record {
  clock = v.clock;
  placed = λ s. elim (Bool-cases (slot_eq (near (timer.time % 256)) s)) [
    | inl h ↦ rw h tt
    | inr h ↦ rw h (
        All-map (Stands 0 timer.time s) (Stands 1 timer.time s) (timer.wheel s)
          (λ n st. (st.0, later n.expire (slot_ne (near (timer.time % 256)) s h) st)) (v.placed s))
  ];
}
  where
    later :
        {s : Slot} (e : ℕ)
        → near (timer.time % 256) ≢ s
        → (slot_of timer.time e ≡ s) × Coming 0 timer.time e
        → Coming 1 timer.time e
    later e ne (at, c) = elim (ℕ_discrete e timer.time) [
      | yes q ↦ absurd (ne (sym (due_near timer.time e q) ∙ at))
      | no q ↦ (c.0, λ h. let l = c.1 h in omega arith)
    ]

-- What `timer_execute` runs is due at this tick.
pub timer_execute_due :
    {timer : Timer} {b : ℕ}
    → IsPlaced b timer
    → All (λ n. n.expire ≡ timer.time) (timer_execute timer).0
unfolding timer_execute
timer_execute_due {timer} {b} v =
    All-map (Stands b timer.time (near (timer.time % 256))) (λ n. n.expire ≡ timer.time)
      (timer.wheel (near (timer.time % 256))) (λ n st. near_due timer.time n.expire st.0)
      (v.placed (near (timer.time % 256)))
