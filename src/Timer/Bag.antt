-- ===== src/Timer/Bag.antt =====
-- The wheel as a bag of nodes: what each operation adds and takes.
use jump.Base.{
  ℕ, suc, ◌+◌, ◌%◌, ◌≡◌, ◌≢◌, ◌⊎◌, inl, inr, refl, ap, sym, ◌∙◌, Bool, false, Option, none, some,
  List, [], ◌∷◌, ◌++◌, arith, ◌==◌, ◌&&◌, if◌then◌else◌, Bool-cases, some-eq,
}
use jump.Timer.{
  Node, Slot, near, slot_eq, Timer, slot_of, link, link_clear, add_node, add_nodes, move_list,
  due_list, move_due, timer_shift, timer_execute,
}
use jump.Timer.Slots.{tick, slot_of_tick, near_due, due_near}
use jump.Timer.Wheel.{All, Coming, Stands, IsPlaced, slot_eq_iff, slot_ne, Fresh-Coming}

unfoldable pub node_eq : Node → Node → Bool
node_eq m n = m.expire == n.expire && (m.handle == n.handle && m.session == n.session)

-- How often a node stands in a list.
unfoldable pub count : Node → List Node → ℕ
count n [] = 0
count n (m ∷ ms) = if node_eq m n then suc (count n ms) else count n ms

pub count-append : (n : Node) (xs ys : List Node) → count n (xs ++ ys) ≡ count n xs + count n ys
unfolding count
count-append n [] ys = omega arith
count-append n (x ∷ xs) ys = ground (arith, count-append n xs ys)

-- How often a node stands in the wheel: in the list where its time puts it.
unfoldable pub pending : Timer → Node → ℕ
pending timer n = count n (timer.wheel (slot_of timer.time n.expire))

count_none :
    (P : Node → Type 0) (n : Node) (ms : List Node)
    → ((m : Node) → P m → m.expire ≢ n.expire)
    → All P ms
    → count n ms ≡ 0
unfolding count node_eq
count_none P n [] f a = refl
count_none P n (m ∷ ms) f a = ground (arith, f m a.0, count_none P n ms f a.1)

-- A list holds no node that belongs elsewhere.
count_elsewhere :
    {b : ℕ} {timer : Timer} (n : Node) (s : Slot)
    → IsPlaced b timer
    → slot_of timer.time n.expire ≢ s
    → count n (timer.wheel s) ≡ 0
count_elsewhere {b} {timer} n s v ne =
    count_none (Stands b timer.time s) n (timer.wheel s)
      (λ m st e. ne (ap (slot_of timer.time) (sym e) ∙ st.0)) (v.placed s)

other : (m n : Node) → m.expire ≢ n.expire → node_eq m n ≡ false
unfolding node_eq
other m n ne = ground arith

pub pending-add_node :
    (timer : Timer) (m n : Node) → pending (add_node timer m) n ≡ pending timer n + count n (m ∷ [])
unfolding pending add_node link count
pending-add_node timer m n =
    elim (Bool-cases (slot_eq (slot_of timer.time m.expire) (slot_of timer.time n.expire))) [
      | inl e ↦ rw e (count-append n (timer.wheel (slot_of timer.time n.expire)) (m ∷ []))
      | inr e ↦ rw (e, other m n (λ h. slot_ne _ _ e (ap (slot_of timer.time) h))) (omega arith)
    ]

pub pending-add_nodes :
    (timer : Timer) (ms : List Node) (n : Node)
    → pending (add_nodes timer ms) n ≡ pending timer n + count n ms
unfolding add_nodes
pending-add_nodes timer [] n = unfold count in omega arith
pending-add_nodes timer (m ∷ ms) n = omega (
  arith,
  pending-add_nodes (add_node timer m) ms n,
  pending-add_node timer m n,
  count-append n (m ∷ []) ms,
)

-- Clearing one list of a wheel whose nodes `n` all stand in the list `b`.
cleared_count :
    (wheel : Slot → List Node) (n : Node) (m a b : Slot)
    → ((s : Slot) → b ≢ s → count n (wheel s) ≡ 0)
    → (a ≡ b) ⊎ (m ≡ b)
    → count n (link_clear wheel m a) + count n (wheel m) ≡ count n (wheel b)
unfolding link_clear
cleared_count wheel n m a b none_at why = elim (Bool-cases (slot_eq m a)) [
  | inl h ↦
      let at : m ≡ b = elim why [ inl e ↦ (slot_eq_iff m a).0 h ∙ e | inr e ↦ e ] in
      rw h (unfold count in omega (arith, ap (λ s. count n (wheel s)) at))
  | inr h ↦ rw h (elim why [
    | inl e ↦
        omega (arith, ap (λ s. count n (wheel s)) e, none_at m (λ q. slot_ne m a h (sym q ∙ sym e)))
    | inr e ↦ omega (arith, ap (λ s. count n (wheel s)) e, none_at a (λ q. slot_ne m a h (e ∙ q)))
  ])
]

-- The list that a tick moves is empty where it was, and all else stays.
pending-moved :
    (timer : Timer) (o : Option Slot) (n : Node)
    → IsPlaced 1 timer
    → (slot_of (tick timer.time) n.expire ≡ slot_of timer.time n.expire)
      ⊎ (o ≡ some (slot_of timer.time n.expire))
    → pending (move_due (record timer { time = tick timer.time }) o) n ≡ pending timer n
unfolding move_due move_list
pending-moved timer none n v (inl e) = unfold pending in ap (λ s. count n (timer.wheel s)) e
pending-moved timer none n v (inr e) = cc
pending-moved timer (some m) n v why =
    pending-add_nodes (record timer { wheel = link_clear timer.wheel m; time = tick timer.time })
      (timer.wheel m) n
    ∙ unfold pending in
      cleared_count timer.wheel n m (slot_of (tick timer.time) n.expire)
        (slot_of timer.time n.expire) (λ s ne. count_elsewhere n s v ne)
        (elim why [ inl e ↦ inl e | inr e ↦ inr (some-eq e) ])

-- A tick loses no node and makes none up.
pub pending-timer_shift :
    {timer : Timer} (n : Node)
    → IsPlaced 1 timer
    → Coming 1 timer.time n.expire
    → pending (timer_shift timer) n ≡ pending timer n
unfolding timer_shift
pending-timer_shift {timer} n v c =
    pending-moved timer (due_list (tick timer.time)) n v
      (slot_of_tick timer.time n.expire v.clock c.0 (Fresh-Coming timer.time n.expire c))

-- `timer_execute` takes the nodes of the present tick and leaves all others.
pub pending-timer_execute :
    {b : ℕ} {timer : Timer} (n : Node)
    → IsPlaced b timer
    → let (out, u) = timer_execute timer in
      (n.expire ≡ timer.time → (count n out ≡ pending timer n) × (pending u n ≡ 0))
      × (n.expire ≢ timer.time → (count n out ≡ 0) × (pending u n ≡ pending timer n))
unfolding timer_execute pending link_clear count
pending-timer_execute {b} {timer} n v = (
  λ e.
      let at = due_near timer.time n.expire e in
      (rw at, rw (at, (slot_eq_iff (near (timer.time % 256)) (near (timer.time % 256))).1 refl)),
  λ ne. (
    count_elsewhere n (near (timer.time % 256)) v (λ q. ne (near_due timer.time n.expire q)),
    elim (Bool-cases (slot_eq (near (timer.time % 256)) (slot_of timer.time n.expire))) [
      | inl h ↦ absurd (
          ne (
            near_due timer.time n.expire
              (sym ((slot_eq_iff (near (timer.time % 256)) (slot_of timer.time n.expire)).0 h))))
      | inr h ↦ rw h
    ],
  ),
)
