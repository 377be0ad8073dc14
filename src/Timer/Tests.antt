-- ===== src/Timer/Tests.antt =====
-- Runs of the timer wheel, and the theorems at concrete wheels.
use jump.Base.{ℕ, ◌+◌, ◌-◌, ◌<◌, ◌≤◌, ◌≡◌, ◌≢◌, refl, List, [], ◌∷◌, arith, map}
use jump.Timer.{
  Timer, new_node, create_timer, timer_add, add_node, slot_of, link, link_clear, timer_update,
  timer_shift, timer_execute, updatetime, move_due, move_list, add_nodes, due_list, slot_eq,
}
use jump.Timer.Slots.{tick}
use jump.Timer.Wheel.{All, IsPlaced, timer_add-IsPlaced}
use jump.Timer.Bag.{count, pending}
use jump.Timer.Delay.{Event, add, ticked, run, DueIn, timer_update_lem, runs_on_time}
use jump.Timer.Clock.{updatetime_lem}

create_timer-IsPlaced : IsPlaced 1 create_timer
create_timer-IsPlaced = record { clock = omega arith; placed = λ s. tt }

-- Another timer is added between the ticks.
abbrev between : List Event
between = ticked ∷ add 9 1 1 ∷ ticked ∷ []

-- The sessions that the events dispatch, in order.
sessions : ℕ → List Event → List ℕ
unfolding timer_add add_node slot_of link run timer_update timer_shift timer_execute link_clear
    slot_eq due_list move_due move_list add_nodes
sessions delay es = map (λ n. n.session) (run (timer_add create_timer 5 7 delay) es).0

runs_at_three : sessions 3 (ticked ∷ add 9 1 1 ∷ ticked ∷ ticked ∷ []) ≡ 1 ∷ 7 ∷ []
unfolding sessions
runs_at_three = refl

runs_on_time_example :
    let n = new_node create_timer 5 7 3 in
    let (before, t) = run (timer_add create_timer 5 7 3) between in
    (count n before ≡ 0)
    × (1 + pending create_timer n ≤ count n (timer_update t).0)
    × (pending (timer_update t).1 n ≡ 0)
runs_on_time_example =
    runs_on_time create_timer 5 7 3 between create_timer-IsPlaced (omega arith) (omega arith) refl

abbrev waiting : Timer
waiting = timer_add create_timer 5 7 1

waiting-IsPlaced : IsPlaced 1 waiting
waiting-IsPlaced =
    timer_add-IsPlaced 5 7 1 (omega arith) (omega arith) (omega arith) create_timer-IsPlaced

timer_update_lem_example :
    let n = new_node create_timer 5 7 1 in
    let (out, u) = timer_update waiting in
    IsPlaced 1 u
    × (u.time ≡ tick waiting.time)
    × All (λ m. m.expire ≡ tick waiting.time) out
    × (n.expire ≡ tick waiting.time → (count n out ≡ pending waiting n) × (pending u n ≡ 0))
    × (n.expire ≢ tick waiting.time → (count n out ≡ 0) × (pending u n ≡ pending waiting n))
unfolding timer_add add_node
timer_update_lem_example =
    timer_update_lem (new_node create_timer 5 7 1) waiting-IsPlaced (omega arith, λ h. omega arith)

updatetime_lem_example :
    let n = new_node create_timer 5 7 1 in
    let (out, u) = updatetime waiting 12 in
    let passed = 12 - waiting.current_point in
    (1 ≤ passed → pending waiting n ≤ count n out)
    × (passed < 1
        → IsPlaced 1 u
          × DueIn (1 - passed) u n
          × (count n out ≡ 0)
          × (pending u n ≡ pending waiting n))
unfolding timer_add add_node
updatetime_lem_example =
    updatetime_lem waiting 12 (new_node create_timer 5 7 1) 1 waiting-IsPlaced (omega arith)
      (omega arith) refl (omega arith) (omega arith)
