-- ===== src/Timer.antt =====
-- skynet-src/skynet_timer.c: the hierarchical timer wheel. A `link_list` is the list of its nodes;
-- the arrays `near` and `t` are one function from slots, since every index is masked.
pub mod Slots
pub mod Wheel
pub mod Bag
pub mod Delay
pub mod Clock
mod Tests
use jump.Base.{
  ℕ, zero, suc, ◌+◌, ◌-◌, ◌*◌, ◌/◌, ◌%◌, ◌^◌, Bool, true, false, ◌&&◌, List, [], ◌∷◌, ◌++◌, Option,
  none, some, ltb, ◌==◌, if◌then◌else◌,
}

-- `struct timer_node` with the `struct timer_event` behind it
pub record Node : Type 0 where
  pub expire : ℕ
  pub handle : ℕ
  pub session : ℕ

-- `near[i]`, and `t[i][j]`
pub data Slot : Type 0 where
  near : ℕ → Slot
  level : ℕ → ℕ → Slot

pub slot_eq : Slot → Slot → Bool
slot_eq (near i) (near j) = i == j
slot_eq (level i j) (level k l) = (i == k) && (j == l)
slot_eq (near i) (level k l) = false
slot_eq (level i j) (near k) = false

-- `struct timer` without `lock`
pub record Timer : Type 0 where
  pub wheel : Slot → List Node
  pub time : ℕ
  pub current : ℕ
  pub starttime : ℕ
  pub current_point : ℕ
  pub origin_point : ℕ

-- `x | (2^k - 1)`
abbrev pub or_low : ℕ → ℕ → ℕ
or_low x k = x / 2 ^ k * 2 ^ k + (2 ^ k - 1)

-- The loop of `add_node` over the levels: `rounds` are left, the mask is `2^k`.
pub find_level : ℕ → ℕ → ℕ → ℕ → ℕ → ℕ
find_level zero i k time current_time = i
find_level (suc rounds) i k time current_time =
    let rest = find_level rounds (i + 1) (k + 6) time current_time in
    if or_low time k == or_low current_time k then i else rest

-- The list that `add_node` links a node to.
pub slot_of : ℕ → ℕ → Slot
unfolding find_level
slot_of current_time time =
    if or_low time 8 == or_low current_time 8
    then near (time % 256)
    else let i = find_level 3 0 14 time current_time in level i (time / 2 ^ (8 + i * 6) % 64)

-- `link`, on the wheel
pub link : (Slot → List Node) → Slot → Node → Slot → List Node
link wheel s node r = if slot_eq s r then wheel r ++ node ∷ [] else wheel r

-- `link_clear`, on the wheel; what it returns is `wheel s`.
pub link_clear : (Slot → List Node) → Slot → Slot → List Node
link_clear wheel s r = if slot_eq s r then [] else wheel r

-- `add_node`
pub add_node : Timer → Node → Timer
add_node timer node = record timer {
  wheel = link timer.wheel (slot_of timer.time node.expire) node;
}

-- The node of `timer_add`; `delay` is the `int` as a 32-bit pattern.
abbrev pub new_node : Timer → ℕ → ℕ → ℕ → Node
new_node timer handle session delay = record {
  expire = (delay + timer.time) % 2 ^ 32;
  handle = handle;
  session = session;
}

-- `timer_add`
pub timer_add : Timer → ℕ → ℕ → ℕ → Timer
timer_add timer handle session delay = add_node timer (new_node timer handle session delay)

-- The loop of `move_list`
pub add_nodes : Timer → List Node → Timer
add_nodes timer [] = timer
add_nodes timer (node ∷ nodes) = add_nodes (add_node timer node) nodes

-- `move_list`
pub move_list : Timer → Slot → Timer
move_list timer s = add_nodes (record timer { wheel = link_clear timer.wheel s }) (timer.wheel s)

-- The loop of `timer_shift`: the list to move, if the loop finds one. The mask is `2^k`; it cannot go
-- round more than four times.
pub shift_loop : ℕ → ℕ → ℕ → ℕ → ℕ → Option Slot
shift_loop zero i k time ct = none
shift_loop (suc fuel) i k time ct =
    let rest = shift_loop fuel (i + 1) (k + 6) (time / 64) ct in
    if ct % 2 ^ k == 0 then (if time % 64 == 0 then rest else some (level i (time % 64))) else none

-- The list that `timer_shift` moves at the tick `ct`.
pub due_list : ℕ → Option Slot
unfolding shift_loop
due_list ct = if ct == 0 then some (level 3 0) else shift_loop 4 0 8 (ct / 256) ct

move_due : Timer → Option Slot → Timer
move_due timer none = timer
move_due timer (some s) = move_list timer s

-- `timer_shift`
pub timer_shift : Timer → Timer
unfolding move_due
timer_shift timer =
    let ct = (timer.time + 1) % 2 ^ 32 in move_due (record timer { time = ct }) (due_list ct)

-- `timer_execute`: the nodes that are dispatched, in order. Between two rounds of its loop other
-- threads may add timers; without one the second round finds the list empty.
pub timer_execute : Timer → List Node × Timer
timer_execute timer =
    let s = near (timer.time % 256) in
    (timer.wheel s, record timer { wheel = link_clear timer.wheel s })

-- `timer_update`
pub timer_update : Timer → List Node × Timer
timer_update timer =
    let (early, t) = timer_execute timer in
    let (late, u) = timer_execute (timer_shift t) in (early ++ late, u)

-- The loop of `skynet_updatetime`: what all the rounds dispatch, in order.
pub update_times : ℕ → Timer → List Node × Timer
update_times zero timer = ([], timer)
update_times (suc rounds) timer =
    let (out, t) = timer_update timer in let (rest, u) = update_times rounds t in (out ++ rest, u)

-- The clock values that `skynet_updatetime` writes before its loop.
pub advance : Timer → ℕ → ℕ → Timer
advance timer cp diff =
    let current = (timer.current + diff) % 2 ^ 32 in
    record timer {
      current_point = cp;
      current = current;
      starttime =
          if ltb current timer.current
          then (timer.starttime + 0xffffffff / 100) % 2 ^ 32
          else timer.starttime;
    }

-- `skynet_updatetime`; `cp` is what `gettime` returns. The log line on a clock that goes back is left
-- out.
pub updatetime : Timer → ℕ → List Node × Timer
updatetime timer cp =
    if ltb cp timer.current_point
    then ([], record timer { current_point = cp })
    else if cp == timer.current_point
    then ([], timer)
    else let diff = (cp - timer.current_point) % 2 ^ 32 in update_times diff (advance timer cp diff)

-- `timer_create_timer`
abbrev pub create_timer : Timer
create_timer = record {
  wheel = λ _. [];
  time = 0;
  current = 0;
  starttime = 0;
  current_point = 0;
  origin_point = 0;
}
