-- ===== src/Timer/Clock.antt =====
-- skynet_updatetime: the ticks that the clock of the machine asks for.
use jump.Base.{ℕ, zero, suc, ◌-◌, ◌%◌, ◌^◌, ◌<◌, ◌≤◌, ◌≡◌, refl, arith, ℕ_discrete, ltb_no, ==_no}
use jump.Timer.{Node, Timer, timer_update, update_times, updatetime, advance}
use jump.Timer.Delay.{DueIn, due-Coming, timer_update_lem}
use jump.Timer.Wheel.{IsPlaced}
use jump.Timer.Bag.{count, count-append, pending}

-- `rounds` ticks in a row run every node that is due within them, and keep every other.
update_times_lem :
    (rounds : ℕ) (timer : Timer) (n : Node) (k : ℕ)
    → IsPlaced 1 timer
    → DueIn k timer n
    → 1 ≤ k
    → k < 2 ^ 31
    → let (out, u) = update_times rounds timer in
      (k ≤ rounds → pending timer n ≤ count n out)
      × (rounds < k
          → IsPlaced 1 u
            × DueIn (k - rounds) u n
            × (count n out ≡ 0)
            × (pending u n ≡ pending timer n))
unfolding update_times
update_times_lem zero timer n k v d p q =
    (λ h. absurd (omega arith), λ h. (v, omega arith, unfold count in refl, refl))
update_times_lem (suc rounds) timer n k v d p q =
    let clock = v.clock in
    let (v', at, _, hit, miss) =
      timer_update_lem n v (due-Coming k timer.time n.expire d clock p q) in
    let sum =
      count-append n (timer_update timer).0 (update_times rounds (timer_update timer).1).0 in
    elim (ℕ_discrete k 1) [
      | yes one ↦
          let (all_run, _) = hit (omega arith) in (λ h. omega arith, λ h. absurd (omega arith))
      | no more ↦
          let (none_now, same) = miss (omega arith) in
          let (f, g) =
            update_times_lem rounds (timer_update timer).1 n (k - 1) v' (omega arith) (omega arith)
              (omega arith) in
          (
            λ h. let r = f (omega arith) in omega arith,
            λ h. let (a, b, c, e) = g (omega arith) in (a, omega arith, omega arith, omega arith),
          )
    ]

advance-IsPlaced :
    {timer : Timer} (cp diff : ℕ) → IsPlaced 1 timer → IsPlaced 1 (advance timer cp diff)
unfolding advance
advance-IsPlaced cp diff v = record { clock = v.clock; placed = v.placed }

-- On a wheel in order, when the clock has gone on by fewer than 2^32 hundredths: a node due in `k` of
-- them, `k` positive and below 2^31, is run by `skynet_updatetime` as often at least as it was in the
-- wheel, if `k` have passed. If fewer have, it is not run and stays as often, due in the rest of them,
-- and the wheel is in order.
pub updatetime_lem :
    (timer : Timer) (cp : ℕ) (n : Node) (k : ℕ)
    → IsPlaced 1 timer
    → timer.current_point < cp
    → cp - timer.current_point < 2 ^ 32
    → DueIn k timer n
    → 1 ≤ k
    → k < 2 ^ 31
    → let (out, u) = updatetime timer cp in
      let passed = cp - timer.current_point in
      (k ≤ passed → pending timer n ≤ count n out)
      × (passed < k
          → IsPlaced 1 u
            × DueIn (k - passed) u n
            × (count n out ≡ 0)
            × (pending u n ≡ pending timer n))
unfolding updatetime advance pending
updatetime_lem timer cp n k v later short d p q =
    let diff : (cp - timer.current_point) % 2 ^ 32 ≡ cp - timer.current_point = omega arith in
    rw
      (
        ltb_no cp timer.current_point (omega arith),
        ==_no cp timer.current_point (omega arith),
        diff,
      )
      (update_times_lem (cp - timer.current_point) (advance timer cp (cp - timer.current_point)) n k
        (advance-IsPlaced cp (cp - timer.current_point) v) d p q)
