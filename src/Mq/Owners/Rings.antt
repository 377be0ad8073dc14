-- ===== src/Mq/Owners/Rings.antt =====
-- What each call does to the ownership of its own queue.
use jump.Base.{
  ℕ, suc, ◌-◌, ◌≤◌, ◌≡◌, refl, ap, subst, sym, ◌∙◌, Bool, true, false, not, Option, none, some,
  List, [], ◌∷◌, arith, ◌==◌, if◌then◌else◌,
}
use jump.Mq.{
  Message, MessageQueue, create, push, pop, write_tail, expand_if_full, expand_queue, take_head,
  mq_length,
}
use jump.Mq.Ring.{IsValid, contents, create-IsValid, pop-IsValid, pop_refines, pop_front}
use jump.Mq.Push.{push-IsValid}
use jump.Mq.Owners.{Owned, wanted}

pub create-Owned : (q : MessageQueue) (h n : ℕ) → Owned false q n → Owned true (create h) (suc n)
unfolding create
create-Owned q h n o = record {
  times = ap suc o.times;
  flag = λ _. omega arith;
  ring = λ _. create-IsValid h;
  quiet = λ _ e. absurd (omega arith);
}

push_flags :
    (q : MessageQueue) (m : Message)
    → ((push q m).0.release ≡ q.release)
      × ((push q m).0.in_global ≡ (if q.in_global == 0 then 1 else q.in_global))
      × ((push q m).1 ≡ (q.in_global == 0))
unfolding push expand_if_full expand_queue write_tail
push_flags q m = ground arith

pub push-Owned :
    {q : MessageQueue} {n : ℕ} (m : Message)
    → Owned true q n
    → q.release ≡ 0
    → Owned true (push q m).0 (if (push q m).1 then suc n else n) × ((push q m).1 ≡ true → n ≡ 0)
push-Owned {q} {n} m o e = (
  record {
    times = ground (arith, push_flags q m, o.times);
    flag = λ t. ground (arith, push_flags q m, o.flag t);
    ring = λ _. push-IsValid m (o.ring refl);
    quiet = λ _ z. absurd (ground (arith, push_flags q m));
  },
  ground (arith, push_flags q m, o.times),
)

pub wanted-le-one : (l : Bool) (q : MessageQueue) → wanted l q ≤ 1
wanted-le-one l q = ground arith

pub wanted-live : (l : Bool) (q : MessageQueue) → 1 ≤ wanted l q → l ≡ true
wanted-live l q h = ground arith

take_head_flags :
    (q : MessageQueue)
    → ((take_head q).in_global ≡ q.in_global) × ((take_head q).release ≡ q.release)
unfolding take_head
take_head_flags q = (refl, refl)

pop-some_flags :
    (q : MessageQueue) {r : MessageQueue} {m : Message}
    → pop q ≡ (some m, r)
    → (r.in_global ≡ q.in_global) × (r.release ≡ q.release)
unfolding pop
pop-some_flags q p = ground (arith, take_head_flags q)

pop-none_flags :
    (q : MessageQueue) {r : MessageQueue}
    → pop q ≡ (none, r)
    → (r.in_global ≡ 0) × (r.release ≡ q.release)
unfolding pop
pop-none_flags q p = ground arith

popped-IsValid : (q r : MessageQueue) {o : Option Message} → pop q ≡ (o, r) → IsValid q → IsValid r
popped-IsValid q r {o} p v =
    subst IsValid (ap (λ (x : Option Message × MessageQueue). x.1) p) (pop-IsValid v)

pop-none-nil : {q r : MessageQueue} → IsValid q → pop q ≡ (none, r) → contents r ≡ []
pop-none-nil {q} {r} v p =
    front (contents q)
      (ap (λ (x : Option Message × MessageQueue). (x.0, contents x.1)) (sym p) ∙ (pop_refines v).0)
  where
    front : (ms : List Message) → (none, contents r) ≡ pop_front ms → contents r ≡ []
    front [] e = ground arith
    front (m ∷ ms) e = cc

pub pop_some-Owned :
    {l : Bool} {q r : MessageQueue} {n : ℕ} {m : Message}
    → Owned l q n
    → 1 ≤ n
    → q.release ≡ 0
    → pop q ≡ (some m, r)
    → Owned l r n
pop_some-Owned {l} {q} {r} o h e p = record {
  times = ground (arith, pop-some_flags q p, o.times);
  flag = λ t. omega (arith, pop-some_flags q p, o.flag t);
  ring = λ t. popped-IsValid q r p (o.ring t);
  quiet = λ t z. absurd (ground (arith, pop-some_flags q p, o.times));
}

pub pop_none-Owned :
    {l : Bool} {q r : MessageQueue} {n : ℕ}
    → Owned l q n
    → 1 ≤ n
    → q.release ≡ 0
    → pop q ≡ (none, r)
    → Owned l r (n - 1)
pop_none-Owned {l} {q} {r} o h e p = record {
  times = ground (arith, pop-none_flags q p, o.times);
  flag = λ t. omega (arith, pop-none_flags q p);
  ring = λ t. popped-IsValid q r p (o.ring t);
  quiet = λ t z. pop-none-nil (o.ring t) p;
}

release-IsValid : {q : MessageQueue} (n : ℕ) → IsValid q → IsValid (record q { release = n })
release-IsValid n v = ground arith

contents-release : (q : MessageQueue) (n : ℕ) → contents (record q { release = n }) ≡ contents q
unfolding mq_length
contents-release q n = refl

pub mark_release-Owned :
    {q : MessageQueue} {n : ℕ}
    → Owned true q n
    → q.release ≡ 0
    → Owned true (record q { release = 1 }) (if not (q.in_global == 1) then suc n else n)
      × (not (q.in_global == 1) ≡ true → n ≡ 0)
mark_release-Owned {q} o e = (
  record {
    times = ground (arith, o.times);
    flag = o.flag;
    ring = λ t. release-IsValid 1 (o.ring t);
    quiet = λ t z. contents-release q 1 ∙ o.quiet t z;
  },
  ground (arith, o.times),
)

pub free-Owned : {l : Bool} {q : MessageQueue} {n : ℕ} → Owned l q n → 1 ≤ n → Owned false q (n - 1)
free-Owned {l} {q} o h = record {
  times = omega (arith, wanted-le-one l q, o.times);
  flag = λ t. cc;
  ring = λ t. cc;
  quiet = λ t z. cc;
}
