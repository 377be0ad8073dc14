-- ===== src/Netpack/Ring.antt =====
-- The ring of packets as a sequence: `push_data` adds at its end, `lpop` takes its first.
use native.Mathlib.Nat.{mod-eq_of_lt, mod-eq-sub-mod}
use jump.Base.{
  ℕ, zero, suc, ◌+◌, ◌-◌, ◌%◌, ◌<◌, ◌≤◌, ◌≡◌, ◌≢◌, refl, sym, ap, ap₂, ◌∙◌, List, [], ◌∷◌, ◌++◌,
  arith, Option, none, some, length, get_or, set, replicate, length-append, length-replicate,
  length-set, get_or-set_self, get_or-set_ne, leb, ◌==◌, if◌then◌else◌, Bool-cases, inl, inr,
}
use jump.Netpack.{Netpack, Queue, blank, queue_size, copy_ring, expand_queue, push_data, pop}

pub record IsRing (q : Queue) : Type 0 where
  pub len : length q.queue ≡ q.cap
  pub head : q.head < q.cap
  pub tail : q.tail < q.cap

abbrev pub count : Queue → ℕ
count q = if leb q.head q.tail then q.tail - q.head else q.tail + q.cap - q.head

-- The packets in the queue, the first one first
unfoldable pub contents : Queue → List Netpack
contents q = copy_ring q.queue q.cap q.head (count q)

abbrev slot : List Netpack → ℕ → ℕ → Netpack
slot xs cap j = get_or xs (j % cap) blank

ring_wrap : (a c : ℕ) → c ≤ a → a < c + c → a % c ≡ a - c
ring_wrap a c l u =
    omega (arith, mod-eq-sub-mod {n = a} {m = c} l, mod-eq_of_lt {n = a - c} {m = c} (omega arith))

pub length-copy_ring : (xs : List Netpack) (cap at n : ℕ) → length (copy_ring xs cap at n) ≡ n
unfolding copy_ring
length-copy_ring xs cap at zero = refl
length-copy_ring xs cap at (suc n) = ap suc (length-copy_ring xs cap (at + 1) n)

copy_ring_ext :
    (xs ys : List Netpack) (c d at bt n : ℕ)
    → ((k : ℕ) → k < n → slot xs c (at + k) ≡ slot ys d (bt + k))
    → copy_ring xs c at n ≡ copy_ring ys d bt n
unfolding copy_ring
copy_ring_ext xs ys c d at bt zero e = refl
copy_ring_ext xs ys c d at bt (suc n) e =
    ap₂ ◌∷◌ (ap (slot xs c) (omega arith) ∙ e 0 (omega arith) ∙ ap (slot ys d) (omega arith)) (
      copy_ring_ext xs ys c d (at + 1) (bt + 1) n λ k l.
        ap (slot xs c) (omega arith) ∙ e (suc k) (omega arith) ∙ ap (slot ys d) (omega arith))

copy_ring_snoc :
    (xs : List Netpack) (cap at n : ℕ)
    → copy_ring xs cap at (suc n) ≡ copy_ring xs cap at n ++ slot xs cap (at + n) ∷ []
unfolding copy_ring
copy_ring_snoc xs cap at zero = ap (λ j. slot xs cap j ∷ []) (omega arith)
copy_ring_snoc xs cap at (suc n) = ap (◌∷◌ (slot xs cap at)) (
    copy_ring_snoc xs cap (at + 1) n
    ∙ ap (λ j. copy_ring xs cap (at + 1) n ++ slot xs cap j ∷ []) (omega arith))

get_or-copy_ring :
    (xs rest : List Netpack) (cap at n k : ℕ)
    → k < n
    → get_or (copy_ring xs cap at n ++ rest) k blank ≡ slot xs cap (at + k)
unfolding copy_ring
get_or-copy_ring xs rest cap at zero k h = elim h [ ]
get_or-copy_ring xs rest cap at (suc n) zero h = ap (slot xs cap) (omega arith)
get_or-copy_ring xs rest cap at (suc n) (suc k) h =
    get_or-copy_ring xs rest cap (at + 1) n k (omega arith) ∙ ap (slot xs cap) (omega arith)

-- The place of the tail is behind the packets.
place_of_tail : {q : Queue} → IsRing q → (q.head + count q) % q.cap ≡ q.tail
place_of_tail {q} v = ground (
  arith,
  v.head,
  v.tail,
  ring_wrap (q.head + count q) q.cap,
  mod-eq_of_lt {n = q.head + count q} {m = q.cap},
)

place-ne-tail : {q : Queue} (k : ℕ) → IsRing q → k < count q → (q.head + k) % q.cap ≢ q.tail
place-ne-tail {q} k v h =
    ground (
      arith,
      v.head,
      v.tail,
      ring_wrap (q.head + k) q.cap,
      mod-eq_of_lt {n = q.head + k} {m = q.cap},
    )

-- The packets and the new one, read from the array after the write
copy_ring-set :
    {q : Queue} (x : Netpack)
    → IsRing q
    → copy_ring (set q.queue q.tail x) q.cap q.head (suc (count q)) ≡ contents q ++ x ∷ []
unfolding contents
copy_ring-set {q} x v =
    copy_ring_snoc (set q.queue q.tail x) q.cap q.head (count q)
    ∙ ap₂ (λ xs y. xs ++ y ∷ [])
        (copy_ring_ext (set q.queue q.tail x) q.queue q.cap q.cap q.head q.head (count q) λ k l.
          get_or-set_ne q.queue q.tail ((q.head + k) % q.cap) x blank
            (λ e. place-ne-tail k v l (sym e)))
        (ap (λ j. get_or (set q.queue q.tail x) j blank) (place_of_tail v)
          ∙ get_or-set_self q.queue q.tail x blank (omega (arith, v.len, v.tail)))

-- A ring whose places are all taken keeps them when it grows.
contents-expand_queue :
    (q : Queue) → contents (expand_queue q) ≡ copy_ring q.queue q.cap q.head q.cap
unfolding contents expand_queue
contents-expand_queue q =
    let all : count (expand_queue q) ≡ q.cap = unfold expand_queue in ground arith in
    ap (copy_ring (expand_queue q).queue (q.cap + queue_size) 0) all
    ∙ copy_ring_ext (expand_queue q).queue q.queue (q.cap + queue_size) q.cap 0 q.head q.cap (λ k l.
      let start : 0 + k ≡ k = omega arith in
      ap (λ j. get_or (expand_queue q).queue j blank)
        (ap (λ j. j % (q.cap + queue_size)) start ∙ mod-eq_of_lt (omega arith))
      ∙ get_or-copy_ring q.queue (replicate queue_size blank) q.cap q.head q.cap k l)

-- On a ring in order `push_data` puts the packet behind all others, whether or not the ring grows for
-- it, and the ring stays in order.
pub push_data_lem :
    {q : Queue} (fd : ℕ) (bytes : List ℕ)
    → IsRing q
    → IsRing (push_data q fd bytes)
      × (contents (push_data q fd bytes) ≡ contents q ++ record { id = fd; bytes = bytes } ∷ [])
      × ((push_data q fd bytes).hash ≡ q.hash)
unfolding push_data
push_data_lem {q} fd bytes v =
    let x : Netpack = record { id = fd; bytes = bytes } in
    let tail = if leb q.cap (q.tail + 1) then q.tail + 1 - q.cap else q.tail + 1 in
    let p : Queue = record q { tail = tail; queue = set q.queue q.tail x } in
    let w : IsRing p = record {
      len = length-set q.queue q.tail x ∙ v.len;
      head = v.head;
      tail = ground (arith, v.tail);
    } in
    elim (Bool-cases (q.head == tail)) [
      | inl e ↦
          let full : q.cap ≡ suc (count q) = ground (arith, v.head, v.tail, e) in
          rw (e, push_data)
            (
              record {
                len =
                    unfold expand_queue in
                    length-append (copy_ring p.queue q.cap q.head q.cap)
                      (replicate queue_size blank)
                    ∙ ap₂ ◌+◌ (length-copy_ring p.queue q.cap q.head q.cap)
                        (length-replicate queue_size blank);
                head = unfold expand_queue in omega (arith, v.head);
                tail = unfold expand_queue in omega arith;
              },
              contents-expand_queue p
                  ∙ ap (copy_ring p.queue q.cap q.head) full
                  ∙ copy_ring-set x v,
              unfold expand_queue in refl,
            )
      | inr e ↦
          let more : count p ≡ suc (count q) = ground (arith, v.head, v.tail, e) in
          rw (e, push_data)
            (
              w,
              unfold contents in (ap (copy_ring p.queue q.cap q.head) more ∙ copy_ring-set x v),
              refl,
            )
    ]

-- What `lpop` is to return
abbrev pub first : List Netpack → Option Netpack
first [] = none
first (x ∷ xs) = some x

abbrev pub others : List Netpack → List Netpack
others [] = []
others (x ∷ xs) = xs

-- On a ring in order `lpop` takes the first packet, if there is one, and leaves the others in a ring in
-- order.
pub pop_lem :
    {q : Queue}
    → IsRing q
    → ((pop q).0 ≡ first (contents q))
      × IsRing (pop q).1
      × (contents (pop q).1 ≡ others (contents q))
      × ((pop q).1.hash ≡ q.hash)
unfolding pop contents copy_ring
pop_lem {q} v = elim (Bool-cases (q.head == q.tail)) [
  | inl e ↦
      let none_left : count q ≡ 0 = ground (arith, e) in
      rw (e, pop) (rw none_left (refl, v, refl, refl))
  | inr e ↦
      let head = if leb q.cap (q.head + 1) then 0 else q.head + 1 in
      let p : Queue = record q { head = head } in
      let w : IsRing p = record { len = v.len; head = ground (arith, v.head); tail = v.tail } in
      let more : count q ≡ suc (count p) = ground (arith, v.head, v.tail, e) in
      let at_head : q.head % q.cap ≡ q.head = mod-eq_of_lt v.head in
      let few : count p ≤ q.cap = ground (arith, v.head, v.tail) in
      let same : copy_ring q.queue q.cap head (count p)
          ≡ copy_ring q.queue q.cap (q.head + 1) (count p) =
        copy_ring_ext q.queue q.queue q.cap q.cap head (q.head + 1) (count p) λ k l.
          ap (λ j. get_or q.queue j blank)
            (ground (
              arith,
              v.head,
              few,
              l,
              ring_wrap (q.head + 1 + k) q.cap,
              mod-eq_of_lt {n = head + k} {m = q.cap},
            )) in
      rw (e, pop) (rw more (ap (λ j. some (get_or q.queue j blank)) (sym at_head), w, same, refl))
]
