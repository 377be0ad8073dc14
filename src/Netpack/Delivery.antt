-- ===== src/Netpack/Delivery.antt =====
-- The data of many sockets in a row. Lua takes what it is handed, and all packets of the queue after
-- "more" (lualib/snax/gateserver.lua).
use mathlib.Core.Option
use jump.Base.{
  ℕ, zero, suc, ◌+◌, ◌<◌, ◌≡◌, ◌≢◌, refl, ap, sym, subst, ◌∙◌, List, [], ◌∷◌, ◌++◌, arith, true,
  append-nil, append_assoc, Option, none, some, length, ◌==◌, ==_iff, ==_no, if◌then◌else◌,
  Bool-cases, Option-cases, inl, inr, ◌>>=◌, ltb, ◌*◌, ◌/◌, ◌%◌, ◌^◌, ℕ_discrete,
}
use jump.Netpack.{
  Netpack, Uncomplete, Queue, Message, nothing, packet, more, filter_data, pop, hash_fd,
}
use jump.Netpack.Ring.{IsRing, contents, count, first, others, pop_lem, length-copy_ring}
use jump.Netpack.Chain.{waiting, Partial, IsChain, pending_in, pending, IsTable}
use jump.Netpack.Frames.{
  Split, split, frames, frames_cons, all_rest, packets_first, frames-append, IsBytes,
}
use jump.Netpack.Filter.{IsValid, Cuts, packs}
use jump.Netpack.Stream.{report, queued, Filters, filter_data_lem}

-- `lpop` until it returns nothing; the count of the packets is enough fuel.
pub pop_all : ℕ → Queue → List Netpack × Queue
pop_all zero q = ([], q)
pop_all (suc fuel) q =
    let (o, r) = pop q in
    let (xs, s) = pop_all fuel r in elim o [ none ↦ ([], r) | some x ↦ (x ∷ xs, s) ]

pub deliver : Message → Queue → List Netpack × Queue
deliver nothing q = ([], q)
deliver (packet fd bytes) q = (record { id = fd; bytes = bytes } ∷ [], q)
deliver more q = pop_all (count q) q
deliver _ q = ([], q)

-- What Lua gets when bytes come for descriptors, in order
pub deliver_all : Queue → List (ℕ × List ℕ) → Option (List Netpack × Queue)
deliver_all q [] = some ([], q)
deliver_all q ((fd, bytes) ∷ events) = do
  (m, p) ← filter_data q fd bytes
  let (xs, r) = deliver m p in Option.map (λ o. (xs ++ o.0, o.1)) (deliver_all r events)

-- The stream of a descriptor
pub bytes_of : ℕ → List (ℕ × List ℕ) → List ℕ
bytes_of fd [] = []
bytes_of fd ((g, bytes) ∷ events) =
    if g == fd then bytes ++ bytes_of fd events else bytes_of fd events

-- The packets of a descriptor
pub packets_of : ℕ → List Netpack → List (List ℕ)
packets_of fd [] = []
packets_of fd (x ∷ xs) = if x.id == fd then x.bytes ∷ packets_of fd xs else packets_of fd xs

-- Sockets give no empty data.
abbrev pub AreData : List (ℕ × List ℕ) → Type 0
AreData [] = Unit {0}
AreData ((fd, bytes) ∷ events) = (bytes ≢ []) × IsBytes bytes × AreData events

-- The queue is in order and empty, and holds what waits.
record Emptied (hash : ℕ → List Uncomplete) (q : Queue) : Type 0 where
  valid : IsValid q
  empty : contents q ≡ []
  same : q.hash ≡ hash

pop_all_lem :
    (fuel : ℕ) (q : Queue) (xs : List Netpack)
    → IsRing q
    → contents q ≡ xs
    → length xs ≡ fuel
    → ((pop_all fuel q).0 ≡ xs)
      × IsRing (pop_all fuel q).1
      × (contents (pop_all fuel q).1 ≡ [])
      × ((pop_all fuel q).1.hash ≡ q.hash)
unfolding pop_all
pop_all_lem zero q [] v e l = (refl, v, e, refl)
pop_all_lem zero q (x ∷ xs) v e l = absurd (omega (arith, l))
pop_all_lem (suc fuel) q [] v e l = absurd (omega (arith, l))
pop_all_lem (suc fuel) q (x ∷ xs) v e l =
    let (o, w, c, h) = pop_lem v in
    let (a, b, d, g) = pop_all_lem fuel (pop q).1 xs w (c ∙ ap others e) (omega (arith, l)) in
    rw (o ∙ ap first e, pop_all) (ap (◌∷◌ x) a, b, d, g ∙ h)

count-contents : (q : Queue) → length (contents q) ≡ count q
unfolding contents
count-contents q = length-copy_ring q.queue q.cap q.head (count q)

drained_lem :
    (r : Queue) (xs : List Netpack)
    → IsValid r
    → contents r ≡ xs
    → ((pop_all (count r) r).0 ≡ xs) × Emptied r.hash (pop_all (count r) r).1
drained_lem r xs v e =
    let (a, w, c, h) = pop_all_lem (count r) r xs v.ring e (ap length (sym e) ∙ count-contents r) in
    (
      a,
      record {
        valid = record { ring = w; table = subst IsTable (sym h) v.table };
        empty = c;
        same = h;
      },
    )

-- All packets reach Lua, alone or through the queue.
deliver_lem :
    {q : Queue} (fd : ℕ) (ps : List (List ℕ)) (rest : List ℕ) {r : Queue}
    → contents q ≡ []
    → Cuts q fd (queued ps rest) rest r
    → let (xs, t) = deliver (report fd ps rest) r in (xs ≡ packs fd ps) × Emptied r.hash t
unfolding deliver report queued
deliver_lem fd [] rest e c =
    (refl, record { valid = c.valid; empty = c.queued ∙ ap (λ s. s ++ []) e; same = refl })
deliver_lem fd (x ∷ []) [] e c =
    (refl, record { valid = c.valid; empty = c.queued ∙ ap (λ s. s ++ []) e; same = refl })
deliver_lem fd (x ∷ []) (b ∷ rest) {r = r} e c =
    drained_lem r (packs fd (x ∷ [])) c.valid (c.queued ∙ ap (λ s. s ++ packs fd (x ∷ [])) e)
deliver_lem fd (x ∷ y ∷ ps) rest {r = r} e c =
    drained_lem r (packs fd (x ∷ y ∷ ps)) c.valid
      (c.queued ∙ ap (λ s. s ++ packs fd (x ∷ y ∷ ps)) e)

delivered :
    {q : Queue} (fd : ℕ) (s : Split) (m : Message) (r : Queue)
    → Filters q fd s m r
    → contents q ≡ []
    → ((deliver m r).0 ≡ packs fd s.packets) × Emptied r.hash (deliver m r).1
delivered fd s m r f e =
    subst (λ x. ((deliver x r).0 ≡ packs fd s.packets) × Emptied r.hash (deliver x r).1)
      (sym f.message) (deliver_lem fd s.packets s.rest e f.cuts)

-- What waits is not a whole packet.
waiting_settled : (uc : Uncomplete) → Partial uc → frames (waiting uc) ≡ all_rest (waiting uc)
unfolding Partial waiting split
waiting_settled uc p = elim (Option-cases uc.read) [
  | inl s ↦ rw (s, waiting) refl
  | inr (r, s) ↦
      let (len, short) : (r ≡ length uc.buffer) × (length uc.buffer < uc.size) =
        rw (s, Partial) at p in
      let few : ltb (length uc.buffer) (uc.size / 2 ^ 8 * 2 ^ 8 + uc.size % 2 ^ 8) ≡ true =
        ground (arith, short) in
      rw (s, waiting) (frames_cons (uc.size / 2 ^ 8) (uc.size % 2 ^ 8) uc.buffer ∙ rw few refl)
]

settled_in :
    (fd : ℕ) (ucs : List Uncomplete)
    → IsChain ucs
    → frames (pending_in fd ucs) ≡ all_rest (pending_in fd ucs)
unfolding pending_in split
settled_in fd [] c = refl
settled_in fd (uc ∷ ucs) (p, a, c) = elim (Bool-cases (uc.id == fd)) [
  | inl e ↦ rw (e, pending_in) (waiting_settled uc p)
  | inr e ↦ rw (e, pending_in) (settled_in fd ucs c)
]

settled :
    (hash : ℕ → List Uncomplete) (fd : ℕ)
    → IsTable hash
    → frames (pending hash fd) ≡ all_rest (pending hash fd)
unfolding pending
settled hash fd t = settled_in fd (hash (hash_fd fd)) (t (hash_fd fd))

packets_of_self :
    (fd : ℕ) (ps : List (List ℕ)) (xs : List Netpack)
    → packets_of fd (packs fd ps ++ xs) ≡ ps ++ packets_of fd xs
unfolding packets_of
packets_of_self fd [] xs = refl
packets_of_self fd (p ∷ ps) xs =
    rw ((==_iff fd fd).1 refl, packets_of) (ap (◌∷◌ p) (packets_of_self fd ps xs))

packets_of_ne :
    (fd g : ℕ) (ps : List (List ℕ)) (xs : List Netpack)
    → fd ≢ g
    → packets_of g (packs fd ps ++ xs) ≡ packets_of g xs
unfolding packets_of
packets_of_ne fd g [] xs ne = refl
packets_of_ne fd g (p ∷ ps) xs ne = rw (==_no fd g ne, packets_of) (packets_of_ne fd g ps xs ne)

-- What Lua got, and what waits, for each descriptor
abbrev pub Delivers : Queue → List (ℕ × List ℕ) → List Netpack → Queue → Type 0
Delivers q events xs r =
    (fd : ℕ)
    → (packets_of fd xs ≡ (frames (pending q.hash fd ++ bytes_of fd events)).packets)
      × (pending r.hash fd ≡ (frames (pending q.hash fd ++ bytes_of fd events)).rest)

-- The descriptor that gets the bytes,
step_self :
    {q p : Queue} (t r : Queue) {fd : ℕ} (bytes : List ℕ) (events : List (ℕ × List ℕ))
    (ys : List Netpack) {m : Message}
    → Filters q fd (frames (pending q.hash fd ++ bytes)) m p
    → t.hash ≡ p.hash
    → Delivers t events ys r
    → let s = frames (pending q.hash fd ++ bytes) in
      let whole = frames (pending q.hash fd ++ (bytes ++ bytes_of fd events)) in
      (packets_of fd (packs fd s.packets ++ ys) ≡ whole.packets) × (pending r.hash fd ≡ whole.rest)
step_self {q} t r {fd} bytes events ys f h d =
    let later = bytes_of fd events in
    let s = frames (pending q.hash fd ++ bytes) in
    let whole : frames (pending q.hash fd ++ (bytes ++ later))
        ≡ packets_first s.packets (frames (s.rest ++ later)) =
      ap frames (sym (append_assoc (pending q.hash fd) bytes later))
      ∙ frames-append (pending q.hash fd ++ bytes) later in
    let waits : pending t.hash fd ≡ s.rest = ap (λ k. pending k fd) h ∙ f.cuts.waits in
    (
      packets_of_self fd s.packets ys
          ∙ ap (λ x. s.packets ++ x) ((d fd).0 ∙ ap (λ z. (frames (z ++ later)).packets) waits)
          ∙ ap (λ (x : Split). x.packets) (sym whole),
      (d fd).1
          ∙ ap (λ z. (frames (z ++ later)).rest) waits
          ∙ ap (λ (x : Split). x.rest) (sym whole),
    )

-- and the others
step_lem :
    {q p : Queue} (t r : Queue) {fd : ℕ} (bytes : List ℕ) (events : List (ℕ × List ℕ))
    (ys : List Netpack) {m : Message}
    → Filters q fd (frames (pending q.hash fd ++ bytes)) m p
    → t.hash ≡ p.hash
    → Delivers t events ys r
    → Delivers q
        ((fd, bytes) ∷ events)
        (packs fd (frames (pending q.hash fd ++ bytes)).packets ++ ys)
        r
unfolding bytes_of
step_lem {q} t r {fd} bytes events ys f h d g =
    let s = frames (pending q.hash fd ++ bytes) in
    let later = bytes_of g events in
    elim (ℕ_discrete fd g) [
      | no ne ↦
          let same : pending t.hash g ≡ pending q.hash g =
            ap (λ k. pending k g) h ∙ f.cuts.others g ne in
          rw (==_no fd g ne, bytes_of)
            (
              packets_of_ne fd g s.packets ys ne
                  ∙ (d g).0
                  ∙ ap (λ z. (frames (z ++ later)).packets) same,
              (d g).1 ∙ ap (λ z. (frames (z ++ later)).rest) same,
            )
      | yes z ↦
          subst
            (λ k.
              let whole = frames (pending q.hash k ++ bytes_of k ((fd, bytes) ∷ events)) in
              (packets_of k (packs fd s.packets ++ ys) ≡ whole.packets)
              × (pending r.hash k ≡ whole.rest))
            z (rw ((==_iff fd fd).1 refl, bytes_of) (step_self t r bytes events ys f h d))
    ]

-- Start with a queue in order that has no packets. Whatever bytes come for which descriptors, and
-- however the streams are divided, no byte is read that is not there; and for each descriptor Lua gets
-- the packets of what was waiting for it and its own stream, in order, and what is left of it waits.
-- The queue is then empty and in order again.
pub deliver_all_lem :
    (q : Queue) (events : List (ℕ × List ℕ))
    → IsValid q
    → contents q ≡ []
    → AreData events
    → (xs : List Netpack) × (r : Queue) × (deliver_all q events ≡ some (xs, r))
      × Delivers q events xs r
      × IsValid r
      × (contents r ≡ [])
unfolding deliver_all bytes_of packets_of
deliver_all_lem q [] v e i = (
  [],
  q,
  refl,
  λ fd.
      let same = ap frames (append-nil (pending q.hash fd)) ∙ settled q.hash fd v.table in
      (ap (λ (x : Split). x.packets) (sym same), ap (λ (x : Split). x.rest) (sym same)),
  v,
  e,
)
deliver_all_lem q ((fd, bytes) ∷ events) v e (ne, i, more_data) =
    let (m, p, run, f) = filter_data_lem q fd bytes v i ne in
    let s = frames (pending q.hash fd ++ bytes) in
    let t = (deliver m p).1 in
    let (given, w) = delivered fd s m p f e in
    let (ys, r, rest, d, u, z) = deliver_all_lem t events w.valid w.empty more_data in
    (
      packs fd s.packets ++ ys,
      r,
      rw (run, deliver_all, ◌>>=◌) (rw (rest, given, deliver_all) refl),
      step_lem t r bytes events ys f w.same d,
      u,
      z,
    )
