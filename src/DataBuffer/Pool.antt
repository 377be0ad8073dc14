-- ===== src/DataBuffer/Pool.antt =====
-- The nodes of the pool: none is lost, and none is in two places.
use jump.Base.{
  ℕ, zero, suc, ◌+◌, ◌-◌, ◌≡◌, refl, ap, ◌∙◌, sym, List, [], ◌∷◌, ◌++◌, Option, none, some, arith,
  count, ltb, if◌then◌else◌, dec_lt, ℕ_discrete, ltb_no, ==_no, ==_iff, lt→ltb,
}
use jump.DataBuffer.{
  Message, DataBuffer, MessagePool, ReadResult, nodes_from, return_message, copy_before, read_loop,
  databuffer_read, take_node, databuffer_push, return_all, databuffer_clear, piece,
}

abbrev pub nodes : List Message → List ℕ
nodes [] = []
nodes (m ∷ ms) = m.node ∷ nodes ms

-- Each node that was allocated is free, in this buffer, or among `others` (those of the other
-- connections), and in one place only; no other node is anywhere.
abbrev pub Pooled : List ℕ → List Message → MessagePool → Type 0
Pooled others ms mp =
    (n : ℕ)
    → count n others + count n (nodes ms) + count n mp.freelist
      ≡ (if ltb n mp.allocated then 1 else 0)

-- How often a node is in the buffer or free
abbrev pub owned : ℕ → List Message → MessagePool → ℕ
owned n ms mp = count n (nodes ms) + count n mp.freelist

count-nodes_from :
    (n a k : ℕ) → count n (nodes_from a k) ≡ (if ltb n a then 0 else if ltb n (a + k) then 1 else 0)
unfolding count nodes_from
count-nodes_from n a zero = ground arith
count-nodes_from n a (suc k) = ground (arith, count-nodes_from n (a + 1) k)

nodes-snoc :
    (n : ℕ) (ms : List Message) (m : Message)
    → count n (nodes (ms ++ m ∷ [])) ≡ count n (nodes ms) + count n (m.node ∷ [])
unfolding count
nodes-snoc n [] m = omega arith
nodes-snoc n (x ∷ ms) m = ground (arith, nodes-snoc n ms m)

-- What is read leaves every node in the buffer or free.
abbrev Keeps : ℕ → List Message → MessagePool → Option ReadResult → Type 0
Keeps n ms mp none = Unit {0}
Keeps n ms mp (some r) = (owned n r.left r.pool ≡ owned n ms mp) × (r.pool.allocated ≡ mp.allocated)

copy_before-Keeps :
    (n : ℕ) (xs : List ℕ) (m : Message) (ms : List Message) (mp : MessagePool)
    (o : Option ReadResult)
    → Keeps n ms (return_message m mp) o
    → Keeps n (m ∷ ms) mp (copy_before xs o)
unfolding copy_before count
copy_before-Keeps n xs m ms mp none k = tt
copy_before-Keeps n xs m ms mp (some r) k = ground (arith, k.0, k.1)

read_loop-Keeps :
    (ms : List Message) (offset : ℕ) (mp : MessagePool) (sz n : ℕ)
    → Keeps n ms mp (read_loop ms offset mp sz)
unfolding read_loop count
read_loop-Keeps [] offset mp sz n = tt
read_loop-Keeps (m ∷ ms) offset mp sz n = elim (dec_lt sz (m.size - offset)) [
  | yes l ↦ rw (lt→ltb sz (m.size - offset) l) (refl, refl)
  | no l ↦ elim (ℕ_discrete (m.size - offset) sz) [
    | yes e ↦
        rw (ltb_no sz (m.size - offset) (omega arith), (==_iff (m.size - offset) sz).1 e)
          (ground arith, refl)
    | no ne ↦
        rw (ltb_no sz (m.size - offset) (omega arith), ==_no (m.size - offset) sz ne)
          (copy_before-Keeps n (piece m offset (m.size - offset)) m ms mp
            (read_loop ms 0 (return_message m mp) (sz - (m.size - offset)))
            (read_loop-Keeps ms 0 (return_message m mp) (sz - (m.size - offset)) n))
  ]
]

return_all-owned :
    (ms : List Message) (mp : MessagePool) (n : ℕ)
    → (owned n [] (return_all ms mp) ≡ owned n ms mp)
      × ((return_all ms mp).allocated ≡ mp.allocated)
unfolding return_all count
return_all-owned [] mp n = (refl, refl)
return_all-owned (m ∷ ms) mp n =
    let (a, b) = return_all-owned ms (return_message m mp) n in (ground arith, b)

-- The node that is taken is one more that is used.
take_node_lem :
    (mp : MessagePool) (n used : ℕ)
    → used + count n mp.freelist ≡ (if ltb n mp.allocated then 1 else 0)
    → let (m, q) = take_node mp in
      used + count n (m ∷ []) + count n q.freelist ≡ (if ltb n q.allocated then 1 else 0)
unfolding take_node count
take_node_lem mp n used h = go mp.freelist refl
  where
    go :
        (free : List ℕ)
        → mp.freelist ≡ free
        → let (m, q) = take_node mp in
          used + count n (m ∷ []) + count n q.freelist ≡ (if ltb n q.allocated then 1 else 0)
    go [] e =
        let h' : used + 0 ≡ (if ltb n mp.allocated then 1 else 0) =
          ap (λ l. used + count n l) (sym e) ∙ h in
        rw e (ground (arith, h', count-nodes_from n (mp.allocated + 1) 1022))
    go (m ∷ free) e = rw e (ground (arith, sym (ap (λ l. used + count n l) e) ∙ h))

push-Pooled :
    (others : List ℕ) (db : DataBuffer) (mp : MessagePool) (bytes : List ℕ) (sz : ℕ)
    → Pooled others db.messages mp
    → let (d, q) = databuffer_push db mp bytes sz in Pooled others d.messages q
unfolding databuffer_push
push-Pooled others db mp bytes sz v n =
    let m : Message = record { node = (take_node mp).0; buffer = bytes; size = sz } in
    omega (
      arith,
      take_node_lem mp n (count n others + count n (nodes db.messages)) (v n),
      nodes-snoc n db.messages m,
    )

read-Pooled :
    (others : List ℕ) (db : DataBuffer) (mp : MessagePool) (sz : ℕ) {bytes : List ℕ}
    {d : DataBuffer} {q : MessagePool}
    → Pooled others db.messages mp
    → databuffer_read db mp sz ≡ some (bytes, d, q)
    → Pooled others d.messages q
unfolding databuffer_read
read-Pooled others db mp sz {d = d} {q = q} v e n =
    ground (arith, read_loop-Keeps db.messages db.offset mp sz n, v n)

-- Let each node that was allocated be free, in this buffer or in that of another connection, in one
-- place only, and no other node anywhere. This stays so under a push, a read that succeeds, and the
-- clearing of the buffer: no node is lost or used twice.
pub pool_lem :
    (others : List ℕ) (db : DataBuffer) (mp : MessagePool)
    → Pooled others db.messages mp
    → ((bytes : List ℕ) (sz : ℕ)
        → let (d, q) = databuffer_push db mp bytes sz in Pooled others d.messages q)
      × ((sz : ℕ) (bytes : List ℕ) (d : DataBuffer) (q : MessagePool)
          → databuffer_read db mp sz ≡ some (bytes, d, q)
          → Pooled others d.messages q)
      × (let (d, q) = databuffer_clear db mp in Pooled others d.messages q)
pool_lem others db mp v = (
  λ bytes sz. push-Pooled others db mp bytes sz v,
  λ sz bytes d q. read-Pooled others db mp sz v,
  λ n. let (a, b) = return_all-owned db.messages mp n in rw b (omega (arith, a, v n)),
)
