-- ===== src/Service/Send/Filter.antt =====
-- What `_filter_args` makes of the session and the data.
use jump.Base.{
  ℕ, ◌≤◌, ◌%◌, ◌≡◌, ◌≢◌, ◌⊎◌, inl, inr, refl, sym, ap, ◌∙◌, true, false, not, ◌&&◌, Option, none,
  some, List, [], ◌∷◌, ◌++◌, arith, count, update, update_self, at_update, ◌>>=◌, ◌==◌, ==_no,
  ==_iff, if◌then◌else◌, leb, le→leb, leb→le, length, take, length-append, length-take, take-append,
  take_all, Bool-cases, >>=-some,
}
use jump.Service.{Node, Context, write_context, context_newsession}
use jump.Service.Step.{System, field}
use jump.Service.Queues.{queue_of}
use jump.Service.Invariant.{Inv, Step-Inv}
use jump.Service.Safety.{held_alive}
use jump.Service.Send.{
  Process, Block, Args, take_session, copy_data, filter_args, alloc_session, dont_copy, tag_size,
  source_of,
}

-- The bytes at a pointer, if there are so many; NULL has none.
unfoldable pub data_at : (ℕ → Option Block) → ℕ → ℕ → Option (List ℕ)
data_at block body sz =
    if body == 0
    then some []
    else do b ← block body; if leb sz (length b.bytes) then some (take sz b.bytes) else none

-- The session that a message gets
pub session_of : Node → ℕ → ℕ → ℕ → ℕ
session_of n ctx type session =
    if alloc_session type
    then elim (n.context ctx) [ none ↦ session | some c ↦ (context_newsession c).0 ]
    else session

-- The node and what depends on it when a session is taken
pub record Taken (s : System) (n : Node) : Type 0 where
  pub inv : Inv (record s { node = n })
  pub mem : n.mem ≡ s.node.mem
  pub storage : n.storage ≡ s.node.storage
  pub handle : n.handle ≡ s.node.handle
  pub queues : (p : ℕ) → queue_of (n.context p) ≡ queue_of (s.node.context p)

newsession_keeps :
    (c : Context)
    → ((context_newsession c).1.queue ≡ c.queue) × ((context_newsession c).1.ref ≡ c.ref)
unfolding context_newsession
newsession_keeps c = ground arith

pub take_session_lem :
    {s : System} (w : Process) (ctx type session : ℕ)
    → Inv s
    → 1 ≤ count ctx s.refs
    → (alloc_session type ≡ false) ⊎ (session ≡ 0)
    → (n : Node) × (take_session (record w { node = s.node }) ctx type session
        ≡ some (session_of s.node ctx type session, record w { node = n }))
      × Taken s n
unfolding take_session session_of
take_session_lem {s} w ctx type session v h ok = elim (Bool-cases (alloc_session type)) [
  | inr e ↦ (
    s.node,
    rw (e, take_session, session_of) refl,
    record { inv = v; mem = refl; storage = refl; handle = refl; queues = λ p. refl },
  )
  | inl e ↦
      let zero : session ≡ 0 = elim ok [ inl f ↦ absurd (cc) | inr z ↦ z ] in
      let (c, at) = held_alive ctx v (omega arith) in
      let d = (context_newsession c).1 in
      let (queue, ref) = newsession_keeps c in
      let same : (p : ℕ)
          → queue_of (update s.node.context ctx (some d) p) ≡ queue_of (s.node.context p) =
        at_update (λ p o. queue_of o ≡ queue_of (s.node.context p)) s.node.context ctx (some d)
          (ap some queue ∙ ap queue_of (sym at)) (λ p ne. refl) in
      (
        write_context s.node ctx d,
        rw (e, (==_iff session 0).1 zero, take_session, session_of)
            (rw (at, take_session, ◌>>=◌, session_of) refl),
        record {
          inv = Step-Inv {s = s} (field ctx d h at queue ref) v;
          mem = refl;
          storage = refl;
          handle = refl;
          queues = same;
        },
      )
]

-- The data is copied, unless that is not wanted or there is none.
abbrev pub Copies : (ℕ → Option Block) → ℕ → ℕ → ℕ → ℕ → (ℕ → Option Block) → Type 0
Copies block buf type body d after =
    (dont_copy type ≡ true)
    ⊎ (body ≡ 0)
    ⊎ ((d ≡ buf) × (b : Block) × (b.malloced ≡ true) × (after ≡ update block buf (some b)))

pub copy_data_lem :
    (w : Process) (buf type body sz : ℕ) {xs : List ℕ}
    → buf ≢ 0
    → data_at w.block body sz ≡ some xs
    → (d : ℕ) × (block : ℕ → Option Block) × (copy_data w buf type body sz
        ≡ some (d, record w { block = block }))
      × (data_at block d sz ≡ some xs)
      × Copies w.block buf type body d block
unfolding copy_data data_at
copy_data_lem w buf type body sz {xs} nz e =
    elim (Bool-cases (not (dont_copy type) && not (body == 0))) [
      | inr f ↦ (body, w.block, rw (f, copy_data) refl, e, ground (arith, f))
      | inl f ↦
          let some_data : (body == 0) ≡ false = ground (arith, f) in
          let read = sym (rw (some_data, data_at) refl) ∙ e in
          let (b, at, r) =
            >>=-some (w.block body)
              (λ b. if leb sz (length b.bytes) then some (take sz b.bytes) else none) read in
          let enough : leb sz (length b.bytes) ≡ true = ground (arith, r) in
          let xs_are : take sz b.bytes ≡ xs = ground (arith, r) in
          let copy = take sz b.bytes ++ 0 ∷ [] in
          let len = length-take sz b.bytes (leb→le _ _ enough) in
          let block = update w.block buf (some (record { bytes = copy; malloced = true })) in
          let there : block buf ≡ some (record { bytes = copy; malloced = true }) =
            update_self w.block buf (some (record { bytes = copy; malloced = true })) in
          let long : leb sz (length copy) ≡ true =
            le→leb _ _ (omega (arith, len, length-append (take sz b.bytes) (0 ∷ []))) in
          let same : take sz copy ≡ xs =
            take-append sz (take sz b.bytes) (0 ∷ []) (omega (arith, len))
            ∙ take_all sz (take sz b.bytes) (omega (arith, len))
            ∙ xs_are in
          (
            buf,
            block,
            rw (f, copy_data) (rw (at, copy_data, ◌>>=◌) (rw (enough, copy_data) refl)),
            rw (==_no buf 0 nz, data_at)
                (rw (there, data_at, ◌>>=◌) (rw (long, data_at) (ap some same))),
            inr (inr (refl, record { bytes = copy; malloced = true }, refl, refl)),
          )
    ]

-- What `_filter_args` makes of arguments that it accepts.
pub record Filtered (s : System) (w : Process) (buf ctx type : ℕ) (a : Args) (xs : List ℕ)
    : Type 0 where
  pub body : ℕ
  pub block : ℕ → Option Block
  pub node : Node
  pub taken : Taken s node
  pub runs :
      filter_args (record w { node = s.node }) buf ctx type a
      ≡ some (
        record {
          session = session_of s.node ctx type a.session;
          body = body;
          sz = tag_size (type % 256) a.sz;
        },
        record w { node = node; block = block },
      )
  pub same : data_at block body a.sz ≡ some xs
  pub copies : Copies w.block buf type a.body body block

pub filter_args_lem :
    {s : System} (w : Process) (buf ctx type : ℕ) (a : Args) {xs : List ℕ}
    → Inv s
    → 1 ≤ count ctx s.refs
    → (alloc_session type ≡ false) ⊎ (a.session ≡ 0)
    → buf ≢ 0
    → data_at w.block a.body a.sz ≡ some xs
    → Filtered s w buf ctx type a xs
unfolding filter_args
filter_args_lem {s} w buf ctx type a v h ok nz e =
    let (n, run, t) = take_session_lem w ctx type a.session v h ok in
    let (d, block, copied, same, copies) =
      copy_data_lem (record w { node = n }) buf type a.body a.sz nz e in
    record {
      body = d;
      block = block;
      node = n;
      taken = t;
      runs = rw (run, filter_args, ◌>>=◌) (rw (copied, filter_args, ◌>>=◌) refl);
      same = same;
      copies = copies;
    }

-- The source of a message
pub source_lem :
    {s : System} (n : Node) (ctx source : ℕ)
    → Taken s n
    → 1 ≤ count ctx s.refs
    → source_of n ctx source ≡ some (if source == 0 then s.node.handle ctx else source)
unfolding source_of
source_lem {s} n ctx source t h =
    let (c, at) = held_alive {s = record s { node = n }} ctx t.inv (omega arith) in
    rw (at, source_of) (ground (arith, ap (λ f. f ctx) t.handle))
