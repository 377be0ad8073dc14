-- ===== src/Service/Send/Fail.antt =====
-- A message that cannot be sent.
use jump.Base.{
  ℕ, ◌≤◌, ◌<◌, ◌%◌, ◌^◌, ◌≡◌, ◌≢◌, ◌⊎◌, inl, inr, refl, sym, true, false, Option, none, some, List,
  arith, count, update, update_self, update_ne, at_update, ◌>>=◌, ◌==◌, ==_no, ==_iff,
  if◌then◌else◌,
}
use jump.Handle.{grab}
use jump.Harbor.{message_isremote}
use jump.Mq.{Message, MessageQueue}
use jump.Service.{Node, slot_alive, handle_grab, context_push}
use jump.Service.Refs.{slots-alive}
use jump.Service.Step.{System, Reach}
use jump.Service.Safety.{idle, idle-Inv, Reach-Inv}
use jump.Service.Send.{
  Process, Block, Args, send, send_local, free, minus_one, alloc_session, dont_copy,
}
use jump.Service.Send.Filter.{filter_args_lem, source_lem, data_at}

pub absent_lem :
    (n : Node) (h : ℕ) (m : Message)
    → slot_alive n h ≡ true
    → grab n.handle n.storage h ≡ none
    → context_push n h m ≡ some (false, n)
unfolding context_push handle_grab
absent_lem n h m alive e =
    let none_there : handle_grab n h ≡ some (none, n) = rw (alive, e, handle_grab) refl in
    rw (none_there, context_push, ◌>>=◌) refl

-- The copy is freed.
free_copy :
    (w : Process) (buf : ℕ) (block : ℕ → Option Block) (b : Block)
    → buf ≢ 0
    → b.malloced ≡ true
    → free (record w { block = update block buf (some b) }) buf
      ≡ some (record w { block = update (update block buf (some b)) buf none })
unfolding free
free_copy w buf block b nz m =
    rw (==_no buf 0 nz, free) (rw (update_self block buf (some b), free, ◌>>=◌) (rw (m, free) refl))

restored :
    (block : ℕ → Option Block) (buf : ℕ) (b : Block)
    → block buf ≡ none
    → (q : ℕ) → update (update block buf (some b)) buf none q ≡ block q
restored block buf b e =
    at_update (λ q o. o ≡ block q) (update block buf (some b)) buf none (sym e)
      (λ q ne. update_ne block buf q (some b) ne)

-- In every history of a node that starts without services, let a thread that has a reference to the
-- context `ctx` send a copy of data, of less than 2^24 bytes, to a handle of this node that names no
-- service; the session is 0 if it is to be allocated. Then `skynet_send` returns -1, the copy is freed,
-- so that the memory is as it was, and no queue changes.
pub unknown_destination :
    (harbor : ℕ) (q : MessageQueue) {s : System} (w : Process)
    (buf rmsg ctx source destination type : ℕ) (a : Args) {xs : List ℕ}
    → Reach (idle harbor q) s
    → 1 ≤ count ctx s.refs
    → a.sz < 2 ^ 24
    → (alloc_session type ≡ false) ⊎ (a.session ≡ 0)
    → buf ≢ 0
    → w.block buf ≡ none
    → data_at w.block a.body a.sz ≡ some xs
    → dont_copy type ≡ false
    → a.body ≢ 0
    → grab s.node.handle s.node.storage destination ≡ none
    → destination ≢ 0
    → message_isremote w.harbor destination ≡ false
    → (v : Process) × (send (record w { node = s.node }) buf rmsg ctx source destination type a
        ≡ some (minus_one, v))
      × ((p : ℕ) → v.block p ≡ w.block p)
      × (v.node.mem ≡ s.node.mem)
unfolding send send_local
unknown_destination harbor q {s} w buf rmsg ctx source destination type a r has small ok nz fresh
      read copied some_data unnamed nd here =
    let v = Reach-Inv (idle-Inv harbor q) r in
    let f = filter_args_lem w buf ctx type a v has ok nz read in
    let from = if source == 0 then s.node.handle ctx else source in
    let nobody : grab f.node.handle f.node.storage destination ≡ none =
      rw (f.taken.handle, f.taken.storage) unnamed in
    elim f.copies [
      | inl e ↦ absurd (cc)
      | inr (inl e) ↦ absurd (some_data e)
      | inr (inr (at, b, m, e)) ↦ (
        record w { node = f.node; block = update (update w.block buf (some b)) buf none },
        rw ((==_iff (a.sz % 2 ^ 24) a.sz).1 (omega arith), send)
            (rw (f.runs, send, ◌>>=◌)
              (rw (source_lem f.node ctx source f.taken has, send, ◌>>=◌)
                (rw (==_no destination 0 nd, here, send)
                  (rw
                    (
                      absent_lem f.node destination _ (slots-alive destination f.taken.inv.refs)
                          nobody,
                      send_local,
                      ◌>>=◌,
                    )
                    (rw (at, e, free_copy (record w { node = f.node }) buf w.block b nz m)
                      refl))))),
        restored w.block buf b fresh,
        f.taken.mem,
      )
    ]
