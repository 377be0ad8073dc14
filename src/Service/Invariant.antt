-- ===== src/Service/Invariant.antt =====
-- What holds of contexts, references and message queues in every history.
use jump.Base.{
  suc, ℕ, ◌+◌, ◌≡◌, inl, inr, refl, sym, ap, subst, ◌∙◌, true, false, none, some, List, ◌∷◌, remove,
  update, ◌-◌, some-eq,
}
use jump.Handle.{Storage, register}
use jump.Handle.Register.{Registers, register_lem, register_room}
use jump.Mq.Owners as Owners
use jump.Mq.Owners.{World}
use jump.Mq.Owners.Fresh.{worker-Fresh, mq_push-Fresh, mark_release-Fresh}
use jump.Mq.Owners.Safety as Safety
use jump.Service.{with_context}
use jump.Service.Step.{
  System, world, Step, start, launch, reserve, find, unname, drop, delete, push, field, work,
}
use jump.Service.Refs.{
  Refs, free-Absent, new-Refs, grab-Refs, drop-Refs, delete-Refs, take-Refs, mem-Refs, field-Refs,
  reserve-Refs,
}
use jump.Service.Queues.{Own, Own-world, Own-write, Own-delete, Own-new, queue_of}
use jump.Service.Calls.{
  context_new-some, handle_grab-some, handle_take-some, context_release-some, queue_push-some,
  set_init-some, context_reserve-some,
}

-- The state of the queues, who has which context, and which queue belongs to which context.
pub record Inv (s : System) : Type 0 where
  pub list : List ℕ
  pub queues : Owners.Inv (world s) list
  pub refs : Refs s.node s.refs s.alive s.reserves
  pub own : Own s.node.context (world s)

start-Inv :
    (s : System) (p q : ℕ) {h : ℕ} (t : Storage)
    → Inv s
    → s.node.context p ≡ none
    → s.live q ≡ false
    → register s.node.handle s.node.storage p ≡ some (h, t)
    → Inv (record {
      node = with_context s.node p q (h, t);
      live = update s.live q true;
      held = q ∷ s.held;
      alive = p ∷ s.alive;
      refs = p ∷ s.refs;
      reserves = s.reserves;
    })
start-Inv s p q {h} t v free dead e =
    let (_, _, gone) = free-Absent p v.refs free in
    let (g, u, f, r) =
      register_lem p v.refs.table gone (register_room s.node.handle s.node.storage p e) in
    let (ys, k) = Safety.Step-Inv (Owners.make (world s) q h dead) v.queues in
    let same = some-eq (sym f ∙ e) in
    record {
      list = ys;
      queues = k;
      refs =
          new-Refs p q h t v.refs free
            (subst (λ (x : ℕ × Storage). Registers s.node.handle s.node.storage p x.0 x.1) same r);
      own = Own-new p q h (q ∷ s.held) v.own dead;
    }

-- Every step keeps it.
pub Step-Inv : {s t : System} → Step s t → Inv s → Inv t
Step-Inv {s} (start p q {h = h} free dead e) v =
    let (t, f, same) = context_new-some s.node p q e in
    subst
      (λ n. Inv (record {
        node = n;
        live = update s.live q true;
        held = q ∷ s.held;
        alive = p ∷ s.alive;
        refs = p ∷ s.refs;
        reserves = s.reserves;
      }))
      (sym same) (start-Inv s p q t v free dead f)
Step-Inv {s} (launch p e) v =
    let (c, at, same) = set_init-some s.node p e in
    subst (λ n. Inv (record s { node = n })) (sym same)
      (record {
        list = v.list;
        queues = v.queues;
        refs = field-Refs p (record c { init = true }) v.refs at refl;
        own = Own-write p (record c { init = true }) v.own at refl;
      })
Step-Inv {s} (reserve p has e) v =
    let (c, at, same) = context_reserve-some s.node p e in
    subst (λ n. Inv (record s { node = n; refs = p ∷ s.refs; reserves = suc s.reserves }))
      (sym same)
      (record {
        list = v.list;
        queues = v.queues;
        refs = reserve-Refs (grab-Refs p v.refs at);
        own = Own-write p (record c { ref = c.ref + 1 }) v.own at refl;
      })
Step-Inv {s} (find h {p = p} e) v =
    let (c, at, same) = handle_grab-some s.node h e in
    subst (λ n. Inv (record s { node = n; refs = p ∷ s.refs })) (sym same)
      (record {
        list = v.list;
        queues = v.queues;
        refs = grab-Refs p v.refs at;
        own = Own-write p (record c { ref = c.ref + 1 }) v.own at refl;
      })
Step-Inv {s} (unname h {p = p} e) v =
    let (t, names, f, same) = handle_take-some s.node h e in
    subst (λ n. Inv (record s { node = n; refs = p ∷ s.refs })) (sym same)
      (record {
        list = v.list;
        queues = v.queues;
        refs = take-Refs p h names t v.refs f;
        own = v.own;
      })
Step-Inv {s} (drop p has e) v =
    let (c, at, what) = context_release-some s.node p e in
    elim what [
      | inr (b, _, _, _, _) ↦ absurd (cc)
      | inl (_, more, same) ↦
          subst (λ n. Inv (record s { node = n; refs = remove p s.refs })) (sym same)
            (record {
              list = v.list;
              queues = v.queues;
              refs = drop-Refs p v.refs at more has;
              own = Own-write p (record c { ref = c.ref - 1 }) v.own at refl;
            })
    ]
Step-Inv {s} (delete p has e) v =
    let (c, at, what) = context_release-some s.node p e in
    elim what [
      | inl (b, _, _) ↦ absurd (cc)
      | inr (_, last, mem, f, same) ↦
          let (live, _) = v.own.ready p c.queue (ap queue_of at) in
          let (ys, k) = Safety.Step-Inv (Owners.retire (world s) c.queue live f) v.queues in
          subst (λ n. Inv (record s { node = n; alive = remove p s.alive; refs = remove p s.refs }))
            (sym same)
            (record {
              list = ys;
              queues = k;
              refs = delete-Refs p mem v.refs at last has;
              own =
                  Own-delete p c.queue v.own (ap queue_of at)
                    (λ r ne. mark_release-Fresh (world s) c.queue r ne f);
            })
    ]
Step-Inv {s} (push p m has e) v =
    let (c, mem, at, f, same) = queue_push-some s.node p m e in
    let (live, fresh) = v.own.ready p c.queue (ap queue_of at) in
    let (ys, k) = Safety.Step-Inv (Owners.send (world s) c.queue m live fresh f) v.queues in
    subst (λ n. Inv (record s { node = n })) (sym same)
      (record {
        list = ys;
        queues = k;
        refs = mem-Refs _ v.refs;
        own = Own-world v.own (λ q. mq_push-Fresh (world s) c.queue q m f);
      })
Step-Inv {s} (field p d has at same eq) v = record {
  list = v.list;
  queues = v.queues;
  refs = field-Refs p d v.refs at eq;
  own = Own-write p d v.own at same;
}
Step-Inv {s} (work {w = w} a i) v =
    let (ys, k) = Safety.Step-Inv a v.queues in
    record {
      list = ys;
      queues = k;
      refs = mem-Refs _ v.refs;
      own = Own-world v.own (worker-Fresh a i);
    }
