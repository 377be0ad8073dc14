-- ===== src/Service/Queues.antt =====
-- The message queue of each context is in use, and its own.
use jump.Base.{
  ℕ, ◌≡◌, ◌≢◌, sym, ap, subst, ◌∙◌, true, false, Option, none, some, List, ℕ_discrete, update,
  update_self, update_ne, some-eq, some-ne-none,
}
use jump.Mq.{MessageQueue, create}
use jump.Mq.Memory.{store}
use jump.Mq.Owners.{World}
use jump.Mq.Owners.Fresh.{Fresh}
use jump.Service.{Context, new_context}

abbrev pub queue_of : Option Context → Option ℕ
queue_of none = none
queue_of (some c) = some c.queue

pub record Own (f : ℕ → Option Context) (w : World) : Type 0 where
  pub ready : (p q : ℕ) → queue_of (f p) ≡ some q → Fresh w q
  pub apart : (p r q : ℕ) → queue_of (f p) ≡ some q → queue_of (f r) ≡ some q → p ≡ r

-- The world may change where the queues in use stay so.
pub Own-world :
    {f : ℕ → Option Context} {w u : World} → Own f w → ((q : ℕ) → Fresh w q → Fresh u q) → Own f u
Own-world o k = record { ready = λ p q e. k q (o.ready p q e); apart = o.apart }

-- A context may be written, but for its queue.
pub Own-write :
    {f : ℕ → Option Context} {w : World} (p : ℕ) {c : Context} (d : Context)
    → Own f w
    → f p ≡ some c
    → d.queue ≡ c.queue
    → Own (update f p (some d)) w
Own-write {f} {w} p {c} d o e same =
    let at : (k : ℕ) → queue_of (update f p (some d) k) ≡ queue_of (f k) = λ k.
      elim (ℕ_discrete p k) [
        | yes q ↦
            subst (λ x. queue_of (update f p (some d) x) ≡ queue_of (f x)) q
              (ap queue_of (update_self f p (some d)) ∙ ap some same ∙ ap queue_of (sym e))
        | no ne ↦ ap queue_of (update_ne f p k (some d) ne)
      ] in
    record {
      ready = λ k q e. o.ready k q (sym (at k) ∙ e);
      apart = λ k r q e g. o.apart k r q (sym (at k) ∙ e) (sym (at r) ∙ g);
    }

-- A context that is freed leaves the others theirs.
pub Own-delete :
    {f : ℕ → Option Context} {w u : World} (p q : ℕ)
    → Own f w
    → queue_of (f p) ≡ some q
    → ((r : ℕ) → q ≢ r → Fresh w r → Fresh u r)
    → Own (update f p none) u
Own-delete {f} p q o e k =
    let at : (r t : ℕ)
        → queue_of (update f p none r) ≡ some t
        → (p ≢ r) × (queue_of (f r) ≡ some t) =
      λ r t g. elim (ℕ_discrete p r) [
        | yes z ↦ absurd (
            some-ne-none g (
              subst (λ x. queue_of (update f p none x) ≡ none) z
                (ap queue_of (update_self f p none))))
        | no ne ↦ (ne, ap queue_of (sym (update_ne f p r none ne)) ∙ g)
      ] in
    record {
      ready = λ r t g.
          let (ne, h) = at r t g in
          k t (λ z. ne (o.apart p r q e (h ∙ ap some (sym z)))) (o.ready r t h);
      apart = λ r s t g h. o.apart r s t (at r t g).1 (at s t h).1;
    }

-- A new context has a new queue.
pub Own-new :
    {f : ℕ → Option Context} {w : World} (p q h : ℕ) (held : List ℕ)
    → Own f w
    → w.live q ≡ false
    → Own
        (update f p (some (new_context q)))
        (record { mem = store w.mem q (create h); live = update w.live q true; held = held })
unfolding create
Own-new {f} {w} p q h held o dead =
    let g = update f p (some (new_context q)) in
    let at_self : queue_of (g p) ≡ some q = ap queue_of (update_self f p (some (new_context q))) in
    let other : (r t : ℕ) → p ≢ r → queue_of (g r) ≡ some t → queue_of (f r) ≡ some t =
      λ r t ne e. ap queue_of (sym (update_ne f p r (some (new_context q)) ne)) ∙ e in
    let old : (r t : ℕ) → p ≢ r → queue_of (g r) ≡ some t → q ≢ t = λ r t ne e z.
      let (l, _) = o.ready r t (other r t ne e) in
      let bad : w.live t ≡ false = ap w.live (sym z) ∙ dead in cc in
    record {
      ready = λ r t e. elim (ℕ_discrete p r) [
        | yes z ↦
            let same : q ≡ t = some-eq (sym at_self ∙ ap (λ x. queue_of (g x)) z ∙ e) in
            subst
              (λ x.
                (update w.live q true x ≡ true) × ((update w.mem.ring q (create h) x).release ≡ 0))
              same
              (
                update_self w.live q true,
                ap (λ (x : MessageQueue). x.release) (update_self w.mem.ring q (create h)),
              )
        | no ne ↦
            let (l, y) = o.ready r t (other r t ne e) in
            let far = old r t ne e in
            (
              update_ne w.live q t true far ∙ l,
              ap (λ (x : MessageQueue). x.release) (update_ne w.mem.ring q t (create h) far) ∙ y,
            )
      ];
      apart = λ r s t e k. elim (ℕ_discrete p r) [
        | yes z ↦ elim (ℕ_discrete p s) [
          | yes y ↦ sym z ∙ y
          | no ne ↦ absurd (old s t ne k (some-eq (sym at_self ∙ ap (λ x. queue_of (g x)) z ∙ e)))
        ]
        | no ne ↦ elim (ℕ_discrete p s) [
          | yes y ↦ absurd (old r t ne e (some-eq (sym at_self ∙ ap (λ x. queue_of (g x)) y ∙ k)))
          | no far ↦ o.apart r s t (other r t ne e) (other s t far k)
        ]
      ];
    }
