-- ===== src/Netpack/Filter.antt =====
-- `filter_data_` cuts what waits for a descriptor and the new bytes as `frames` does.
use jump.Base.{
  ℕ, zero, suc, ◌+◌, ◌*◌, ◌^◌, ◌<◌, ◌≤◌, ◌≡◌, ◌≢◌, refl, ap, ap₂, sym, subst, ◌∙◌, List, [], ◌∷◌,
  ◌++◌, arith, map, append-nil, append_assoc, none, some, length, take, drop, length-drop, ltb, leb,
  leb→le, Bool-cases, inl, inr, drop_all,
}
use jump.Netpack.{
  Netpack, Uncomplete, Queue, hash_fd, push_data, link, save_header, save_packet, push_more,
}
use jump.Netpack.Ring.{IsRing, contents, push_data_lem}
use jump.Netpack.Chain.{waiting, Partial, Absent, IsTable, pending, pending_absent, link_lem}
use jump.Netpack.Frames.{split, split_nil, IsBytes, drop-IsBytes}

abbrev pub packs : ℕ → List (List ℕ) → List Netpack
packs fd ps = map (λ x. record { id = fd; bytes = x }) ps

pub record IsValid (q : Queue) : Type 0 where
  pub ring : IsRing q
  pub table : IsTable q.hash

-- The packets went to the queue, and the rest waits.
pub record Cuts (q : Queue) (fd : ℕ) (ps : List (List ℕ)) (rest : List ℕ) (r : Queue) : Type 0 where
  pub valid : IsValid r
  pub queued : contents r ≡ contents q ++ packs fd ps
  pub waits : pending r.hash fd ≡ rest
  pub others : (g : ℕ) → fd ≢ g → pending r.hash g ≡ pending q.hash g

-- An incomplete packet is linked.
pub link-Cuts :
    (q : Queue) (fd : ℕ) (uc : Uncomplete)
    → IsValid q
    → Absent fd (q.hash (hash_fd fd))
    → Partial uc
    → uc.id ≡ fd
    → Cuts q fd [] (waiting uc) (link q fd uc)
unfolding contents
link-Cuts q fd uc v a p e =
    let (t, w, o) = link_lem q.hash fd uc v.table a p e in
    record {
      valid = record {
        ring = record { len = v.ring.len; head = v.ring.head; tail = v.ring.tail };
        table = t;
      };
      queued = sym (append-nil (contents q));
      waits = w;
      others = o;
    }

pub save_header-Cuts :
    (q : Queue) (fd a : ℕ)
    → IsValid q
    → Absent fd (q.hash (hash_fd fd))
    → Cuts q fd [] (a ∷ []) (save_header q fd a)
unfolding save_header waiting Partial
save_header-Cuts q fd a v e =
    link-Cuts q fd (record { id = fd; size = 0; buffer = []; read = none; header = a }) v e tt refl

pub save_packet-Cuts :
    (q : Queue) (fd a b : ℕ) (bytes : List ℕ)
    → IsValid q
    → Absent fd (q.hash (hash_fd fd))
    → b < 2 ^ 8
    → length bytes < a * 2 ^ 8 + b
    → Cuts q fd [] (a ∷ b ∷ bytes) (save_packet q fd (a * 2 ^ 8 + b) bytes)
unfolding save_packet waiting Partial
save_packet-Cuts q fd a b bytes v e small short =
    let uc : Uncomplete = record {
      id = fd;
      size = a * 2 ^ 8 + b;
      buffer = bytes;
      read = some (length bytes);
      header = 0;
    } in
    subst (λ xs. Cuts q fd [] xs (link q fd uc))
      (ap₂ (λ x y. x ∷ y ∷ bytes) (omega arith) (omega arith))
      (link-Cuts q fd uc v e (refl, short) refl)

-- A packet goes to the queue before others.
pub before-Cuts :
    {q : Queue} {fd : ℕ} {x rest : List ℕ} {ps : List (List ℕ)} {r : Queue}
    → IsValid q
    → Cuts (push_data q fd x) fd ps rest r
    → Cuts q fd (x ∷ ps) rest r
before-Cuts {q} {fd} {x} {rest} {ps} {r} v c =
    let (_, e, h) = push_data_lem fd x v.ring in
    record {
      valid = c.valid;
      queued =
          c.queued
          ∙ ap (λ s. s ++ packs fd ps) e
          ∙ append_assoc (contents q) (record { id = fd; bytes = x } ∷ []) (packs fd ps);
      waits = c.waits;
      others = λ g ne. c.others g ne ∙ ap (λ t. pending t g) h;
    }

pub pushed-IsValid : {q : Queue} (fd : ℕ) (x : List ℕ) → IsValid q → IsValid (push_data q fd x)
pushed-IsValid {q} fd x v =
    let (w, _, h) = push_data_lem fd x v.ring in
    record { ring = w; table = subst IsTable (sym h) v.table }

pub pushed-Absent :
    {q : Queue} (fd : ℕ) (x : List ℕ)
    → IsValid q
    → Absent fd (q.hash (hash_fd fd))
    → Absent fd ((push_data q fd x).hash (hash_fd fd))
pushed-Absent {q} fd x v a =
    let (_, _, h) = push_data_lem fd x v.ring in subst (λ t. Absent fd (t (hash_fd fd))) (sym h) a

-- Nothing is left.
pub same-Cuts :
    (q : Queue) (fd : ℕ) → IsValid q → Absent fd (q.hash (hash_fd fd)) → Cuts q fd [] [] q
unfolding pending
same-Cuts q fd v a = record {
  valid = v;
  queued = sym (append-nil (contents q));
  waits = pending_absent fd (q.hash (hash_fd fd)) a;
  others = λ g ne. refl;
}

pub drop_some : (n : ℕ) (xs : List ℕ) → n < length xs → drop n xs ≢ []
drop_some n xs h e = omega (arith, length-drop n xs, ap length e)

pub push_more_lem :
    (f : ℕ) (q : Queue) (fd : ℕ) (xs : List ℕ)
    → IsValid q
    → Absent fd (q.hash (hash_fd fd))
    → IsBytes xs
    → xs ≢ []
    → length xs ≤ f
    → (r : Queue) × (push_more f q fd xs ≡ some r)
      × Cuts q fd (split f xs).packets (split f xs).rest r
unfolding push_more split
push_more_lem f q fd [] v a i ne l = absurd (ne refl)
push_more_lem zero q fd (x ∷ xs) v a i ne l = absurd (omega arith)
push_more_lem (suc f) q fd (x ∷ []) v a i ne l =
    (save_header q fd x, refl, save_header-Cuts q fd x v a)
push_more_lem (suc f) q fd (x ∷ y ∷ xs) v a (_, (small, i)) ne l =
    let n = x * 2 ^ 8 + y in
    let p = push_data q fd (take n xs) in
    let w = pushed-IsValid fd (take n xs) v in
    let b = pushed-Absent fd (take n xs) v a in
    elim (Bool-cases (ltb (length xs) n)) [
      | inl s ↦ (
        save_packet q fd n xs,
        rw (s, push_more) refl,
        rw (s, split) (save_packet-Cuts q fd x y xs v a small (ground (arith, s))),
      )
      | inr s ↦ elim (Bool-cases (leb (length xs) n)) [
        | inl t ↦
            let none_left : drop n xs ≡ [] = drop_all n xs (leb→le _ _ t) in
            let c = before-Cuts v (same-Cuts p fd w b) in
            (p, rw (s, t, push_more) refl, rw (s, none_left, split_nil f, split) c)
        | inr t ↦
            let (r, run, c) =
              push_more_lem f p fd (drop n xs) w b (drop-IsBytes n xs i)
                (drop_some n xs (ground (arith, t))) (omega (arith, length-drop n xs)) in
            (r, rw (s, t, push_more) run, rw (s, split) (before-Cuts v c))
      ]
    ]
