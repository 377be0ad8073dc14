-- ===== src/HashId/Unlink.antt =====
-- Taking a node out of its chain.
use jump.Base.{
  ℕ, zero, suc, ◌+◌, ◌-◌, ◌≤◌, ◌<◌, ◌≡◌, ◌≢◌, ◌⊎◌, inl, inr, refl, sym, ap, subst, ◌∙◌, List, [],
  ◌∷◌, none, some, arith, length, count, remove as without, remove_head, remove_later, ℕ_discrete,
  update, update_self, update_ne,
}
use jump.HashId.{HashidNode, Hashid, free_node, bucket, clear, set_next, remove_after, remove}
use jump.HashId.Chains.{Chain, Chain-update, has_id_cases}

-- `t` is out of a chain behind `c`: its node is free, all other ids are as they were, and so is every
-- node that is neither `c` nor in the chain.
pub record Unlinked (hi : Hashid) (c : ℕ) (xs : List ℕ) (t : ℕ) (u : Hashid) : Type 0 where
  pub mine : 1 ≤ count t xs
  pub freed : u.nodes t ≡ free_node
  pub ids : (p : ℕ) → p ≢ t → (u.nodes p).id ≡ (hi.nodes p).id
  pub others : (p : ℕ) → p ≢ c → count p xs ≡ 0 → u.nodes p ≡ hi.nodes p
  pub chain : Chain u.nodes (u.nodes c).next (without t xs)
  pub rest : u ≡ record hi { nodes = u.nodes; count = hi.count - 1 }

apart : (c x : ℕ) (xs : List ℕ) → count c (x ∷ xs) ≡ 0 → (x ≢ c) × (count c xs ≡ 0)
unfolding count
apart c x xs e = elim (ℕ_discrete x c) [
  | yes q ↦ absurd (ground arith)
  | no nq ↦ (nq, ground arith)
]

once : (x : ℕ) (xs : List ℕ) → count x (x ∷ xs) ≤ 1 → count x xs ≡ 0
unfolding count
once x xs h = ground arith

count-le-cons : (p x : ℕ) (xs : List ℕ) → count p xs ≤ count p (x ∷ xs)
unfolding count
count-le-cons p x xs = ground arith

count_head : (x : ℕ) (xs : List ℕ) → 1 ≤ count x (x ∷ xs)
unfolding count
count_head x xs = ground arith

-- The node behind `c` goes.
unlink_next :
    (hi : Hashid) (c x : ℕ) (xs : List ℕ)
    → Chain hi.nodes (hi.nodes x).next xs
    → x ≢ c
    → count c xs ≡ 0
    → count x xs ≡ 0
    → Unlinked hi c (x ∷ xs) x (clear (set_next hi c (hi.nodes x).next) x)
unlink_next hi c x xs k ne out d =
    let n : HashidNode = record { id = (hi.nodes c).id; next = (hi.nodes x).next } in
    let at_c : update (update hi.nodes c n) x free_node c ≡ n =
      update_ne (update hi.nodes c n) x c free_node ne ∙ update_self hi.nodes c n in
    record {
      mine = count_head x xs;
      freed = update_self (update hi.nodes c n) x free_node;
      ids = λ p np.
          ap (λ y. y.id) (update_ne (update hi.nodes c n) x p free_node (λ q. np (sym q)))
          ∙ elim (ℕ_discrete c p) [
            | yes q ↦
                subst (λ y. (update hi.nodes c n y).id ≡ (hi.nodes y).id) q
                  (ap (λ y. y.id) (update_self hi.nodes c n))
            | no nq ↦ ap (λ y. y.id) (update_ne hi.nodes c p n nq)
          ];
      others = λ p np e.
          update_ne (update hi.nodes c n) x p free_node (apart p x xs e).0
          ∙ update_ne hi.nodes c p n (λ q. np (sym q));
      chain = rw (remove_head x xs) (
          subst (λ y. Chain (update (update hi.nodes c n) x free_node) y.next xs) (sym at_c)
            (Chain-update (update hi.nodes c n) x free_node (hi.nodes x).next xs d
              (Chain-update hi.nodes c n (hi.nodes x).next xs out k)));
      rest = refl;
    }

-- A node further on goes.
unlink_later :
    (hi : Hashid) (c x q : ℕ) (xs : List ℕ) (u : Hashid)
    → (hi.nodes c).next ≡ some x
    → x ≢ c
    → count c xs ≡ 0
    → count x xs ≡ 0
    → Unlinked hi x xs q u
    → Unlinked hi c (x ∷ xs) q u
unlink_later hi c x q xs u k ne out d w =
    let x_ne_q : x ≢ q = λ e. absurd (omega (arith, w.mine, d, ap (λ y. count y xs) e)) in
    record {
      mine = omega (arith, w.mine, count-le-cons q x xs);
      freed = w.freed;
      ids = w.ids;
      others = λ p np e. let (a, b) = apart p x xs e in w.others p (λ y. a (sym y)) b;
      chain =
          rw (remove_later q x xs x_ne_q)
            (ap (λ y. y.next) (w.others c (λ y. ne (sym y)) out) ∙ k, w.chain);
      rest = w.rest;
    }

remove_after_lem :
    (fuel : ℕ) (hi : Hashid) (c id : ℕ) (xs : List ℕ)
    → Chain hi.nodes (hi.nodes c).next xs
    → count c xs ≡ 0
    → ((p : ℕ) → count p xs ≤ 1)
    → length xs < fuel
    → ((t : ℕ) × (u : Hashid) × (remove_after fuel hi c id ≡ (some t, u))
        × ((hi.nodes t).id ≡ some id)
        × Unlinked hi c xs t u)
      ⊎ ((remove_after fuel hi c id ≡ (none, hi))
          × ((p : ℕ) → 1 ≤ count p xs → (hi.nodes p).id ≢ some id))
unfolding remove_after count
remove_after_lem zero hi c id xs k out d l = absurd (omega arith)
remove_after_lem (suc fuel) hi c id [] k out d l =
    rw (k, remove_after) (inr (refl, λ p h. absurd (omega arith)))
remove_after_lem (suc fuel) hi c id (x ∷ xs) (k, ks) out d l =
    let (ne_c, out') = apart c x xs out in
    let alone = once x xs (d x) in
    elim (has_id_cases hi x id) [
      | inl (t, e) ↦ inl (
        x,
        clear (set_next hi c (hi.nodes x).next) x,
        rw (k, t, remove_after) refl,
        e,
        unlink_next hi c x xs ks ne_c out' alone,
      )
      | inr (t, ne) ↦
          elim (remove_after_lem fuel hi x id xs ks alone
            (λ p. omega (arith, d p, count-le-cons p x xs)) (omega arith)) [
              | inl (q, u, run, e, w) ↦ inl (
                q,
                u,
                rw (k, t, remove_after) run,
                e,
                unlink_later hi c x q xs u k ne_c out' alone w,
              )
              | inr (run, no_one) ↦ inr (
                rw (k, t, remove_after) run,
                λ p h. elim (ℕ_discrete x p) [
                  | yes s ↦ λ i. ne (ap (λ y. (hi.nodes y).id) s ∙ i)
                  | no ns ↦ no_one p (ground (arith, h))
                ],
              )
            ]
    ]

-- What a removal from the chain `b` does to the table
pub record Removed (hi : Hashid) (xs : List ℕ) (b t : ℕ) (u : Hashid) : Type 0 where
  pub mine : 1 ≤ count t xs
  pub freed : u.nodes t ≡ free_node
  pub ids : (p : ℕ) → p ≢ t → (u.nodes p).id ≡ (hi.nodes p).id
  pub others : (p : ℕ) → count p xs ≡ 0 → u.nodes p ≡ hi.nodes p
  pub chain : Chain u.nodes (u.hash b) (without t xs)
  pub hashes : (h : ℕ) → b ≢ h → u.hash h ≡ hi.hash h
  pub sizes : (u.hashmod ≡ hi.hashmod) × (u.cap ≡ hi.cap) × (u.count ≡ hi.count - 1)

-- The first node of the chain goes.
remove_first :
    (hi : Hashid) (b c : ℕ) (xs : List ℕ)
    → Chain hi.nodes (hi.nodes c).next xs
    → count c xs ≡ 0
    → Removed hi (c ∷ xs) b c (clear (record hi { hash = update hi.hash b (hi.nodes c).next }) c)
remove_first hi b c xs k out = record {
  mine = count_head c xs;
  freed = update_self hi.nodes c free_node;
  ids = λ p np. ap (λ y. y.id) (update_ne hi.nodes c p free_node (λ q. np (sym q)));
  others = λ p e. update_ne hi.nodes c p free_node (apart p c xs e).0;
  chain = rw (remove_head c xs) (
      rw (update_self hi.hash b (hi.nodes c).next)
        (Chain-update hi.nodes c free_node (hi.nodes c).next xs out k));
  hashes = λ h ne. update_ne hi.hash b h (hi.nodes c).next ne;
  sizes = (refl, refl, refl);
}

remove_further :
    (hi : Hashid) (b c t : ℕ) (xs : List ℕ) (u : Hashid)
    → hi.hash b ≡ some c
    → count c xs ≡ 0
    → Unlinked hi c xs t u
    → Removed hi (c ∷ xs) b t u
remove_further hi b c t xs u k out w =
    let c_ne_t : c ≢ t = λ e. absurd (omega (arith, w.mine, out, ap (λ y. count y xs) e)) in
    record {
      mine = omega (arith, w.mine, count-le-cons t c xs);
      freed = w.freed;
      ids = w.ids;
      others = λ p e. let (a, o) = apart p c xs e in w.others p (λ y. a (sym y)) o;
      chain = rw (remove_later t c xs c_ne_t) (ap (λ y. y.hash b) w.rest ∙ k, w.chain);
      hashes = λ h ne. ap (λ y. y.hash h) w.rest;
      sizes = (ap (λ y. y.hashmod) w.rest, ap (λ y. y.cap) w.rest, ap (λ y. y.count) w.rest);
    }

-- Either the id is in its chain and goes, or the table stays.
pub remove_cases :
    (hi : Hashid) (id : ℕ) (xs : List ℕ)
    → Chain hi.nodes (hi.hash (bucket hi id)) xs
    → ((p : ℕ) → count p xs ≤ 1)
    → length xs ≤ hi.cap
    → ((t : ℕ) × (u : Hashid) × (remove hi id ≡ (some t, u))
        × ((hi.nodes t).id ≡ some id)
        × Removed hi xs (bucket hi id) t u)
      ⊎ ((remove hi id ≡ (none, hi)) × ((p : ℕ) → 1 ≤ count p xs → (hi.nodes p).id ≢ some id))
unfolding remove count
remove_cases hi id [] k d l = rw (k, remove) (inr (refl, λ p h. absurd (omega arith)))
remove_cases hi id (c ∷ xs) (k, ks) d l =
    let alone = once c xs (d c) in
    elim (has_id_cases hi c id) [
      | inl (t, e) ↦
          inl (c, _, rw (k, t, remove) refl, e, remove_first hi (bucket hi id) c xs ks alone)
      | inr (t, ne) ↦
          elim (remove_after_lem (hi.cap + 1) hi c id xs ks alone
            (λ p. omega (arith, d p, count-le-cons p c xs)) (omega arith)) [
              | inl (q, u, run, e, w) ↦ inl (
                q,
                u,
                rw (k, t, remove) run,
                e,
                remove_further hi (bucket hi id) c q xs u k alone w,
              )
              | inr (run, no_one) ↦ inr (
                rw (k, t, remove) run,
                λ p h. elim (ℕ_discrete c p) [
                  | yes s ↦ λ i. ne (ap (λ y. (hi.nodes y).id) s ∙ i)
                  | no ns ↦ no_one p (ground (arith, h))
                ],
              )
            ]
    ]
