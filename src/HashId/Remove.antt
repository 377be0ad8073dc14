-- ===== src/HashId/Remove.antt =====
-- Taking an id out of the table.
use jump.Base.{
  ℕ, ◌+◌, ◌≤◌, ◌≡◌, ◌≢◌, ◌⊎◌, ◌↔◌, inl, inr, refl, sym, ap, subst, ◌∙◌, List, [], ◌∷◌, Option, none,
  some, arith, count, remove as without, count-remove_self, count-remove_ne, ==_no, ℕ_discrete,
  update, update_self, update_ne, Option-cases, some-eq, some-ne-none,
}
use jump.HashId.{HashidNode, Hashid, bucket, lookup, remove}
use jump.HashId.Chains.{
  Chain, wanted, wanted_le, wanted_own, used, used_more, IsValid, lookup_iff, same_lookup,
  length-chain,
}
use jump.HashId.Unlink.{Removed, remove_cases}

Chain-frame :
    (f g : ℕ → HashidNode) (o : Option ℕ) (xs : List ℕ)
    → ((p : ℕ) → 1 ≤ count p xs → g p ≡ f p)
    → Chain f o xs
    → Chain g o xs
unfolding count
Chain-frame f g o [] same e = e
Chain-frame f g o (x ∷ xs) same (e, d) =
    let at : g x ≡ f x = same x (ground arith) in
    (
      e,
      subst (λ y. Chain g y.next xs) (sym at)
          (Chain-frame f g (f x).next xs (λ p h. same p (ground (arith, h))) d),
    )

-- Two chains have no node in common.
one_chain :
    {hi : Hashid} {xs : ℕ → List ℕ} (b h p : ℕ)
    → IsValid hi xs
    → b ≢ h
    → 1 ≤ count p (xs h)
    → count p (xs b) ≡ 0
one_chain {hi} {xs} b h p v ne m = go (hi.nodes p).id (v.stands b p) (v.stands h p)
  where
    go :
        (o : Option ℕ)
        → count p (xs b) ≡ wanted (hi.hashmod + 1) b o
        → count p (xs h) ≡ wanted (hi.hashmod + 1) h o
        → count p (xs b) ≡ 0
    go none e f = e
    go (some i) e f = ground (arith, e, f, m)

module _ {hi : Hashid} {xs : ℕ → List ℕ} (id t : ℕ) (u : Hashid) (v : IsValid hi xs)
    (is : (hi.nodes t).id ≡ some id) (r : Removed hi (xs (bucket hi id)) (bucket hi id) t u) where
  abbrev b : ℕ
  b = bucket hi id

  abbrev lists : ℕ → List ℕ
  lists = update xs b (without t (xs b))

  freed_id : (u.nodes t).id ≡ none
  freed_id = ap (λ y. y.id) r.freed

  chain : (h : ℕ) → Chain u.nodes (u.hash h) (lists h)
  chain h = elim (ℕ_discrete b h) [
    | yes e ↦
        subst (λ k. Chain u.nodes (u.hash k) (lists k)) e
          (rw (update_self xs b (without t (xs b))) r.chain)
    | no ne ↦
        rw (update_ne xs b h (without t (xs b)) ne, r.hashes h ne)
          (Chain-frame hi.nodes u.nodes (hi.hash h) (xs h)
            (λ p m. r.others p (one_chain b h p v ne m)) (v.chains h))
  ]

  stands_mine : (p : ℕ) → count p (without t (xs b)) ≡ wanted (hi.hashmod + 1) b (u.nodes p).id
  stands_mine p = elim (ℕ_discrete t p) [
    | yes e ↦
        subst (λ k. count k (without t (xs b)) ≡ wanted (hi.hashmod + 1) b (u.nodes k).id) e
          (count-remove_self t (xs b)
            ∙ omega (arith, v.stands b t, wanted_le (hi.hashmod + 1) b (hi.nodes t).id)
            ∙ ap (wanted (hi.hashmod + 1) b) (sym freed_id))
    | no ne ↦
        count-remove_ne t p (xs b) ne
        ∙ v.stands b p
        ∙ ap (wanted (hi.hashmod + 1) b) (sym (r.ids p λ q. ne (sym q)))
  ]

  stands_other : (h p : ℕ) → b ≢ h → count p (xs h) ≡ wanted (hi.hashmod + 1) h (u.nodes p).id
  stands_other h p nb = elim (ℕ_discrete p t) [
    | yes e ↦
        subst (λ k. count k (xs h) ≡ wanted (hi.hashmod + 1) h (u.nodes k).id) (sym e)
          (v.stands h t
            ∙ ap (wanted (hi.hashmod + 1) h) is
            ∙ rw (==_no b h nb) refl
            ∙ ap (wanted (hi.hashmod + 1) h) (sym freed_id))
    | no ne ↦ v.stands h p ∙ ap (wanted (hi.hashmod + 1) h) (sym (r.ids p ne))
  ]

  stands : (h p : ℕ) → count p (lists h) ≡ wanted (hi.hashmod + 1) h (u.nodes p).id
  stands h p = elim (ℕ_discrete b h) [
    | yes e ↦
        subst (λ k. count p (lists k) ≡ wanted (hi.hashmod + 1) k (u.nodes p).id) e
          (rw (update_self xs b (without t (xs b))) (stands_mine p))
    | no ne ↦ rw (update_ne xs b h (without t (xs b)) ne) (stands_other h p ne)
  ]

  one_less : u.count + 1 ≡ hi.count
  one_less = omega (
    arith,
    r.sizes.2,
    v.counted,
    used_more u.nodes hi.nodes t id hi.cap r.ids freed_id is (v.inside t id is),
  )

  kept : (p i : ℕ) → (u.nodes p).id ≡ some i → (p ≢ t) × ((hi.nodes p).id ≡ some i)
  kept p i e = elim (ℕ_discrete p t) [
    | yes s ↦ absurd (some-ne-none (sym (ap (λ x. (u.nodes x).id) s) ∙ e) freed_id)
    | no ns ↦ (ns, sym (r.ids p ns) ∙ e)
  ]

  idle : (p : ℕ) → (u.nodes p).id ≡ none → (u.nodes p).next ≡ none
  idle p e = elim (ℕ_discrete p t) [
    | yes s ↦ ap (λ x. (u.nodes x).next) s ∙ ap (λ y. y.next) r.freed
    | no ns ↦
        let old = sym (r.ids p ns) ∙ e in
        ap (λ y. y.next) (r.others p (v.stands b p ∙ ap (wanted (hi.hashmod + 1) b) old))
        ∙ v.idle p old
  ]

  counted : u.count ≡ used u.nodes u.cap
  counted =
      omega (
        arith,
        one_less,
        v.counted,
        used_more u.nodes hi.nodes t id hi.cap r.ids freed_id is (v.inside t id is),
      )
      ∙ ap (used u.nodes) (sym r.sizes.1)

  removed-IsValid : IsValid u lists
  removed-IsValid = record {
    chains = chain;
    stands = λ h p. stands h p ∙ ap (λ m. wanted (m + 1) h (u.nodes p).id) (sym r.sizes.0);
    idle = idle;
    distinct = λ p q w e f. v.distinct p q w (kept p w e).1 (kept q w f).1;
    inside = λ p w e. let l = v.inside p w (kept p w e).1 in omega (arith, r.sizes.1);
    counted = counted;
  }

  ids : (p j : ℕ) → j ≢ id → ((u.nodes p).id ≡ some j) ↔ ((hi.nodes p).id ≡ some j)
  ids p j ne = (
    λ e. (kept p j e).1,
    λ e. elim (ℕ_discrete p t) [
      | yes s ↦ absurd (ne (some-eq (sym e ∙ ap (λ x. (hi.nodes x).id) s ∙ is)))
      | no ns ↦ r.ids p ns ∙ e
    ],
  )

  gone : lookup u id ≡ none
  gone = elim (Option-cases (lookup u id)) [
    | inl e ↦ e
    | inr (p, e) ↦
        let (ne, old) = kept p id ((lookup_iff id p removed-IsValid).0 e) in
        absurd (ne (v.distinct p t id old is))
  ]

-- In a table in order, `hashid_remove` gives the place where `hashid_lookup` finds the id, and none if
-- it finds none. Afterwards the table is in order with one id less, or as many if there was none, the id
-- is not found, and every other id is found where it was.
pub remove_lem :
    {hi : Hashid} {xs : ℕ → List ℕ} (id : ℕ)
    → IsValid hi xs
    → let (o, u) = remove hi id in
      (o ≡ lookup hi id)
      × ((ys : ℕ → List ℕ) × IsValid u ys)
      × ((o ≡ none) ⊎ (u.count + 1 ≡ hi.count))
      × (o ≡ none → u.count ≡ hi.count)
      × (lookup u id ≡ none)
      × ((j : ℕ) → j ≢ id → lookup u j ≡ lookup hi j)
remove_lem {hi} {xs} id v =
    let once : (p : ℕ) → count p (xs (bucket hi id)) ≤ 1 = λ p. omega (
      arith,
      v.stands (bucket hi id) p,
      wanted_le (hi.hashmod + 1) (bucket hi id) (hi.nodes p).id,
    ) in
    elim (remove_cases hi id (xs (bucket hi id)) (v.chains (bucket hi id)) once
      (length-chain v (bucket hi id))) [
        | inl (t, u, run, e, r) ↦ rw run (
          sym ((lookup_iff id t v).1 e),
          (lists id t u v e r, removed-IsValid id t u v e r),
          inr (one_less id t u v e r),
          λ n. absurd (some-ne-none refl n),
          gone id t u v e r,
          λ j ne. same_lookup j (removed-IsValid id t u v e r) v λ p. ids id t u v e r p j ne,
        )
        | inr (run, no_one) ↦
            let none_found : lookup hi id ≡ none = elim (Option-cases (lookup hi id)) [
              | inl n ↦ n
              | inr (p, e) ↦
                  let own = (lookup_iff id p v).0 e in
                  absurd (
                    no_one p (omega (arith, v.stands (bucket hi id) p, wanted_own hi id p own)) own)
            ] in
            rw run (sym none_found, (xs, v), inl refl, λ n. refl, none_found, λ j ne. refl)
      ]
