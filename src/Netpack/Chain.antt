-- ===== src/Netpack/Chain.antt =====
-- The packets that are incomplete: one for a descriptor at most, which `find_uncomplete` takes out.
use jump.Base.{
  ℕ, ◌/◌, ◌%◌, ◌^◌, ◌<◌, ◌≡◌, ◌≢◌, refl, sym, ap, subst, ◌∙◌, List, [], ◌∷◌, arith, Option, none,
  some, length, ◌==◌, if◌then◌else◌, Bool-cases, inl, inr, ==_iff, ==_no, update, update_self,
  at_update, some-eq,
}
use jump.Netpack.{Uncomplete, Queue, hash_fd, unlink_fd, find_uncomplete}

-- What has come of a packet: the first byte of its header, or the header and the bytes that are there
unfoldable pub waiting : Uncomplete → List ℕ
waiting uc = elim uc.read [
  | none ↦ uc.header ∷ []
  | some r ↦ uc.size / 2 ^ 8 ∷ uc.size % 2 ^ 8 ∷ uc.buffer
]

-- `read` counts the bytes, and some are missing.
unfoldable pub Partial : Uncomplete → Type 0
Partial uc = elim uc.read [
  | none ↦ Unit {0}
  | some r ↦ (r ≡ length uc.buffer) × (length uc.buffer < uc.size)
]

abbrev pub Absent : ℕ → List Uncomplete → Type 0
Absent fd [] = Unit {0}
Absent fd (uc ∷ ucs) = (uc.id ≢ fd) × Absent fd ucs

abbrev pub IsChain : List Uncomplete → Type 0
IsChain [] = Unit {0}
IsChain (uc ∷ ucs) = Partial uc × Absent uc.id ucs × IsChain ucs

unfoldable pub pending_in : ℕ → List Uncomplete → List ℕ
pending_in fd [] = []
pending_in fd (uc ∷ ucs) = if uc.id == fd then waiting uc else pending_in fd ucs

pub pending_absent : (fd : ℕ) (ucs : List Uncomplete) → Absent fd ucs → pending_in fd ucs ≡ []
unfolding pending_in
pending_absent fd [] a = refl
pending_absent fd (uc ∷ ucs) (ne, a) = rw (==_no uc.id fd ne, pending_in) (pending_absent fd ucs a)

-- What is unlinked, and what stays
pub record Unlinked (fd : ℕ) (ucs : List Uncomplete) (o : Option Uncomplete)
    (rest : List Uncomplete) : Type 0 where
  pub chain : IsChain rest
  pub absent : Absent fd rest
  pub kept : (g : ℕ) → Absent g ucs → Absent g rest
  pub same : (g : ℕ) → fd ≢ g → pending_in g rest ≡ pending_in g ucs
  pub lost : o ≡ none → pending_in fd ucs ≡ []
  pub found :
      (uc : Uncomplete) → o ≡ some uc → (uc.id ≡ fd) × Partial uc × (pending_in fd ucs ≡ waiting uc)

pub unlink_fd_lem :
    (fd : ℕ) (ucs : List Uncomplete)
    → IsChain ucs
    → Unlinked fd ucs (unlink_fd fd ucs).0 (unlink_fd fd ucs).1
unfolding unlink_fd pending_in
unlink_fd_lem fd [] c = record {
  chain = c;
  absent = tt;
  kept = λ g a. a;
  same = λ g ne. refl;
  lost = λ e. refl;
  found = λ uc e. cc;
}
unlink_fd_lem fd (uc ∷ ucs) (p, a, c) = elim (Bool-cases (uc.id == fd)) [
  | inl e ↦
      let is_fd : uc.id ≡ fd = (==_iff uc.id fd).0 e in
      rw (e, unlink_fd)
        (record {
          chain = c;
          absent = subst (λ x. Absent x ucs) is_fd a;
          kept = λ g b. b.1;
          same = λ g ne. rw (==_no uc.id g (λ z. ne (sym is_fd ∙ z)), pending_in) refl;
          lost = λ z. cc;
          found = λ x z.
              subst (λ y. (y.id ≡ fd) × Partial y × (pending_in fd (uc ∷ ucs) ≡ waiting y))
                (some-eq z) (is_fd, p, rw (e, pending_in) refl);
        })
  | inr e ↦
      let u = unlink_fd_lem fd ucs c in
      let ne : uc.id ≢ fd = ground (arith, e) in
      rw (e, unlink_fd)
        (record {
          chain = (p, u.kept uc.id a, u.chain);
          absent = (ne, u.absent);
          kept = λ g b. (b.0, u.kept g b.1);
          same = λ g n. ap (λ x. if uc.id == g then waiting uc else x) (u.same g n);
          lost = λ z. rw (e, pending_in) (u.lost z);
          found = λ x z. rw (e, pending_in) (u.found x z);
        })
]

-- The bytes that have come for a descriptor since its last packet
unfoldable pub pending : (ℕ → List Uncomplete) → ℕ → List ℕ
pending hash fd = pending_in fd (hash (hash_fd fd))

abbrev pub IsTable : (ℕ → List Uncomplete) → Type 0
IsTable hash = (h : ℕ) → IsChain (hash h)

-- A chain changes, and with it what waits for one descriptor only.
pending_other :
    (hash : ℕ → List Uncomplete) (fd g : ℕ) (ucs : List Uncomplete)
    → pending_in g ucs ≡ pending_in g (hash (hash_fd fd))
    → pending (update hash (hash_fd fd) ucs) g ≡ pending hash g
unfolding pending
pending_other hash fd g ucs e =
    at_update (λ h x. h ≡ hash_fd g → pending_in g x ≡ pending_in g (hash (hash_fd g))) hash
      (hash_fd fd) ucs (λ z. e ∙ ap (λ h. pending_in g (hash h)) z)
      (λ h ne z. ap (λ h. pending_in g (hash h)) z) (hash_fd g) refl

-- What `find_uncomplete` takes out is what waits for the descriptor.
pub record Found (hash : ℕ → List Uncomplete) (fd : ℕ) (o : Option Uncomplete)
    (after : ℕ → List Uncomplete) : Type 0 where
  pub table : IsTable after
  pub absent : Absent fd (after (hash_fd fd))
  pub same : (g : ℕ) → fd ≢ g → pending after g ≡ pending hash g
  pub lost : o ≡ none → pending hash fd ≡ []
  pub found :
      (uc : Uncomplete) → o ≡ some uc → (uc.id ≡ fd) × Partial uc × (pending hash fd ≡ waiting uc)

pub find_uncomplete_lem :
    (q : Queue) (fd : ℕ)
    → IsTable q.hash
    → Found q.hash fd (find_uncomplete q fd).0 (find_uncomplete q fd).1.hash
unfolding find_uncomplete pending
find_uncomplete_lem q fd t =
    let h = hash_fd fd in
    let rest = (unlink_fd fd (q.hash h)).1 in
    let u = unlink_fd_lem fd (q.hash h) (t h) in
    record {
      table = at_update (λ h x. IsChain x) q.hash h rest u.chain (λ k ne. t k);
      absent = subst (Absent fd) (sym (update_self q.hash h rest)) u.absent;
      same = λ g ne. pending_other q.hash fd g rest (u.same g ne);
      lost = u.lost;
      found = u.found;
    }

-- What is linked waits for its descriptor.
pub link_lem :
    (hash : ℕ → List Uncomplete) (fd : ℕ) (uc : Uncomplete)
    → IsTable hash
    → Absent fd (hash (hash_fd fd))
    → Partial uc
    → uc.id ≡ fd
    → let after = update hash (hash_fd fd) (uc ∷ hash (hash_fd fd)) in
      IsTable after
      × (pending after fd ≡ waiting uc)
      × ((g : ℕ) → fd ≢ g → pending after g ≡ pending hash g)
unfolding pending pending_in
link_lem hash fd uc t a p e =
    let h = hash_fd fd in
    (
      at_update (λ k x. IsChain x) hash h (uc ∷ hash h)
          (p, subst (λ x. Absent x (hash h)) (sym e) a, t h) (λ k ne. t k),
      ap (pending_in fd) (update_self hash h (uc ∷ hash h))
          ∙ rw ((==_iff uc.id fd).1 e, pending_in) refl,
      λ g ne.
          pending_other hash fd g (uc ∷ hash h)
            (rw (==_no uc.id g (λ z. ne (sym e ∙ z)), pending_in) refl),
    )
