-- ===== src/Harbor/Local.antt =====
-- The handles of this node are not remote.
use jump.Base.{
  ℕ, ◌*◌, ◌/◌, ◌%◌, ◌^◌, ◌≤◌, ◌≡◌, ◌≢◌, ◌⊎◌, ◌↔◌, sym, ◌∙◌, true, false, some, none, arith,
  Bool-cases, inl, inr,
}
use jump.Handle.{Storage, find_free, register, init}
use jump.Handle.Table.{IsValid, Absent}
use jump.Handle.Register.{register_lem}
use jump.Harbor.{harbor_init, message_isremote}

-- A handle is remote if and only if its high byte is neither 0 nor that of this node.
pub remote_iff :
    (n handle : ℕ)
    → (message_isremote (harbor_init n) handle ≡ true)
      ↔ ((handle / 2 ^ 24 ≢ n % 2 ^ 8) × (handle / 2 ^ 24 ≢ 0))
unfolding message_isremote harbor_init
remote_iff n handle = ground arith

-- Registration in a table of the node `n` that is in order, does not have the context, and has room
-- gives a handle that is not remote at that node, and is remote at every node but `n` (modulo 256),
-- unless `n` is 0 (modulo 256).
pub register_local :
    {handles : ℕ → ℕ} {s : Storage} (ctx n : ℕ)
    → IsValid handles s
    → Absent s ctx
    → (find_free s s.slot_size 0 ≢ none) ⊎ (s.slot_size * 2 ≤ 2 ^ 24)
    → s.harbor ≡ (init n).harbor
    → (h : ℕ) × (t : Storage) × (register handles s ctx ≡ some (h, t))
      × (message_isremote (harbor_init n) h ≡ false)
      × ((m : ℕ)
          → m % 2 ^ 8 ≢ n % 2 ^ 8
          → n % 2 ^ 8 ≢ 0
          → message_isremote (harbor_init m) h ≡ true)
unfolding init
register_local ctx n v gone room e =
    let (h, t, run, r) = register_lem ctx v gone room in
    let node : h / 2 ^ 24 ≡ n % 2 ^ 8 = omega (arith, r.node, e) in
    (
      h,
      t,
      run,
      elim (Bool-cases (message_isremote (harbor_init n) h)) [
        | inl q ↦ absurd (((remote_iff n h).0 q).0 node)
        | inr q ↦ q
      ],
      λ m ne nz. (remote_iff m h).1 (λ q. ne (sym q ∙ node), λ q. nz (sym node ∙ q)),
    )
