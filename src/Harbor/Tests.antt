-- ===== src/Harbor/Tests.antt =====
-- Remote handles at concrete nodes.
use jump.Base.{
  ℕ, ◌+◌, ◌*◌, ◌%◌, ◌^◌, ◌≡◌, ◌≢◌, inr, refl, true, false, some, none, arith, get_or-replicate,
  some-ne-none, Option,
}
use jump.Handle.{Storage, default_slot_size, init, register}
use jump.Handle.Table.{Absent}
use jump.Handle.Register.{init_lem}
use jump.Harbor.{harbor_init, message_isremote}
use jump.Harbor.Local.{register_local}

-- The handle 5 of the node 2, at the node 1
remote : message_isremote (harbor_init 1) (2 * 2 ^ 24 + 5) ≡ true
unfolding message_isremote harbor_init
remote = refl

abbrev node : ℕ
node = 1

no_handle : ℕ → ℕ
no_handle c = 0

nobody : Absent (init 1) 9
unfolding init
nobody i e = some-ne-none e (get_or-replicate {A = Option ℕ} default_slot_size i none)

register_local_example :
    (h : ℕ) × (t : Storage) × (register no_handle (init 1) 9 ≡ some (h, t))
    × (message_isremote (harbor_init 1) h ≡ false)
    × ((m : ℕ) → m % 2 ^ 8 ≢ node → node ≢ 0 → message_isremote (harbor_init m) h ≡ true)
unfolding init
register_local_example = register_local 9 1 (init_lem no_handle 1).0 nobody (inr (omega arith)) refl
