-- ===== src/Service/Tests.antt =====
-- Services at concrete inputs.
use jump.Base.{
  List, ◌++◌, ◌-◌, ℕ, ◌≤◌, ◌≡◌, ◌≢◌, ◌+◌, ◌^◌, arith, refl, Bool, true, false, Option, none, some,
  [], ◌∷◌, count, update, remove, get_or-replicate, ◌%◌,
}
use jump.Handle.{
  slot_at, hash, grab, init, register, register_loop, find_free, occupy, retire, default_slot_size,
}
use jump.Handle.Names.{retire_all, drop_names}
use jump.Mq.{Message, MessageQueue, create}
use jump.Mq.Memory.{mark_release}
use jump.Service.{
  Node, Context, new_context, context_new, context_release, delete_context, queue_push, handle_grab,
  handle_take, handle_retire, context_push, context_reserve, context_grab, set_init, slot_alive,
}
use jump.Service.Step.{System, start, reserve, unname, drop, delete, Reach, here, next}
use jump.Mq.Global.{IsList}
use jump.Service.Launch.{launched, launched_lem}
use jump.Service.Refs.{stored, present}
use jump.Service.Safety.{idle, calls_find_contexts, reference_count, all_freed}

abbrev pub no_queue : MessageQueue
no_queue = create 0

abbrev pub hello : Message
hello = record { source = 1; session = 2; body = 3; sz = 4 }

abbrev pub start_node : System
start_node = idle 1 no_queue

-- The node that a call leaves
abbrev after : {A : Type 0} → Option (A × Node) → Node
after none = start_node.node
after (some (a, n)) = n

-- The service at 5, whose queue is at 7, gets the first handle of harbor 1.
abbrev pub first_handle : ℕ
first_handle = 2 ^ 24 + 1

unfoldable pub created : Node
unfolding context_new register register_loop find_free occupy init
created = after (context_new start_node.node 5 7)

abbrev pub started : System
started = record {
  node = created;
  live = update (λ _. false) 7 true;
  held = 7 ∷ [];
  alive = 5 ∷ [];
  refs = 5 ∷ [];
  reserves = 0;
}

pub started_reach : Reach start_node started
unfolding created
started_reach = next here (start 5 7 {h = first_handle} refl refl refl)

named : Node
unfolding created handle_take retire_all retire grab drop_names update slot_alive hash slot_at
named = after (handle_take created first_handle)

given_back : Node
unfolding named context_release
given_back = after (context_release named 5)

deleted : Node
unfolding given_back context_release delete_context mark_release
deleted = after (context_release given_back 5)

abbrev ended : System
ended = record {
  node = deleted;
  live = started.live;
  held = 7 ∷ [];
  alive = [];
  refs = [];
  reserves = 0;
}

ended_reach : Reach start_node ended
unfolding deleted created count remove create
ended_reach =
    next (next (next started_reach (unname first_handle {p = 5} refl)) (drop 5 (omega arith) refl))
      (delete 5 (omega arith) refl)

calls_find_contexts_example :
    ((r : Option ℕ × Node) × (handle_grab created first_handle ≡ some r))
    × ((r : Bool × Node) × (handle_retire created first_handle ≡ some r))
    × ((r : Bool × Node) × (context_push created first_handle hello ≡ some r))
    × (1 ≤ count 5 (5 ∷ [])
        → ((n : Node) × (queue_push created 5 hello ≡ some n))
          × ((r : Bool × Node) × (context_release created 5 ≡ some r))
          × ((n : Node) × (context_reserve created 5 ≡ some n)))
calls_find_contexts_example = calls_find_contexts 1 no_queue first_handle 5 hello started_reach

reference_count_example :
    ((c : Context)
      → created.context 5 ≡ some c
      → (c.ref ≡ count 5 (5 ∷ []) + stored created.handle created.storage 5) × (1 ≤ c.ref))
    × (created.context 5 ≡ none
        → (count 5 (5 ∷ []) ≡ 0) × ((h : ℕ) → grab created.handle created.storage h ≢ some 5))
    × ((created.total + 0) % 2 ^ 32 ≡ 1 % 2 ^ 32)
    × (count 5 (5 ∷ []) ≡ present (created.context 5))
reference_count_example = reference_count 1 no_queue 5 started_reach

-- A service that is retired before `skynet_context_new` writes `init`: the context is gone.
late_init : set_init deleted 5 ≡ none
unfolding set_init deleted update create
late_init = refl

-- A service that was reserved, and is freed: the count is below 0.
reserved : Node
unfolding named context_reserve context_grab
reserved = elim (context_reserve named 5) [ none ↦ start_node.node | some n ↦ n ]

reserved_deleted : Node
unfolding reserved context_release delete_context mark_release
reserved_deleted =
    after (context_release (after (context_release (after (context_release reserved 5)) 5)) 5)

count_below : reserved_deleted.total ≡ 2 ^ 32 - 1
unfolding reserved_deleted create
count_below = refl

-- The history of it
abbrev over : System
over = record {
  node = reserved_deleted;
  live = started.live;
  held = 7 ∷ [];
  alive = [];
  refs = [];
  reserves = 1;
}

over_reach : Reach start_node over
unfolding reserved_deleted created count remove create
over_reach =
    let unnamed_reach = next started_reach (unname first_handle {p = 5} refl) in
    let reserved_reach = next unnamed_reach (reserve 5 (omega arith) refl) in
    next (next (next reserved_reach (drop 5 (omega arith) refl)) (drop 5 (omega arith) refl))
      (delete 5 (omega arith) refl)

unnamed : (h : ℕ) → grab over.node.handle over.node.storage h ≡ none
unfolding reserved_deleted grab create
unnamed h =
    rw (get_or-replicate {A = Option ℕ} default_slot_size (h % default_slot_size) none, grab) refl

all_freed_example :
    ((reserved_deleted.total + 1) % 2 ^ 32 ≡ 0) × ((p : ℕ) → reserved_deleted.context p ≡ none)
all_freed_example = all_freed 1 no_queue over_reach unnamed refl

-- The first service starts.
launched_lem_example :
    (n : Node) × (launched created 5 7 ≡ some (true, n))
    × (n.context 5 ≡ some (record (new_context 7) { ref = 1; init = true }))
    × ((q : ℕ) → 5 ≢ q → n.context q ≡ created.context q)
    × (n.mem.ring ≡ created.mem.ring)
    × ((xs : List ℕ) × IsList created.mem.global xs × IsList n.mem.global (xs ++ 7 ∷ []))
unfolding created update grab count
launched_lem_example = launched_lem 1 no_queue 5 started_reach refl (omega arith) refl (omega arith)
