-- ===== src/Mq/Tests.antt =====
-- Runs of the message queues, and the theorems at concrete queues and histories.
use jump.Base.{
  ℕ, ◌+◌, ◌*◌, ◌<◌, ◌≤◌, ◌≡◌, ◌≢◌, inl, refl, true, List, [], ◌∷◌, ◌++◌, none, some, arith, count,
  update, remove, map,
}
use jump.Mq.{
  Message, MessageQueue, create, mq_length, pop, push, slots, expand_queue, expand_if_full,
  write_tail, take_head, next_head, length_after, raise_threshold,
}
use jump.Mq.Ring.{IsValid, contents, create-IsValid, pop_front, pop_refines}
use jump.Mq.Push.{push-IsValid, push_refines}
use jump.Mq.Drop.{drop_queue_lem, pop_overload}
use jump.Mq.Global
use jump.Mq.Global.{Global, IsList, init_lem, push_lem, pop_lem, first, rest}
use jump.Mq.Memory.{store, drop_queue, enqueue, mq_push, mark_release, mq_release}
use jump.Mq.Owners.{World, Reach, here, step, make, give, send, empty}
use jump.Mq.Owners.Safety.{single_owner, no_lost_queue, no_assertion_fails}

abbrev message : ℕ → Message
message n = record { source = 1; session = n; body = 0; sz = 0 }

abbrev one : MessageQueue
one = (push (create 7) (message 1)).0

one-IsValid : IsValid one
one-IsValid = push-IsValid (message 1) (create-IsValid 7)

-- A ring of two slots with one message; the next push makes it grow.
abbrev small : MessageQueue
small = record {
  handle = 7;
  cap = 2;
  head = 1;
  tail = 0;
  release = 0;
  in_global = 0;
  overload = 0;
  overload_threshold = 1024;
  queue = message 0 ∷ message 1 ∷ [];
}

small-IsValid : IsValid small
small-IsValid = record {
  size = refl;
  head_in = omega arith;
  tail_in = omega arith;
  threshold_pos = omega arith;
}

small_grows : (push small (message 2)).0.cap ≡ 4
unfolding push expand_if_full write_tail expand_queue
small_grows = refl

small_drops : map (λ m. m.session) (drop_queue 9 (push small (message 2)).0).0 ≡ 1 ∷ 2 ∷ []
unfolding drop_queue push expand_if_full write_tail expand_queue pop take_head slots next_head
    length_after raise_threshold
small_drops = refl

push_refines_example :
    (contents (push small (message 2)).0 ≡ contents small ++ message 2 ∷ [])
    × IsValid (push small (message 2)).0
push_refines_example = push_refines (message 2) small-IsValid

pop_refines_example :
    let (m, r) = pop small in ((m, contents r) ≡ pop_front (contents small)) × IsValid r
pop_refines_example = pop_refines small-IsValid

drop_queue_lem_example :
    ((drop_queue small.cap small).0 ≡ contents small)
    × (contents (drop_queue small.cap small).1 ≡ [])
drop_queue_lem_example = drop_queue_lem small-IsValid

pop_overload_example :
    let r = (pop small).1 in
    (mq_length r ≤ r.overload_threshold)
    × (mq_length r ≤ small.overload_threshold
        → (r.overload ≡ small.overload) × (r.overload_threshold ≡ small.overload_threshold))
    × (small.overload_threshold < mq_length r
        → (r.overload ≡ mq_length r) × (r.overload_threshold < mq_length r * 2))
pop_overload_example = pop_overload small-IsValid (omega arith)

pop_lem_example : (h : Global) × (Global.pop Global.init ≡ some (none, h)) × IsList h []
pop_lem_example = pop_lem [] init_lem

-- Service 9 is made with the queue 5, which goes to the global queue, and a message is sent to it.
abbrev made : World
made = record {
  mem = store (empty small).mem 5 (create 9);
  live = update (empty small).live 5 true;
  held = 5 ∷ [];
}

abbrev listed : Global
listed = record { next = Global.init.next; head = some 5; tail = some 5 }

abbrev given : World
given = record made {
  mem = record { ring = made.mem.ring; global = listed };
  held = remove 5 made.held;
}

abbrev sent : World
sent = record given { mem = store given.mem 5 (push (given.mem.ring 5) (message 1)).0 }

history : Reach (empty small) sent
unfolding enqueue Global.push Global.init count update create mq_push push expand_if_full write_tail
history =
    step (step (step here (make (empty small) 5 9 refl)) (give made 5 (omega arith) refl))
      (send given 5 (message 1) refl refl refl)

single_owner_example :
    (xs : List ℕ) × IsList sent.mem.global xs × ((p : ℕ) → count p xs + count p sent.held ≤ 1)
single_owner_example = single_owner small history

no_lost_queue_example :
    (xs : List ℕ) × IsList sent.mem.global xs × (1 ≤ count 5 xs + count 5 sent.held)
unfolding update create push expand_if_full write_tail slots mq_length
no_lost_queue_example = no_lost_queue small 5 history refl (inl sent_full)
  where
    sent_full : contents (sent.mem.ring 5) ≢ []
    sent_full = cc

no_assertion_fails_example :
    (sent.live 5 ≡ true
      → (sent.mem.ring 5).release ≡ 0
      → (((m : Message) → mq_push sent.mem 5 m ≢ none) × (mark_release sent.mem 5 ≢ none)))
    × (1 ≤ count 5 sent.held → (enqueue sent.mem 5 ≢ none) × (mq_release sent.mem 5 ≢ none))
    × (Global.pop sent.mem.global ≢ none)
no_assertion_fails_example = no_assertion_fails small 5 history
