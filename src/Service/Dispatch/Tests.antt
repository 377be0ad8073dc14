-- ===== src/Service/Dispatch/Tests.antt =====
-- The dispatch at concrete inputs.
use jump.Base.{
  map, update_self, ◌+◌, ◌*◌, ◌^◌, Option, ℕ, ◌≡◌, refl, sym, ap, ◌∙◌, true, false, none, some,
  List, [], ◌∷◌, ◌++◌, append-nil, update, take, drop,
}
use jump.Mq.{Message, MessageQueue, create, push}
use jump.Mq.Ring.{IsValid, contents, contents-nil, create-IsValid}
use jump.Mq.Push.{push_refines, push-IsValid}
use jump.Mq.Memory.{store}
use jump.Monitor
use jump.Service.{Context, new_context}
use jump.Timer as Timers
use jump.Service.Tests.{started, started_reach, first_handle, created, no_queue}
use jump.Handle.{grab}
use jump.Service.{Node, context_push, handle_grab, slot_alive}
use jump.Service.Timeout.{response, dispatch_list, timeout, queue_named, due, dispatch_list_lem}
use jump.Service.Send.{Process, Block, minus_one}
use jump.Service.Dispatch.{Call, Callback, Ran, run}
use jump.Service.Dispatch.Order.{Works, messages, IsCalm, further, call_of, run_lem}

abbrev ping : ℕ → Message
ping session = record { source = 1; session = session; body = 0; sz = 0 }

-- A queue with three messages
abbrev two_in : MessageQueue
two_in = (push (push (create first_handle) (ping 1)).0 (ping 2)).0

abbrev three_in : MessageQueue
three_in = (push two_in (ping 3)).0

two_in-IsValid : IsValid two_in
two_in-IsValid = push-IsValid (ping 2) (push-IsValid (ping 1) (create-IsValid first_handle))

empty_contents : contents (create first_handle) ≡ []
unfolding create
empty_contents = contents-nil (create-IsValid first_handle) refl

three_contents : contents three_in ≡ ping 1 ∷ ping 2 ∷ ping 3 ∷ []
three_contents =
    (push_refines (ping 3) two_in-IsValid).0
    ∙ ap (λ xs. xs ++ ping 3 ∷ [])
        ((push_refines (ping 2) (push-IsValid (ping 1) (create-IsValid first_handle))).0
          ∙ ap (λ xs. xs ++ ping 2 ∷ [])
              ((push_refines (ping 1) (create-IsValid first_handle)).0
                ∙ ap (λ xs. xs ++ ping 1 ∷ []) empty_contents))

abbrev running : Context
running = record (new_context 7) { cb = true; init = true }

abbrev busy : Process
busy = record {
  node = record started.node {
    context = update (λ _. none) 5 (some running);
    mem = store started.node.mem 7 three_in;
  };
  block = λ _. none;
  letter = λ _. none;
  harbor = 0;
  remote = 0;
}

abbrev bytes_of : Option Block → List ℕ
bytes_of none = []
bytes_of (some b) = b.bytes

-- The bytes at 9
abbrev book : Process → List ℕ
book w = bytes_of (w.block 9)

-- A callback that notes the session, the type and the size at 9
abbrev note : Call → ℕ
note call = call.session + 2 ^ 32 * (call.type + 2 ^ 32 * call.sz)

abbrev noted : Process → Call → Block
noted w call = record { bytes = book w ++ note call ∷ []; malloced = true }

abbrev keeper : Callback
keeper w p call = some (true, record w { block = update w.block 9 (some (noted w call)) })

keeper-IsCalm : IsCalm keeper 7 5 book note
keeper-IsCalm w call k = (
  record w { block = update w.block 9 (some (noted w call)) },
  [],
  refl,
  record { ring = k.ring; context = k.context; at = k.at; cb = k.cb; init = k.init },
  sym (append-nil (messages w 7)),
  ap bytes_of (update_self w.block 9 (some (noted w call))),
)

busy-Works : Works busy 7 5
unfolding update
busy-Works = record {
  ring = push-IsValid (ping 3) two_in-IsValid;
  context = running;
  at = refl;
  cb = refl;
  init = refl;
}

busy_messages : messages busy 7 ≡ ping 1 ∷ ping 2 ∷ ping 3 ∷ []
unfolding update
busy_messages = three_contents

run_lem_example :
    (s : Ran) × (new : List Message) × (run keeper busy Monitor.new 7 5 first_handle (some 0)
      ≡ some s)
    × (book s.process
        ≡ map (λ m. note (call_of m)) (ping 1 ∷ take (further (some 0) 2) (ping 2 ∷ ping 3 ∷ [])))
    × (s.drained ≡ false)
    × Works s.process 7 5
    × (messages s.process 7 ≡ drop (further (some 0) 2) (ping 2 ∷ ping 3 ∷ []) ++ new)
run_lem_example =
    run_lem keeper book note busy Monitor.new 7 5 first_handle (some 0) (ping 1)
      (ping 2 ∷ ping 3 ∷ []) keeper-IsCalm (λ w q r. refl) busy-Works busy_messages

-- Two timers of the first service, and one whose service does not exist
abbrev timers : List Timers.Node
timers =
    record { expire = 9; handle = first_handle; session = 3 }
    ∷ record { expire = 9; handle = 2; session = 4 }
    ∷ record { expire = 9; handle = first_handle; session = 5 }
    ∷ []

due_computes : due (queue_named created) 7 timers ≡ response 3 ∷ response 5 ∷ []
unfolding created grab update
due_computes = refl

dispatch_list_lem_example :
    (n : Node) × (dispatch_list created timers ≡ some n)
    × ((q : ℕ)
        → contents (n.mem.ring q)
          ≡ contents (created.mem.ring q) ++ due (queue_named created) q timers)
dispatch_list_lem_example = dispatch_list_lem 1 no_queue timers started_reach

-- A timeout of 0 for a handle that names no service
timeout_fails : (t : Timers.Timer) → timeout created t 2 0 7 ≡ some (minus_one, created, t)
unfolding timeout context_push handle_grab slot_alive created grab update
timeout_fails t = refl
