-- ===== src/Service/Send/Tests.antt =====
-- Messages at concrete inputs.
use jump.Base.{
  ℕ, ◌≡◌, ◌*◌, ◌+◌, ◌^◌, arith, refl, inr, false, Option, none, some, [], ◌∷◌, count, update,
}
use jump.Handle.{grab}
use jump.Harbor.{harbor_init, message_isremote}
use jump.Mq.{Message}
use jump.Service.Tests.{created, started, started_reach, first_handle, no_queue}
use jump.Service.Send.{Process, Block, Args, bit_or, shift_type, tag_size, untag, send, minus_one}
use jump.Service.Send.Filter.{data_at, session_of}
use jump.Service.Send.Deliver.{Arrives, send_delivers}
use jump.Service.Send.Fail.{unknown_destination}

-- The string "Hi", which the caller keeps, is at 9.
abbrev greeting : ℕ → Option Block
greeting = update (λ _. none) 9 (some (record { bytes = 72 ∷ 105 ∷ []; malloced = false }))

abbrev process : Process
process = record {
  node = created;
  block = greeting;
  letter = λ _. none;
  harbor = harbor_init 1;
  remote = 0;
}

-- PTYPE_RESERVED_LUA with PTYPE_TAG_ALLOCSESSION
abbrev lua_request : ℕ
lua_request = 2 ^ 17 + 10

abbrev request : Args
request = record { session = 0; body = 9; sz = 2 }

tag_computes : tag_size 7 5 ≡ 7 * 2 ^ 24 + 5
unfolding tag_size bit_or shift_type
tag_computes = refl

send_delivers_example :
    (m : Message) × (v : Process) × (send process 100 101 5 0 first_handle lua_request request
      ≡ some (m.session, v))
    × Arrives started 5 m v.node
    × (m.session ≡ session_of created 5 lua_request 0)
    × (m.source ≡ created.handle 5)
    × (data_at v.block m.body 2 ≡ some (72 ∷ 105 ∷ []))
    × (untag m.sz ≡ (10, 2))
unfolding created data_at grab message_isremote harbor_init count update
send_delivers_example =
    send_delivers 1 no_queue process 100 101 5 0 first_handle lua_request 5 request started_reach
      (omega arith) (omega arith) (inr refl) (omega arith) refl refl (omega arith) refl

unknown_destination_example :
    (v : Process) × (send process 100 101 5 0 (first_handle + 1) lua_request request
      ≡ some (minus_one, v))
    × ((p : ℕ) → v.block p ≡ greeting p)
    × (v.node.mem ≡ created.mem)
unfolding created data_at grab message_isremote harbor_init count update
unknown_destination_example =
    unknown_destination 1 no_queue process 100 101 5 0 (first_handle + 1) lua_request request
      started_reach (omega arith) (omega arith) (inr refl) (omega arith) refl refl refl
      (omega arith) refl (omega arith) refl
