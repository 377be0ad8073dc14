-- ===== src/Gate/Tests.antt =====
-- A gate at a concrete input.
use jump.Base.{◌≡◌, arith, refl, some, List, [], ◌∷◌, some-ne-none}
use jump.DataBuffer.Dispatch.{zeroed-IsValid}
use jump.HashId.Init.{cap-init, init-IsValid, nothing_found}
use jump.Gate.{Gate, gate_init, Effect, accept, dispatch_socket_message, is_listen}
use jump.Gate.Connections.{IsGate, Changes, Comes, Settings, dispatch_socket_message_lem}

-- A gate for two connections that listens at the socket 3; the watchdog is the service 9.
abbrev listening : Gate
listening = record (gate_init 2 9 0 2) { listen_id = some 3 }

listening-IsGate : IsGate listening
unfolding gate_init
listening-IsGate =
    let empty = nothing_found 2 in
    record {
      lists = λ h. [];
      table = init-IsValid 2;
      places = λ p. record {
        agrees = λ j. (λ e. absurd (some-ne-none e refl), λ e. absurd (some-ne-none e (empty j)));
        idle = λ e. refl;
        buffer = zeroed-IsValid;
      };
    }

new_socket : Comes listening (accept 3 5 (49 ∷ []))
unfolding Comes is_listen gate_init
new_socket = (refl, nothing_found 2 5, omega (arith, cap-init 2))

dispatch_socket_message_lem_example :
    (effects : List Effect) × (t : Gate) × (dispatch_socket_message listening (accept 3 5 (49 ∷ []))
      ≡ some (effects, t))
    × IsGate t
    × Changes listening (accept 3 5 (49 ∷ [])) effects t
    × Settings listening t
unfolding gate_init
dispatch_socket_message_lem_example =
    dispatch_socket_message_lem listening (accept 3 5 (49 ∷ [])) listening-IsGate (omega arith)
      new_socket
