-- ===== src/Gate.antt =====
-- service-src/service_gate.c: the connections of a gate, what it does with the messages of sockets, and
-- where it forwards packets. What it asks of other parts is a list of effects. Its text commands, the
-- parse of its parameters and its log lines are not here.
pub mod Unread
pub mod Connections
mod Tests
use mathlib.Core.Option
use jump.Base.{
  ℕ, zero, suc, ◌+◌, ◌-◌, ◌*◌, ◌^◌, Bool, true, false, not, ◌&&◌, ◌||◌, List, [], ◌∷◌, ◌++◌, Option,
  none, some, map, ltb, leb, ◌==◌, if◌then◌else◌, ◌>>=◌, update, length, take, drop, get_or,
}
use jump.DataBuffer.{
  DataBuffer, MessagePool, Dispatched, zeroed, databuffer_push, databuffer_readheader,
  databuffer_reset, databuffer_clear, dispatch_message,
}
use jump.HashId.{Hashid, lookup, insert, remove, full}
use jump.HashId as HashId

-- `struct connection`; an `id` of -1 is `none`.
pub record Connection : Type 0 where
  pub id : Option ℕ
  pub agent : ℕ
  pub client : ℕ
  pub remote_name : List ℕ
  pub buffer : DataBuffer

-- `struct gate`; a `listen_id` of -1 is `none`.
pub record Gate : Type 0 where
  pub listen_id : Option ℕ
  pub watchdog : ℕ
  pub broker : ℕ
  pub client_tag : ℕ
  pub header_size : ℕ
  pub hash : Hashid
  pub conn : ℕ → Connection
  pub mp : MessagePool

-- A connection after `memset`, with the `id` -1
abbrev pub no_connection : Connection
no_connection = record { id = none; agent = 0; client = 0; remote_name = []; buffer = zeroed }

-- What the gate asks for: `skynet_socket_close`, `skynet_socket_start` and `skynet_socket_send`; the
-- reports "open" and "close" to the watchdog; a packet for a service, with its source and type; and a
-- packet for the watchdog, behind the number of the connection.
pub data Effect : Type 0 where
  close_socket : ℕ → Effect
  start_socket : ℕ → Effect
  send_socket : ℕ → List ℕ → Effect
  report_open : ℕ → Effect
  report_close : ℕ → Effect
  forward_to : ℕ → ℕ → ℕ → List ℕ → Effect
  forward_line : Option ℕ → List ℕ → Effect

-- `_report`
pub report : Gate → Effect → List Effect
report g e = if g.watchdog == 0 then [] else e ∷ []

-- `_forward` of a packet that is read
pub forward : Gate → Connection → List ℕ → List Effect
forward g c packet =
    if not (g.broker == 0)
    then forward_to 0 g.broker g.client_tag packet ∷ []
    else (if not (c.agent == 0)
        then forward_to c.client c.agent g.client_tag packet ∷ []
        else (if not (g.watchdog == 0) then forward_line c.id packet ∷ [] else []))

pub forward_all : Gate → Connection → List (List ℕ) → List Effect
forward_all g c [] = []
forward_all g c (packet ∷ packets) = forward g c packet ++ forward_all g c packets

-- Whether `_forward` reads the packet
pub reads : Gate → Connection → Bool
reads g c = not (g.broker == 0) || (not (c.agent == 0) || not (g.watchdog == 0))

-- The loop of `dispatch_message` where `_forward` does not read the packet: its bytes are left in the
-- buffer. On fuel; each round takes a header.
pub unread_loop : ℕ → ℕ → DataBuffer → MessagePool → Option Dispatched
unread_loop zero hs db mp = none
unread_loop (suc fuel) hs db mp = do
  (o, d, p) ← databuffer_readheader db mp hs
  elim o [
    | none ↦ some (record { packets = []; closed = false; db = d; mp = p })
    | some zero ↦ unread_loop fuel hs d p
    | some (suc n) ↦
        let (e, r) = databuffer_clear d p in
        let rest = unread_loop fuel hs (databuffer_reset d) p in
        if leb 0x1000000 (suc n)
        then some (record { packets = []; closed = true; db = e; mp = r })
        else rest
  ]

pub receive : Gate → Connection → List ℕ → Option Dispatched
receive g c bytes =
    if reads g c
    then dispatch_message g.header_size c.buffer g.mp bytes (length bytes)
    else (let (d, p) = databuffer_push c.buffer g.mp bytes (length bytes) in
        unread_loop (d.size + 2) g.header_size d p)

-- The messages of sockets; the name that an accepted socket comes from is a string.
pub data SocketMessage : Type 0 where
  data_of : ℕ → List ℕ → SocketMessage
  connect : ℕ → SocketMessage
  close : ℕ → SocketMessage
  error : ℕ → SocketMessage
  accept : ℕ → ℕ → List ℕ → SocketMessage
  warning : SocketMessage

pub is_listen : Gate → ℕ → Bool
is_listen g id = elim g.listen_id [ none ↦ false | some l ↦ l == id ]

-- The case of data: the packets are forwarded, or the connection is closed for a packet of 16M.
pub on_data : Gate → ℕ → List ℕ → Option (List Effect × Gate)
on_data g id bytes = elim (lookup g.hash id) [
  | none ↦ some (close_socket id ∷ [], g)
  | some place ↦ do
    r ← receive g (g.conn place) bytes
    some (
      forward_all g (g.conn place) r.packets ++ (if r.closed then close_socket id ∷ [] else []),
      record g { conn = update g.conn place (record (g.conn place) { buffer = r.db }); mp = r.mp },
    )
]

-- The case of an end or an error
pub on_close : Gate → ℕ → List Effect × Gate
on_close g id =
    let (o, t) = remove g.hash id in
    elim o [
      | none ↦ ([], record g { hash = t })
      | some place ↦
          let (d, p) = databuffer_clear (g.conn place).buffer g.mp in
          (
            report g (report_close id),
            record g { hash = t; conn = update g.conn place no_connection; mp = p },
          )
    ]

-- The case of a new socket; `none` is a failed assertion.
pub on_accept : Gate → ℕ → ℕ → List ℕ → Option (List Effect × Gate)
on_accept g id ud name =
    if is_listen g id
    then (if full g.hash then some (close_socket ud ∷ [], g) else do
      (place, t) ← insert g.hash ud
      some (
        start_socket ud ∷ [],
        record g {
          hash = t;
          conn =
              update g.conn place
                (record (g.conn place) { id = some ud; remote_name = take 31 name });
        },
      ))
    else none

-- `dispatch_socket_message`
pub dispatch_socket_message : Gate → SocketMessage → Option (List Effect × Gate)
dispatch_socket_message g (data_of id bytes) = on_data g id bytes
dispatch_socket_message g (connect id) =
    if is_listen g id then some ([], g) else elim (lookup g.hash id) [
      | none ↦ some (close_socket id ∷ [], g)
      | some place ↦ some (report g (report_open id), g)
    ]
dispatch_socket_message g (close id) = some (on_close g id)
dispatch_socket_message g (error id) = some (on_close g id)
dispatch_socket_message g (accept id ud name) = on_accept g id ud name
dispatch_socket_message g warning = some ([], g)

-- `_forward_agent`
pub forward_agent : Gate → ℕ → ℕ → ℕ → Gate
forward_agent g fd agentaddr clientaddr = elim (lookup g.hash fd) [
  | none ↦ g
  | some place ↦ record g {
    conn = update g.conn place (record (g.conn place) { agent = agentaddr; client = clientaddr });
  }
]

-- `_cb` for PTYPE_CLIENT: the last four bytes name the socket. The flag is the result 1, that the data
-- is not to be freed.
pub client_message : Gate → List ℕ → List Effect × Bool
client_message g msg =
    let sz = length msg in
    let at : ℕ → ℕ = λ i. get_or msg (sz - 4 + i) 0 in
    let uid = at 0 + at 1 * 2 ^ 8 + at 2 * 2 ^ 16 + at 3 * 2 ^ 24 in
    if leb sz 4 then ([], false) else elim (lookup g.hash uid) [
      | none ↦ ([], false)
      | some place ↦ (send_socket uid (take (sz - 4) msg) ∷ [], true)
    ]

-- What `gate_create` and `gate_init` make of a gate for `max` connections
pub gate_init : ℕ → ℕ → ℕ → ℕ → Gate
gate_init max watchdog client_tag header_size = record {
  listen_id = none;
  watchdog = watchdog;
  broker = 0;
  client_tag = if client_tag == 0 then 3 else client_tag;
  header_size = header_size;
  hash = HashId.init max;
  conn = λ i. no_connection;
  mp = record { freelist = []; allocated = 0 };
}
