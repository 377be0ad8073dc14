-- ===== src/Service/Send.antt =====
-- Sending in skynet-src/skynet_server.c and skynet_harbor.c: what becomes of the data, the session and the
-- size of a message. `none` is a failed `assert` or an access to memory that is not there. What
-- `skynet_error` logs is not here.
pub mod Words
pub mod Filter
pub mod Deliver
pub mod Fail
mod Tests
use mathlib.Core.Option
use jump.Base.{
  ℕ, zero, suc, ◌+◌, ◌-◌, ◌*◌, ◌/◌, ◌%◌, ◌^◌, Bool, true, false, not, ◌&&◌, ◌||◌, List, [], ◌∷◌,
  ◌++◌, Option, none, some, ltb, leb, ◌==◌, if◌then◌else◌, ◌>>=◌, update, length, take,
}
use jump.Harbor.{message_isremote}
use jump.Handle.Names.{findname}
use jump.Mq.{Message}
use jump.Service.{Node, Context, write_context, context_newsession, context_push, queue_push}

-- The `|` of two words of so many bits
pub bit_or : ℕ → ℕ → ℕ → ℕ
bit_or zero a b = 0
bit_or (suc bits) a b = (if a % 2 + b % 2 == 0 then 0 else 1) + 2 * bit_or bits (a / 2) (b / 2)

-- `type << HANDLE_REMOTE_SHIFT` of an `int`, as the `size_t` that it becomes: the sign is extended.
pub shift_type : ℕ → ℕ
shift_type type =
    let t = type * 2 ^ 24 % 2 ^ 32 in if ltb t (2 ^ 31) then t else t + (2 ^ 64 - 2 ^ 32)

-- The size with the type in its high byte
pub tag_size : ℕ → ℕ → ℕ
tag_size type sz = bit_or 64 sz (shift_type type)

-- What `dispatch_message` hands to the callback: the type, as an `int`, and the size.
unfoldable pub untag : ℕ → ℕ × ℕ
untag sz = (sz / 2 ^ 24 % 2 ^ 32, sz % 2 ^ 24)

-- Memory at a pointer; only `skynet_malloc`'s may be freed.
pub record Block : Type 0 where
  pub bytes : List ℕ
  pub malloced : Bool

-- `struct remote_message`
pub record RemoteMessage : Type 0 where
  pub name : List ℕ
  pub handle : ℕ
  pub message : ℕ
  pub sz : ℕ

abbrev pub sizeof_remote_message : ℕ
sizeof_remote_message = 40

-- The node, the memory of the data (NULL is 0), the messages for the harbor service, and the variables
-- HARBOR and REMOTE of skynet_harbor.c.
pub record Process : Type 0 where
  pub node : Node
  pub block : ℕ → Option Block
  pub letter : ℕ → Option RemoteMessage
  pub harbor : ℕ
  pub remote : ℕ

-- `skynet_free`
pub free : Process → ℕ → Option Process
free w p = if p == 0 then some w else do
  b ← w.block p
  if b.malloced then some (record w { block = update w.block p none }) else none

-- The arguments that `_filter_args` changes
pub record Args : Type 0 where
  pub session : ℕ
  pub body : ℕ
  pub sz : ℕ

abbrev pub dont_copy : ℕ → Bool
dont_copy type = type / 2 ^ 16 % 2 == 1

abbrev pub alloc_session : ℕ → Bool
alloc_session type = type / 2 ^ 17 % 2 == 1

-- The first `if` of `_filter_args`
pub take_session : Process → ℕ → ℕ → ℕ → Option (ℕ × Process)
take_session w ctx type session =
    if alloc_session type
    then (if session == 0
        then (do
          c ← w.node.context ctx
          let (s, d) = context_newsession c in
              some (s, record w { node = write_context w.node ctx d }))
        else none)
    else some (session, w)

-- The second: the copy is at `buf`, which `skynet_malloc` gives, and ends with a 0.
pub copy_data : Process → ℕ → ℕ → ℕ → ℕ → Option (ℕ × Process)
copy_data w buf type body sz =
    if not (dont_copy type) && not (body == 0)
    then (do
      b ← w.block body
      if leb sz (length b.bytes)
          then some (
            buf,
            record w {
              block =
                  update w.block buf
                    (some (record { bytes = take sz b.bytes ++ 0 ∷ []; malloced = true }));
            },
          )
          else none)
    else some (body, w)

-- `_filter_args`
pub filter_args : Process → ℕ → ℕ → ℕ → Args → Option (Args × Process)
filter_args w buf ctx type a = do
  (s, v) ← take_session w ctx type a.session
  (d, u) ← copy_data v buf type a.body a.sz
  some (record { session = s; body = d; sz = tag_size (type % 256) a.sz }, u)

-- `skynet_context_send`
pub context_send : Node → ℕ → ℕ → ℕ → ℕ → ℕ → ℕ → Option Node
context_send n ctx msg sz source type session =
    queue_push n ctx
      (record { source = source; session = session; body = msg; sz = tag_size type sz })

-- `skynet_harbor_send`, of the message at `rmsg`: PTYPE_SYSTEM and PTYPE_HARBOR do not leave the node.
pub harbor_send : Process → ℕ → ℕ → ℕ → Option Process
harbor_send w rmsg source session = do
  r ← w.letter rmsg
  let (type, sz) = untag r.sz in
      if type == 4 || type == 5 || w.remote == 0
      then none
      else Option.map
          (λ n. record w { node = n; letter = update w.letter rmsg (some (record r { sz = sz })) })
          (context_send w.node w.remote rmsg sizeof_remote_message source type session)

-- `source`, or the handle of the context
pub source_of : Node → ℕ → ℕ → Option ℕ
source_of n ctx source =
    if source == 0 then Option.map (λ c. n.handle ctx) (n.context ctx) else some source

abbrev pub minus_one : ℕ
minus_one = 2 ^ 32 - 1

-- A message for another node is put at `rmsg`, which `skynet_malloc` gives.
pub send_remote : Process → ℕ → ℕ → List ℕ → ℕ → Args → Option (ℕ × Process)
send_remote w rmsg source name destination a =
    Option.map (λ v. (a.session, v))
      (harbor_send
        (record w {
          letter =
              update w.letter rmsg
                (some (record { name = name; handle = destination; message = a.body; sz = a.sz }));
        })
        rmsg source a.session)

-- A message for this node; the data is freed when there is no such service.
pub send_local : Process → ℕ → ℕ → Args → Option (ℕ × Process)
send_local w source destination a = do
  (found, n) ←
      context_push w.node destination
        (record { source = source; session = a.session; body = a.body; sz = a.sz })
  let v = record w { node = n } in
      if found then some (a.session, v) else Option.map (λ u. (minus_one, u)) (free v a.body)

-- `skynet_send`; the name in a remote message that has a handle is not written.
pub send : Process → ℕ → ℕ → ℕ → ℕ → ℕ → ℕ → Args → Option (ℕ × Process)
send w buf rmsg ctx source destination type a =
    if a.sz % 2 ^ 24 == a.sz
    then (do
      (f, v) ← filter_args w buf ctx type a
      from ← source_of v.node ctx source
      if destination == 0
          then some (f.session, v)
          else (if message_isremote v.harbor destination
              then send_remote v rmsg from [] destination f
              else send_local v from destination f))
    else Option.map (λ v. (minus_one, v)) (free w a.body)
