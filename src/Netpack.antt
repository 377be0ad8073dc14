-- ===== src/Netpack.antt =====
-- server/skynet/lualib-src/lua-netpack.c: packets with a header of two bytes, cut from the data of
-- sockets. A buffer and its size are the list of its bytes, which are below 256; a file descriptor is
-- not negative. What stands on the Lua stack is an argument or a result; `none` is a failed assertion.
pub mod Pack
pub mod Ring
pub mod Chain
pub mod Frames
pub mod Filter
pub mod Stream
pub mod Delivery
mod Tests
use mathlib.Core.Option
use jump.Base.{
  ℕ, zero, suc, ◌+◌, ◌-◌, ◌*◌, ◌/◌, ◌%◌, ◌^◌, Bool, true, false, List, [], ◌∷◌, ◌++◌, Option, none,
  some, ltb, leb, ◌==◌, if◌then◌else◌, update, length, take, drop, get_or, set, replicate, map,
}

abbrev pub queue_size : ℕ
queue_size = 1024

abbrev pub hash_size : ℕ
hash_size = 4096

-- `struct netpack`
pub record Netpack : Type 0 where
  pub id : ℕ
  pub bytes : List ℕ

-- `struct uncomplete`; `read` is `none` for -1, when only the first byte of the header has come. `buffer`
-- is what is written of the `size` bytes of the packet.
pub record Uncomplete : Type 0 where
  pub id : ℕ
  pub size : ℕ
  pub buffer : List ℕ
  pub read : Option ℕ
  pub header : ℕ

-- `struct queue`; a chain of the hash table is the list of what is in it.
pub record Queue : Type 0 where
  pub cap : ℕ
  pub head : ℕ
  pub tail : ℕ
  pub hash : ℕ → List Uncomplete
  pub queue : List Netpack

-- What a place of the ring reads as that was never written.
abbrev pub blank : Netpack
blank = record { id = 0; bytes = [] }

-- `hash_fd`
pub hash_fd : ℕ → ℕ
hash_fd fd = (fd / 2 ^ 24 + fd / 2 ^ 12 + fd) % 2 ^ 32 % hash_size

-- The loop of `find_uncomplete`: the first of the descriptor is unlinked.
pub unlink_fd : ℕ → List Uncomplete → Option Uncomplete × List Uncomplete
unlink_fd fd [] = (none, [])
unlink_fd fd (uc ∷ ucs) =
    let (found, rest) = unlink_fd fd ucs in
    if uc.id == fd then (some uc, ucs) else (found, uc ∷ rest)

-- `find_uncomplete`
pub find_uncomplete : Queue → ℕ → Option Uncomplete × Queue
find_uncomplete q fd =
    let (found, rest) = unlink_fd fd (q.hash (hash_fd fd)) in
    (found, record q { hash = update q.hash (hash_fd fd) rest })

-- The queue that `get_queue` makes when there is none; NULL reads as this one.
abbrev pub new_queue : Queue
new_queue = record {
  cap = queue_size;
  head = 0;
  tail = 0;
  hash = λ h. [];
  queue = replicate queue_size blank;
}

-- The loop of `expand_queue`
pub copy_ring : List Netpack → ℕ → ℕ → ℕ → List Netpack
copy_ring queue cap at zero = []
copy_ring queue cap at (suc n) = get_or queue (at % cap) blank ∷ copy_ring queue cap (at + 1) n

-- `expand_queue`: what is written is the new queue.
pub expand_queue : Queue → Queue
expand_queue q = record {
  cap = q.cap + queue_size;
  head = 0;
  tail = q.cap;
  hash = q.hash;
  queue = copy_ring q.queue q.cap q.head q.cap ++ replicate queue_size blank;
}

-- `push_data` of bytes, which the queue owns from now on
pub push_data : Queue → ℕ → List ℕ → Queue
push_data q fd bytes =
    let tail = if leb q.cap (q.tail + 1) then q.tail + 1 - q.cap else q.tail + 1 in
    let p = record q {
      tail = tail;
      queue = set q.queue q.tail (record { id = fd; bytes = bytes });
    } in
    if q.head == tail then expand_queue p else p

-- `uc` becomes the first of its chain.
abbrev pub link : Queue → ℕ → Uncomplete → Queue
link q fd uc = record q { hash = update q.hash (hash_fd fd) (uc ∷ q.hash (hash_fd fd)) }

-- `save_uncomplete`, and what its caller writes: one byte of a header,
pub save_header : Queue → ℕ → ℕ → Queue
save_header q fd header =
    link q fd (record { id = fd; size = 0; buffer = []; read = none; header = header })

-- or the first bytes of a packet.
pub save_packet : Queue → ℕ → ℕ → List ℕ → Queue
save_packet q fd size bytes =
    link q fd
      (record { id = fd; size = size; buffer = bytes; read = some (length bytes); header = 0 })

-- `push_more`, on fuel; it reads past its buffer when that is empty.
pub push_more : ℕ → Queue → ℕ → List ℕ → Option Queue
push_more zero q fd bytes = none
push_more (suc fuel) q fd [] = none
push_more (suc fuel) q fd (a ∷ []) = some (save_header q fd a)
push_more (suc fuel) q fd (a ∷ b ∷ bytes) =
    let pack_size = a * 2 ^ 8 + b in
    let p = push_data q fd (take pack_size bytes) in
    let more = push_more fuel p fd (drop pack_size bytes) in
    if ltb (length bytes) pack_size
    then some (save_packet q fd pack_size bytes)
    else (if leb (length bytes) pack_size then some p else more)

-- What `lfilter` leaves on the stack after the queue: nothing; the data of one packet; "more", when there
-- are packets in the queue; and the other messages.
pub data Message : Type 0 where
  nothing : Message
  packet : ℕ → List ℕ → Message
  more : Message
  opened : ℕ → List ℕ → Message
  closed : ℕ → Message
  error : ℕ → List ℕ → Message

-- The part of `filter_data_` that fills the packet that is incomplete, once its header is there.
pub fill : Queue → ℕ → Uncomplete → ℕ → List ℕ → Option (Message × Queue)
fill q fd uc read bytes =
    let need = uc.size - read in
    let buffer = take read uc.buffer ++ take need bytes in
    let rest = drop need bytes in
    let p = push_data q fd buffer in
    if ltb (length bytes) need
    then some
        (nothing, link q fd (record uc { buffer = buffer; read = some (read + length bytes) }))
    else (if length rest == 0
        then some (packet fd buffer, q)
        else elim (push_more (length rest) p fd rest) [ none ↦ none | some r ↦ some (more, r) ])

-- The second byte of the header comes first, if it is missing.
pub resume : Queue → ℕ → Uncomplete → List ℕ → Option (Message × Queue)
resume q fd uc bytes = elim uc.read [
  | some read ↦ fill q fd uc read bytes
  | none ↦ elim bytes [
    | [] ↦ none
    | b ∷ rest ↦
        let size = uc.header * 2 ^ 8 + b in
        fill q fd (record uc { size = size; buffer = []; read = some 0 }) 0 rest
  ]
]

-- The part of `filter_data_` for data that starts with a header
pub start : Queue → ℕ → List ℕ → Option (Message × Queue)
start q fd [] = none
start q fd (a ∷ []) = some (nothing, save_header q fd a)
start q fd (a ∷ b ∷ bytes) =
    let pack_size = a * 2 ^ 8 + b in
    let p = push_data q fd (take pack_size bytes) in
    let rest = drop pack_size bytes in
    if ltb (length bytes) pack_size
    then some (nothing, save_packet q fd pack_size bytes)
    else (if length bytes == pack_size
        then some (packet fd bytes, q)
        else elim (push_more (length rest) p fd rest) [ none ↦ none | some r ↦ some (more, r) ])

-- `filter_data_`, on a queue that `get_queue` makes when it is first needed
pub filter_data : Queue → ℕ → List ℕ → Option (Message × Queue)
filter_data q fd bytes =
    let (found, p) = find_uncomplete q fd in
    elim found [ none ↦ start p fd bytes | some uc ↦ resume p fd uc bytes ]

-- `close_uncomplete`
pub close_uncomplete : Queue → ℕ → Queue
close_uncomplete q fd = (find_uncomplete q fd).1

-- What a socket message carries: the bytes at its `buffer`, or a string behind the message
pub data Carried : Type 0 where
  buffer_of : List ℕ → Carried
  padding : List ℕ → Carried

-- The messages of sockets; `other` has a type that `lfilter` does not know.
pub data SocketMessage : Type 0 where
  data_of : ℕ → Carried → SocketMessage
  connect : SocketMessage
  close : ℕ → SocketMessage
  accept : ℕ → Carried → SocketMessage
  failure : ℕ → Carried → SocketMessage
  other : SocketMessage

-- `pushstring`; the size of a `buffer` is -1 here, with which no string can be made.
pub pushstring : Carried → Option (List ℕ)
pushstring (buffer_of bytes) = none
pushstring (padding text) = some text

-- `lfilter`; data behind the message fail an assertion.
pub filter : Queue → SocketMessage → Option (Message × Queue)
filter q (data_of id (buffer_of bytes)) = filter_data q id bytes
filter q (data_of id (padding text)) = none
filter q connect = some (nothing, q)
filter q (close id) = some (closed id, close_uncomplete q id)
filter q (accept ud name) = Option.map (λ s. (opened ud s, q)) (pushstring name)
filter q (failure id reason) =
    Option.map (λ s. (error id s, close_uncomplete q id)) (pushstring reason)
filter q other = some (nothing, q)

-- `lpop`
pub pop : Queue → Option Netpack × Queue
pop q = if q.head == q.tail then (none, q) else (
  some (get_or q.queue q.head blank),
  record q { head = if leb q.cap (q.head + 1) then 0 else q.head + 1 },
)

-- `lclear`; the buffers are freed.
pub clear : Queue → Queue
clear q = record q { head = 0; tail = 0; hash = λ h. [] }

-- `write_size`
pub write_size : ℕ → List ℕ
write_size len = len / 2 ^ 8 % 2 ^ 8 ∷ len % 2 ^ 8 ∷ []

-- `lpack` and `lpack_string`; `none` is the Lua error.
pub pack : List ℕ → Option (List ℕ)
pack bytes = if ltb 0x10000 (length bytes) then none else some (write_size (length bytes) ++ bytes)

-- `lpack_padding`
pub pack_padding : List ℕ → List ℕ → Option (List ℕ)
pack_padding cookie content =
    let len = length cookie + length content in
    if ltb 0x10000 len then none else some (write_size len ++ (content ++ cookie))
