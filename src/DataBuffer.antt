-- ===== src/DataBuffer.antt =====
-- service-src/databuffer.h: the bytes that a connection has received, as a list of the messages of
-- the socket thread, whose nodes come from a pool; and `dispatch_message` of
-- service-src/service_gate.c, which cuts the bytes into packets.
pub mod Read
pub mod Pool
pub mod Frames
pub mod Dispatch
pub mod Stream
pub mod Packets
mod Tests
use mathlib.Core.Option
use jump.Base.{
  ℕ, zero, suc, ◌+◌, ◌-◌, ◌*◌, ◌%◌, ◌^◌, Bool, true, false, ◌||◌, List, [], ◌∷◌, ◌++◌, Option, none,
  some, take, drop, get_or, ltb, leb, ◌==◌, if◌then◌else◌, ◌>>=◌,
}

-- `struct message`; `next` is the order of the list. `node` is its address.
pub record Message : Type 0 where
  pub node : ℕ
  pub buffer : List ℕ
  pub size : ℕ

-- `struct databuffer`; `messages` is the list from `head` to `tail`.
pub record DataBuffer : Type 0 where
  pub header : ℕ
  pub offset : ℕ
  pub size : ℕ
  pub messages : List Message

-- `MESSAGEPOOL`
abbrev pub message_pool : ℕ
message_pool = 1023

-- `struct messagepool`: the addresses of the free nodes, and how many nodes its blocks have. The
-- nodes of a new block get the addresses after those of the blocks before it.
pub record MessagePool : Type 0 where
  pub freelist : List ℕ
  pub allocated : ℕ

-- The addresses of `n` nodes from `a` on
pub nodes_from : ℕ → ℕ → List ℕ
nodes_from a zero = []
nodes_from a (suc n) = a ∷ nodes_from (a + 1) n

-- `_return_message` on the pool; the list loses its head.
abbrev pub return_message : Message → MessagePool → MessagePool
return_message m mp = record mp { freelist = m.node ∷ mp.freelist }

-- What `databuffer_read` copies and leaves.
pub record ReadResult : Type 0 where
  pub bytes : List ℕ
  pub left : List Message
  pub at : ℕ
  pub pool : MessagePool

-- `memcpy(buffer, current->buffer + db->offset, n)`
abbrev pub piece : Message → ℕ → ℕ → List ℕ
piece m offset n = take n (drop offset m.buffer)

-- `memcpy` of `xs` before the rest of the loop
pub copy_before : List ℕ → Option ReadResult → Option ReadResult
copy_before xs none = none
copy_before xs (some r) = some (record r { bytes = xs ++ r.bytes })

-- The loop of `databuffer_read` on the list, with the offset; without a head it reads through a null
-- pointer, which is `none`.
pub read_loop : List Message → ℕ → MessagePool → ℕ → Option ReadResult
read_loop [] offset mp sz = none
read_loop (m ∷ ms) offset mp sz =
    let bsz = m.size - offset in
    let rest = read_loop ms 0 (return_message m mp) (sz - bsz) in
    if ltb sz bsz
    then some (record { bytes = piece m offset sz; left = m ∷ ms; at = offset + sz; pool = mp })
    else if bsz == sz
    then some (record { bytes = piece m offset sz; left = ms; at = 0; pool = return_message m mp })
    else copy_before (piece m offset bsz) rest

-- The databuffer after a read of `sz` bytes
abbrev pub after_read : DataBuffer → ℕ → ReadResult → List ℕ × DataBuffer × MessagePool
after_read db sz r =
    (r.bytes, record db { size = db.size - sz; offset = r.at; messages = r.left }, r.pool)

-- `databuffer_read`; `none` is a failed `assert` or the null pointer.
pub databuffer_read : DataBuffer → MessagePool → ℕ → Option (List ℕ × DataBuffer × MessagePool)
databuffer_read db mp sz =
    if ltb db.size sz
    then none
    else Option.map (after_read db sz) (read_loop db.messages db.offset mp sz)

-- The node that `databuffer_push` takes, from the free list or from a new block.
pub take_node : MessagePool → ℕ × MessagePool
take_node mp = elim mp.freelist [
  | [] ↦ (
    mp.allocated,
    record {
      freelist = nodes_from (mp.allocated + 1) (message_pool - 1);
      allocated = mp.allocated + message_pool;
    },
  )
  | m ∷ free ↦ (m, record mp { freelist = free })
]

-- `databuffer_push`
pub databuffer_push : DataBuffer → MessagePool → List ℕ → ℕ → DataBuffer × MessagePool
databuffer_push db mp bytes sz =
    let (m, pool) = take_node mp in
    (
      record db {
        size = db.size + sz;
        messages = db.messages ++ record { node = m; buffer = bytes; size = sz } ∷ [];
      },
      pool,
    )

-- `plen[0] << 8 | plen[1]`, or the four bytes, as the 32-bit pattern of the `int`
pub big_endian : ℕ → List ℕ → ℕ
big_endian header_size plen =
    if header_size == 2
    then get_or plen 0 0 * 2 ^ 8 + get_or plen 1 0
    else get_or plen 0 0 * 2 ^ 24
      + get_or plen 1 0 * 2 ^ 16
      + get_or plen 2 0 * 2 ^ 8
      + get_or plen 3 0

-- The end of `databuffer_readheader`. The length is `none` when it is negative as an `int`: -1 when
-- the packet is not complete, or the header itself when its sign bit is set.
abbrev pub complete : DataBuffer → Option ℕ
complete db = if leb (2 ^ 31) db.header || ltb db.size db.header then none else some db.header

-- The header is parsed.
abbrev pub parsed : ℕ → List ℕ × DataBuffer × MessagePool → Option ℕ × DataBuffer × MessagePool
parsed header_size (plen, db, mp) =
    let d = record db { header = big_endian header_size plen } in (complete d, d, mp)

-- `databuffer_readheader`
pub databuffer_readheader :
    DataBuffer → MessagePool → ℕ → Option (Option ℕ × DataBuffer × MessagePool)
databuffer_readheader db mp header_size =
    if db.header == 0
    then (if ltb db.size header_size
        then some (none, db, mp)
        else Option.map (parsed header_size) (databuffer_read db mp header_size))
    else some (complete db, db, mp)

-- `databuffer_reset`
abbrev pub databuffer_reset : DataBuffer → DataBuffer
databuffer_reset db = record db { header = 0 }

-- The loop of `databuffer_clear`
pub return_all : List Message → MessagePool → MessagePool
return_all [] mp = mp
return_all (m ∷ ms) mp = return_all ms (return_message m mp)

-- A databuffer after `memset`
abbrev pub zeroed : DataBuffer
zeroed = record { header = 0; offset = 0; size = 0; messages = [] }

-- `databuffer_clear`
abbrev pub databuffer_clear : DataBuffer → MessagePool → DataBuffer × MessagePool
databuffer_clear db mp = (zeroed, return_all db.messages mp)

-- What `dispatch_message` leaves: the packets that it forwarded, in order, and whether it closed the
-- connection.
pub record Dispatched : Type 0 where
  pub packets : List (List ℕ)
  pub closed : Bool
  pub db : DataBuffer
  pub mp : MessagePool

abbrev pub forwarded : List ℕ → Dispatched → Dispatched
forwarded packet r = record r { packets = packet ∷ r.packets }

-- The loop of `dispatch_message` on fuel, for a gate whose `_forward` has a broker, an agent or a
-- watchdog, all of which read the packet; without fuel or with a failed read it is `none`.
pub dispatch_loop : ℕ → ℕ → DataBuffer → MessagePool → Option Dispatched
dispatch_loop zero hs db mp = none
dispatch_loop (suc fuel) hs db mp = do
  (size, d, p) ← databuffer_readheader db mp hs
  elim size [
    | none ↦ some (record { packets = []; closed = false; db = d; mp = p })
    | some zero ↦ dispatch_loop fuel hs d p
    | some (suc n) ↦
        let (e, q) = databuffer_clear d p in
        if leb 0x1000000 (suc n)
        then some (record { packets = []; closed = true; db = e; mp = q })
        else do
          (packet, f, r) ← databuffer_read d p (suc n)
          Option.map (forwarded packet) (dispatch_loop fuel hs (databuffer_reset f) r)
  ]

-- `dispatch_message`
pub dispatch_message : ℕ → DataBuffer → MessagePool → List ℕ → ℕ → Option Dispatched
dispatch_message hs db mp bytes sz =
    let (d, p) = databuffer_push db mp bytes sz in dispatch_loop (d.size + 1) hs d p
