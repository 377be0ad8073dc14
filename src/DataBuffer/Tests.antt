-- ===== src/DataBuffer/Tests.antt =====
-- Runs of the databuffer, and the theorems at concrete buffers.
use jump.Base.{ℕ, zero, suc, ◌≡◌, refl, List, [], ◌∷◌, ◌++◌, some, false, arith, take, drop, count}
use jump.DataBuffer.{
  DataBuffer, MessagePool, Dispatched, databuffer_read, read_loop, copy_before, databuffer_push,
  databuffer_clear, databuffer_readheader, dispatch_message, dispatch_loop, big_endian, take_node,
  zeroed,
}
use jump.DataBuffer.Read.{body, contents, IsValid, databuffer_read_lem, databuffer_push_lem}
use jump.DataBuffer.Frames.{cut}
use jump.DataBuffer.Dispatch.{Agrees, dispatch_message_lem}
use jump.DataBuffer.Stream.{feed}
use jump.DataBuffer.Packets.{two, packets_lem}
use jump.DataBuffer.Pool.{Pooled, pool_lem}

-- A pool of three nodes, one of them free.
abbrev pool : MessagePool
pool = record { freelist = 2 ∷ []; allocated = 3 }

-- Five bytes in two messages; the first of them is read already. They hold a packet of two bytes, and
-- the first byte of a header.
abbrev five : DataBuffer
five = record {
  header = 0;
  offset = 1;
  size = 5;
  messages =
      record { node = 0; buffer = 9 ∷ 0 ∷ 2 ∷ []; size = 3 }
      ∷ record { node = 1; buffer = 7 ∷ 8 ∷ 0 ∷ []; size = 3 }
      ∷ [];
}

five-IsValid : IsValid five
unfolding contents body
five-IsValid = record { sizes = (refl, (refl, tt)); offset = omega arith; size = refl }

-- A read over the border of the two messages
read_four :
    databuffer_read five pool 4
    ≡ some (
      0 ∷ 2 ∷ 7 ∷ 8 ∷ [],
      record {
        header = 0;
        offset = 2;
        size = 1;
        messages = record { node = 1; buffer = 7 ∷ 8 ∷ 0 ∷ []; size = 3 } ∷ [];
      },
      record { freelist = 0 ∷ 2 ∷ []; allocated = 3 },
    )
unfolding databuffer_read read_loop copy_before
read_four = refl

-- A header that has come whole, and the packet after it not yet
waits :
    dispatch_message 2 zeroed pool (0 ∷ 3 ∷ 7 ∷ []) 3
    ≡ some (record {
      packets = [];
      closed = false;
      db = record {
        header = 3;
        offset = 2;
        size = 1;
        messages = record { node = 2; buffer = 0 ∷ 3 ∷ 7 ∷ []; size = 3 } ∷ [];
      };
      mp = record { freelist = []; allocated = 3 };
    })
unfolding dispatch_message dispatch_loop databuffer_readheader databuffer_read read_loop copy_before
    databuffer_push take_node big_endian
waits = refl

databuffer_read_lem_example :
    (d : DataBuffer) × (p : MessagePool) × (databuffer_read five pool 4
      ≡ some (take 4 (contents five), d, p))
    × (contents d ≡ drop 4 (contents five))
    × IsValid d
    × (d.size ≡ 1)
    × (d.header ≡ 0)
databuffer_read_lem_example =
    databuffer_read_lem five pool 4 five-IsValid (omega arith) (omega arith)

databuffer_push_lem_example :
    let (d, p) = databuffer_push five pool (6 ∷ 5 ∷ []) 2 in
    (contents d ≡ contents five ++ 6 ∷ 5 ∷ []) × IsValid d × (d.size ≡ 7) × (d.header ≡ 0)
databuffer_push_lem_example = databuffer_push_lem five pool (6 ∷ 5 ∷ []) five-IsValid

dispatch_message_lem_example :
    (r : Dispatched) × (dispatch_message 2 five pool (1 ∷ 6 ∷ []) 2 ≡ some r)
    × Agrees (cut 8 2 0 (contents five ++ 1 ∷ 6 ∷ [])) r
dispatch_message_lem_example =
    dispatch_message_lem 2 five pool (1 ∷ 6 ∷ []) five-IsValid (omega arith)

-- Packets of two bytes and of one, in three pieces
packets_lem_example :
    (r : Dispatched) × (feed 2 zeroed pool ((0 ∷ []) ∷ (2 ∷ 7 ∷ 8 ∷ 0 ∷ []) ∷ (1 ∷ 6 ∷ []) ∷ [])
      ≡ some r)
    × (r.packets ≡ (7 ∷ 8 ∷ []) ∷ (6 ∷ []) ∷ [])
    × (r.closed ≡ false)
    × (contents r.db ≡ [])
    × (r.db.header ≡ 0)
packets_lem_example =
    packets_lem two ((7 ∷ 8 ∷ []) ∷ (6 ∷ []) ∷ [])
      ((0 ∷ []) ∷ (2 ∷ 7 ∷ 8 ∷ 0 ∷ []) ∷ (1 ∷ 6 ∷ []) ∷ []) pool
      (omega arith, omega arith, omega arith, (omega arith, omega arith, omega arith, tt)) refl

five-Pooled : Pooled [] five.messages pool
unfolding count
five-Pooled zero = refl
five-Pooled (suc zero) = refl
five-Pooled (suc (suc zero)) = refl
five-Pooled (suc (suc (suc n))) = ground arith

pool_lem_example :
    ((bytes : List ℕ) (sz : ℕ)
      → let (d, q) = databuffer_push five pool bytes sz in Pooled [] d.messages q)
    × ((sz : ℕ) (bytes : List ℕ) (d : DataBuffer) (q : MessagePool)
        → databuffer_read five pool sz ≡ some (bytes, d, q)
        → Pooled [] d.messages q)
    × (let (d, q) = databuffer_clear five pool in Pooled [] d.messages q)
pool_lem_example = pool_lem [] five pool five-Pooled
