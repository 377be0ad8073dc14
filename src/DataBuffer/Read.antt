-- ===== src/DataBuffer/Read.antt =====
-- What `databuffer_read` and `databuffer_push` do to the bytes of the buffer.
use jump.Base.{
  take-append, drop-append, take_more, drop_more, take_all, drop-drop, length-drop, ℕ, ◌+◌, ◌-◌,
  ◌≤◌, ◌<◌, ◌≡◌, refl, sym, ap, ap₂, ◌∙◌, List, [], ◌∷◌, ◌++◌, Option, some, arith, length, take,
  drop, length-append, append_assoc, append-nil, ltb_no, ==_no, ==_iff, lt→ltb, dec_lt, ℕ_discrete,
}
use jump.DataBuffer.{
  Message, DataBuffer, MessagePool, ReadResult, return_message, read_loop, databuffer_read,
  databuffer_push, copy_before, piece, take_node,
}

-- The bytes of the list, and those that are not read yet.
unfoldable pub body : List Message → List ℕ
body [] = []
body (m ∷ ms) = m.buffer ++ body ms

unfoldable pub contents : DataBuffer → List ℕ
contents db = drop db.offset (body db.messages)

-- The sizes are those of the buffers, and the offset is in the first of them.
abbrev pub Sizes : List Message → Type 0
Sizes [] = Unit {0}
Sizes (m ∷ ms) = (m.size ≡ length m.buffer) × Sizes ms

abbrev pub Offset : ℕ → List Message → Type 0
Offset offset [] = offset ≡ 0
Offset offset (m ∷ ms) = offset ≤ m.size

pub record IsValid (db : DataBuffer) : Type 0 where
  pub sizes : Sizes db.messages
  pub offset : Offset db.offset db.messages
  pub size : db.size ≡ length (contents db)

-- A read of `n` bytes, from bytes `xs`.
pub record Reads (xs : List ℕ) (n : ℕ) (r : ReadResult) : Type 0 where
  pub bytes : r.bytes ≡ take n xs
  pub left : drop r.at (body r.left) ≡ drop n xs
  pub sizes : Sizes r.left
  pub offset : Offset r.at r.left

front_unread : (ms : List Message) → Offset 0 ms
front_unread [] = refl
front_unread (m ∷ ms) = omega arith

copied :
    (xs : List ℕ) (o : Option ReadResult) {r : ReadResult}
    → o ≡ some r
    → copy_before xs o ≡ some (record r { bytes = xs ++ r.bytes })
unfolding copy_before
copied xs o e = ap (copy_before xs) e

-- The first message is read whole, and `k` bytes of the rest.
Reads-more :
    {xs first ys tail : List ℕ} {n k : ℕ} {r : ReadResult}
    → ys ≡ first
    → xs ≡ first ++ tail
    → n ≡ length first + k
    → Reads tail k r
    → Reads xs n (record r { bytes = ys ++ r.bytes })
Reads-more {first = first} {tail = tail} {n = n} {k = k} whole split e v = record {
  bytes = ap₂ ◌++◌ whole v.bytes ∙ sym (ap (take n) split ∙ take_more n k first tail e);
  left = v.left ∙ sym (ap (drop n) split ∙ drop_more n k first tail e);
  sizes = v.sizes;
  offset = v.offset;
}

pub read_loop_lem :
    (ms : List Message) (offset : ℕ) (mp : MessagePool) (n : ℕ)
    → 0 < n
    → n ≤ length (drop offset (body ms))
    → Sizes ms
    → Offset offset ms
    → (r : ReadResult) × (read_loop ms offset mp n ≡ some r) × Reads (drop offset (body ms)) n r
unfolding read_loop body
read_loop_lem [] offset mp n p h s o =
    absurd (omega (arith, ap (λ i. length (drop {A = ℕ} i [])) o))
read_loop_lem (m ∷ ms) offset mp n p h (sm, s) o =
    let first = drop offset m.buffer in
    let split : drop offset (m.buffer ++ body ms) ≡ first ++ body ms =
      drop-append offset m.buffer (body ms) (omega (arith, sm)) in
    let len : length first ≡ m.size - offset = omega (arith, sm, length-drop offset m.buffer) in
    let total = ap length split ∙ length-append first (body ms) in
    elim (dec_lt n (m.size - offset)) [
      | yes l ↦ (
        record { bytes = piece m offset n; left = m ∷ ms; at = offset + n; pool = mp },
        rw (lt→ltb n (m.size - offset) l) refl,
        rw split (record {
          bytes = sym (take-append n first (body ms) (omega (arith, len)));
          left =
              drop-append (offset + n) m.buffer (body ms) (omega (arith, sm))
              ∙ ap (λ t. t ++ body ms) (sym (drop-drop n offset (offset + n) m.buffer refl))
              ∙ sym (drop-append n first (body ms) (omega (arith, len)));
          sizes = (sm, s);
          offset = omega arith;
        }),
      )
      | no nl ↦ elim (ℕ_discrete (m.size - offset) n) [
        | yes e ↦ (
          record { bytes = piece m offset n; left = ms; at = 0; pool = return_message m mp },
          rw (ltb_no n (m.size - offset) (omega (arith, e)), e, (==_iff n n).1 refl) refl,
          rw split (record {
            bytes = sym (take-append n first (body ms) (omega (arith, len, e)));
            left = sym (drop_more n 0 first (body ms) (omega (arith, len, e)));
            sizes = s;
            offset = front_unread ms;
          }),
        )
        | no ne ↦
            let (r, run, v) =
              read_loop_lem ms 0 (return_message m mp) (n - (m.size - offset)) (omega arith)
                (omega (arith, total, len)) s (front_unread ms) in
            (
              record r { bytes = piece m offset (m.size - offset) ++ r.bytes },
              rw (ltb_no n (m.size - offset) (omega arith), ==_no (m.size - offset) n ne)
                  (copied (piece m offset (m.size - offset)) _ run),
              Reads-more (take_all (m.size - offset) first (omega (arith, len))) split
                  (omega (arith, len)) v,
            )
      ]
    ]

-- From a well-formed buffer with `n` bytes at least, `n` positive, `databuffer_read` passes its
-- assertion and follows no null pointer. It copies the first `n` bytes and leaves the others, in a
-- well-formed buffer with the same header.
pub databuffer_read_lem :
    (db : DataBuffer) (mp : MessagePool) (n : ℕ)
    → IsValid db
    → 0 < n
    → n ≤ db.size
    → (d : DataBuffer) × (p : MessagePool) × (databuffer_read db mp n
        ≡ some (take n (contents db), d, p))
      × (contents d ≡ drop n (contents db))
      × IsValid d
      × (d.size ≡ db.size - n)
      × (d.header ≡ db.header)
unfolding databuffer_read contents
databuffer_read_lem db mp n v p h =
    let (r, run, w) =
      read_loop_lem db.messages db.offset mp n p (omega (arith, v.size)) v.sizes v.offset in
    let d = record db { size = db.size - n; offset = r.at; messages = r.left } in
    (
      d,
      r.pool,
      rw (ltb_no db.size n (omega arith)) (rw (run, w.bytes) refl),
      w.left,
      record {
        sizes = w.sizes;
        offset = w.offset;
        size = omega (arith, ap length w.left, length-drop n (contents db), v.size);
      },
      refl,
      refl,
    )

body-append : (ms ns : List Message) → body (ms ++ ns) ≡ body ms ++ body ns
unfolding body
body-append [] ns = refl
body-append (m ∷ ms) ns =
    ap (λ t. m.buffer ++ t) (body-append ms ns) ∙ sym (append_assoc m.buffer (body ms) (body ns))

Sizes-append : (ms ns : List Message) → Sizes ms → Sizes ns → Sizes (ms ++ ns)
Sizes-append [] ns s t = t
Sizes-append (m ∷ ms) ns s t = (s.0, Sizes-append ms ns s.1 t)

Offset-append :
    (offset : ℕ) (ms : List Message) (m : Message) → Offset offset ms → Offset offset (ms ++ m ∷ [])
Offset-append offset [] m o = omega (arith, o)
Offset-append offset (n ∷ ms) m o = o

Offset-inside :
    (offset : ℕ) (ms : List Message) → Sizes ms → Offset offset ms → offset ≤ length (body ms)
unfolding body
Offset-inside offset [] s o = omega (arith, o)
Offset-inside offset (m ∷ ms) s o = omega (arith, s.0, length-append m.buffer (body ms))

-- `databuffer_push` of bytes with their right size puts them behind the others, keeps a well-formed
-- buffer well formed, and leaves the header.
pub databuffer_push_lem :
    (db : DataBuffer) (mp : MessagePool) (bytes : List ℕ)
    → IsValid db
    → let (d, p) = databuffer_push db mp bytes (length bytes) in
      (contents d ≡ contents db ++ bytes)
      × IsValid d
      × (d.size ≡ db.size + length bytes)
      × (d.header ≡ db.header)
unfolding databuffer_push contents body
databuffer_push_lem db mp bytes v =
    let m : Message = record { node = (take_node mp).0; buffer = bytes; size = length bytes } in
    let e : drop db.offset (body (db.messages ++ m ∷ [])) ≡ contents db ++ bytes =
      rw (body-append db.messages (m ∷ []), append-nil bytes)
        (drop-append db.offset (body db.messages) bytes
          (Offset-inside db.offset db.messages v.sizes v.offset)) in
    (
      e,
      record {
        sizes = Sizes-append db.messages (m ∷ []) v.sizes (refl, tt);
        offset = Offset-append db.offset db.messages m v.offset;
        size = omega (arith, ap length e, length-append (contents db) bytes, v.size);
      },
      refl,
      refl,
    )
