-- ===== src/DataBuffer/Dispatch.antt =====
-- `dispatch_message` cuts the bytes of the buffer as `cut` does.
use jump.Base.{
  ℕ, zero, suc, ◌+◌, ◌≤◌, ◌<◌, ◌≡◌, ◌≢◌, ◌⊎◌, inl, inr, refl, ap, ap₂, subst, ◌∙◌, true, false,
  List, [], ◌∷◌, ◌++◌, none, some, arith, length, take, drop, leb, ltb_no, ==_no, ==_iff,
  Bool-cases, Option-cases,
}
use jump.DataBuffer.{
  DataBuffer, MessagePool, Dispatched, databuffer_push, big_endian, complete, databuffer_readheader,
  databuffer_read, databuffer_clear, databuffer_reset, dispatch_loop, dispatch_message, zeroed,
  forwarded,
}
use jump.DataBuffer.Read.{body, contents, IsValid, databuffer_read_lem, databuffer_push_lem}
use jump.DataBuffer.Frames.{Cut, cut, next, next_lem, incomplete, packet_before}

-- `databuffer_readheader` finds the header that `next` finds.
pub readheader_none :
    (db : DataBuffer) (mp : MessagePool) (hs : ℕ)
    → IsValid db
    → next hs db.header (contents db) ≡ none
    → databuffer_readheader db mp hs ≡ some (none, db, mp)
unfolding databuffer_readheader next
readheader_none db mp hs v e = ground (arith, v.size)

pub next_cases :
    (hs header : ℕ) (xs ys : List ℕ) (n : ℕ)
    → next hs header xs ≡ some (n, ys)
    → ((header ≢ 0) × (header ≡ n) × (xs ≡ ys))
      ⊎ ((header ≡ 0) × (hs ≤ length xs) × (big_endian hs (take hs xs) ≡ n) × (drop hs xs ≡ ys))
unfolding next
next_cases hs header xs ys n e = ground arith

parses :
    (db : DataBuffer) (mp : MessagePool) (hs n : ℕ) {plen : List ℕ} {d : DataBuffer}
    {p : MessagePool}
    → db.header ≡ 0
    → hs ≤ db.size
    → databuffer_read db mp hs ≡ some (plen, d, p)
    → big_endian hs plen ≡ n
    → databuffer_readheader db mp hs
      ≡ some (complete (record d { header = n }), record d { header = n }, p)
unfolding databuffer_readheader
parses db mp hs n {d = d} {p = p} z room run num =
    rw ((==_iff db.header 0).1 z, ltb_no db.size hs room, run)
      (ap (λ k. some (complete (record d { header = k }), record d { header = k }, p)) num)

pub readheader_some :
    (db : DataBuffer) (mp : MessagePool) (hs n : ℕ) (ys : List ℕ)
    → IsValid db
    → 0 < hs
    → next hs db.header (contents db) ≡ some (n, ys)
    → (d : DataBuffer) × (p : MessagePool) × (databuffer_readheader db mp hs
        ≡ some (complete d, d, p))
      × (contents d ≡ ys)
      × IsValid d
      × (d.header ≡ n)
unfolding databuffer_readheader contents
readheader_some db mp hs n ys v p e = elim (next_cases hs db.header (contents db) ys n e) [
  | inl (z, same, all) ↦ (db, mp, rw (==_no db.header 0 z) refl, all, v, same)
  | inr (z, room, num, rest) ↦
      let (d, q, run, left, w, len, same) =
        databuffer_read_lem db mp hs v p (omega (arith, v.size)) in
      (
        record d { header = n },
        q,
        parses db mp hs n z (omega (arith, v.size)) run num,
        left ∙ rest,
        record { sizes = w.sizes; offset = w.offset; size = w.size },
        refl,
      )
]

empty_packet : (d : DataBuffer) → d.header ≡ 0 → complete d ≡ some 0
empty_packet d z = ground arith

complete-none :
    (d : DataBuffer) (n : ℕ) (ys : List ℕ)
    → IsValid d
    → d.header ≡ n
    → contents d ≡ ys
    → incomplete n ys ≡ true
    → complete d ≡ none
unfolding incomplete
complete-none d n ys v z same i = ground (arith, v.size, ap length same)

complete-some :
    (d : DataBuffer) (n : ℕ) (ys : List ℕ)
    → IsValid d
    → d.header ≡ n
    → contents d ≡ ys
    → incomplete n ys ≡ false
    → (complete d ≡ some n) × (n ≤ d.size)
unfolding incomplete
complete-some d n ys v z same i = ground (arith, v.size, ap length same)

-- What is left of the buffer is what is left of the stream.
pub record Agrees (c : Cut) (r : Dispatched) : Type 0 where
  pub packets : r.packets ≡ c.packets
  pub closed : r.closed ≡ c.closed
  pub header : r.db.header ≡ c.header
  pub bytes : contents r.db ≡ c.tail
  pub valid : IsValid r.db

pub zeroed-IsValid : IsValid zeroed
zeroed-IsValid = record { sizes = tt; offset = refl; size = unfold contents body in refl }

pub reset-IsValid : (db : DataBuffer) → IsValid db → IsValid (databuffer_reset db)
unfolding contents
reset-IsValid db v = record { sizes = v.sizes; offset = v.offset; size = v.size }

contents-reset : (db : DataBuffer) → contents (databuffer_reset db) ≡ contents db
unfolding contents
contents-reset db = refl

Agrees-forwarded :
    {xs ys : List ℕ} {c : Cut} {r : Dispatched}
    → xs ≡ ys
    → Agrees c r
    → Agrees (packet_before ys c) (forwarded xs r)
Agrees-forwarded e a = record {
  packets = ap₂ ◌∷◌ e a.packets;
  closed = a.closed;
  header = a.header;
  bytes = a.bytes;
  valid = a.valid;
}

pub dispatch_loop_lem :
    (fuel hs : ℕ) (db : DataBuffer) (mp : MessagePool)
    → IsValid db
    → 0 < hs
    → db.size < fuel
    → (r : Dispatched) × (dispatch_loop fuel hs db mp ≡ some r)
      × Agrees (cut fuel hs db.header (contents db)) r
unfolding dispatch_loop cut
dispatch_loop_lem zero hs db mp v p h = absurd (omega arith)
dispatch_loop_lem (suc fuel) hs db mp v p h =
    elim (Option-cases (next hs db.header (contents db))) [
      | inl e ↦ (
        record { packets = []; closed = false; db = db; mp = mp },
        rw (readheader_none db mp hs v e) refl,
        rw (e, cut)
            (record { packets = refl; closed = refl; header = refl; bytes = refl; valid = v }),
      )
      | inr ((zero, ys), e) ↦
          let (d, q, run, same, w, z) = readheader_some db mp hs 0 ys v p e in
          let (l, m) = next_lem hs db.header (contents db) ys 0 p e in
          let (r, go, a) =
            dispatch_loop_lem fuel hs d q w p
              (omega (arith, v.size, w.size, ap length same, m refl)) in
          (
            r,
            rw (run, empty_packet d z) go,
            rw (e, cut)
                (subst (λ x. Agrees (cut fuel hs x ys) r) z
                  (subst (λ x. Agrees (cut fuel hs d.header x) r) same a)),
          )
      | inr ((suc n, ys), e) ↦
          let (d, q, run, same, w, z) = readheader_some db mp hs (suc n) ys v p e in
          let (l, m) = next_lem hs db.header (contents db) ys (suc n) p e in
          elim (Bool-cases (incomplete (suc n) ys)) [
            | inl i ↦ (
              record { packets = []; closed = false; db = d; mp = q },
              rw (run, complete-none d (suc n) ys w z same i) refl,
              rw (e, i, cut)
                  (record { packets = refl; closed = refl; header = z; bytes = same; valid = w }),
            )
            | inr i ↦
                let (c, room) = complete-some d (suc n) ys w z same i in
                elim (Bool-cases (leb 0x1000000 (suc n))) [
                  | inl big ↦ (
                    record {
                      packets = [];
                      closed = true;
                      db = zeroed;
                      mp = (databuffer_clear d q).1;
                    },
                    rw (run, c, big) refl,
                    rw (e, i, big, cut)
                        (record {
                          packets = refl;
                          closed = refl;
                          header = refl;
                          bytes = unfold contents body in refl;
                          valid = zeroed-IsValid;
                        }),
                  )
                  | inr small ↦
                      let (f, o, read, left, u, len, _) =
                        databuffer_read_lem d q (suc n) w (omega arith) room in
                      let (r, go, a) =
                        dispatch_loop_lem fuel hs (databuffer_reset f) o (reset-IsValid f u) p
                          (omega (arith, v.size, w.size, ap length same)) in
                      (
                        forwarded (take (suc n) (contents d)) r,
                        rw (run, c, small, read) (rw go refl),
                        rw (e, i, small, cut)
                            (Agrees-forwarded (ap (take (suc n)) same) (
                              subst (λ x. Agrees (cut fuel hs 0 x) r)
                                (contents-reset f ∙ left ∙ ap (drop (suc n)) same) a)),
                      )
                ]
          ]
    ]

-- On a well-formed buffer, `dispatch_message` follows no null pointer and ends, with as many rounds as
-- the buffer has bytes, and one. It forwards the packets that the buffered bytes and the new ones hold
-- together, closes on a packet of 16M or more, and keeps the header and the bytes that are left.
pub dispatch_message_lem :
    (hs : ℕ) (db : DataBuffer) (mp : MessagePool) (bytes : List ℕ)
    → IsValid db
    → 0 < hs
    → (r : Dispatched) × (dispatch_message hs db mp bytes (length bytes) ≡ some r)
      × Agrees (cut (db.size + length bytes + 1) hs db.header (contents db ++ bytes)) r
unfolding dispatch_message
dispatch_message_lem hs db mp bytes v p =
    let (d, q) = databuffer_push db mp bytes (length bytes) in
    let (same, w, len, head) = databuffer_push_lem db mp bytes v in
    let (r, run, a) = dispatch_loop_lem (d.size + 1) hs d q w p (omega arith) in
    (
      r,
      run,
      subst (λ x. Agrees (cut (x + 1) hs db.header (contents db ++ bytes)) r) len
          (subst (λ x. Agrees (cut (d.size + 1) hs x (contents db ++ bytes)) r) head
            (subst (λ x. Agrees (cut (d.size + 1) hs d.header x) r) same a)),
    )
