-- ===== src/Gate/Unread.antt =====
-- A gate that reads no packet ends its loop over the buffer too.
use jump.Base.{
  ℕ, zero, suc, ◌+◌, ◌<◌, ◌≤◌, ◌≡◌, refl, sym, ap, ◌∙◌, true, false, some, List, [], arith, length,
  length-drop, ◌==◌, if◌then◌else◌, Option-cases, Bool-cases, inl, inr, leb, ◌>>=◌, ==_iff, ==_no,
}
use jump.DataBuffer.{
  DataBuffer, MessagePool, Dispatched, complete, databuffer_reset, databuffer_clear,
}
use jump.DataBuffer.Read.{IsValid, contents}
use jump.DataBuffer.Frames.{next}
use jump.DataBuffer.Dispatch.{
  readheader_none, readheader_some, next_cases, reset-IsValid, zeroed-IsValid,
}
use jump.Gate.{unread_loop}

-- How many rounds a buffer takes
abbrev pub rounds_left : DataBuffer → ℕ
rounds_left db = if db.header == 0 then db.size + 1 else db.size + 2

header_taken :
    (hs : ℕ) (db : DataBuffer) (n : ℕ) (ys : List ℕ)
    → 0 < hs
    → next hs db.header (contents db) ≡ some (n, ys)
    → length (contents db) ≡ db.size
    → (length ys + 2 ≤ rounds_left db) × (n ≡ 0 → db.header ≡ 0)
header_taken hs db n ys p e l = elim (next_cases hs db.header (contents db) ys n e) [
  | inl (nz, same, all) ↦
      (rw (==_no db.header 0 nz) (omega (arith, ap length all, l)), λ z. same ∙ z)
  | inr (z, room, num, rest) ↦ (
    rw ((==_iff db.header 0).1 z)
        (omega (arith, ap length rest, length-drop hs (contents db), l, room)),
    λ y. z,
  )
]

header_of : (d : DataBuffer) (k : ℕ) → complete d ≡ some k → d.header ≡ k
header_of d k e = ground (arith, e)

pub unread_lem :
    (fuel hs : ℕ) (db : DataBuffer) (mp : MessagePool)
    → IsValid db
    → 0 < hs
    → rounds_left db ≤ fuel
    → (r : Dispatched) × (unread_loop fuel hs db mp ≡ some r) × IsValid r.db
unfolding unread_loop
unread_lem zero hs db mp v p l = absurd (ground (arith, l))
unread_lem (suc fuel) hs db mp v p l = elim (Option-cases (next hs db.header (contents db))) [
  | inl e ↦ (
    record { packets = []; closed = false; db = db; mp = mp },
    rw (readheader_none db mp hs v e, unread_loop, ◌>>=◌) refl,
    v,
  )
  | inr ((n, ys), e) ↦
      let (d, q, run, left, w, is_n) = readheader_some db mp hs n ys v p e in
      let (fewer, head) = header_taken hs db n ys p e (sym v.size) in
      elim (Option-cases (complete d)) [
        | inl z ↦ (
          record { packets = []; closed = false; db = d; mp = q },
          rw (run, unread_loop, ◌>>=◌) (rw (z, unread_loop) refl),
          w,
        )
        | inr (zero, z) ↦
            let no_header : d.header ≡ 0 = header_of d 0 z in
            let (r, rest, x) = unread_lem fuel hs d q w p (
              rw ((==_iff d.header 0).1 no_header)
                (omega (arith, fewer, l, w.size, ap length left))) in
            (r, rw (run, unread_loop, ◌>>=◌) (rw (z, unread_loop) rest), x)
        | inr (suc k, z) ↦ elim (Bool-cases (leb 0x1000000 (suc k))) [
          | inl big ↦ (
            record {
              packets = [];
              closed = true;
              db = (databuffer_clear d q).0;
              mp = (databuffer_clear d q).1;
            },
            rw (run, unread_loop, ◌>>=◌) (rw (z, big, unread_loop) refl),
            zeroed-IsValid,
          )
          | inr small ↦
              let (r, rest, x) =
                unread_lem fuel hs (databuffer_reset d) q (reset-IsValid d w) p
                  (omega (arith, fewer, l, w.size, ap length left)) in
              (r, rw (run, unread_loop, ◌>>=◌) (rw (z, small, unread_loop) rest), x)
        ]
      ]
]
