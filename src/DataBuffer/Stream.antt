-- ===== src/DataBuffer/Stream.antt =====
-- The messages of a connection in a row: where the socket thread splits the bytes does not matter.
use mathlib.Core.Option
use jump.Base.{
  length-drop, ℕ, zero, suc, ◌+◌, ◌≤◌, ◌<◌, ◌≡◌, inl, inr, refl, sym, ap, ap₂, subst, ◌∙◌, true,
  false, List, [], ◌∷◌, ◌++◌, append_assoc, append-nil, Option, none, some, ◌>>=◌, arith, length,
  drop, length-append, if◌then◌else◌, Bool-cases, Option-cases, ==_no, leb,
}
use jump.DataBuffer.{DataBuffer, MessagePool, Dispatched, dispatch_message}
use jump.DataBuffer.Read.{contents, IsValid}
use jump.DataBuffer.Frames.{
  Cut, waiting, enough, cut, next, next_lem, incomplete, resume, cut-append,
}
use jump.DataBuffer.Dispatch.{Agrees, dispatch_message_lem}

abbrev pub concat : List (List ℕ) → List ℕ
concat [] = []
concat (xs ∷ xss) = xs ++ concat xss

abbrev pub packets_before : List (List ℕ) → Dispatched → Dispatched
packets_before packets r = record r { packets = packets ++ r.packets }

-- The data messages of one connection, each of which goes to `dispatch_message`, until it closes.
pub feed : ℕ → DataBuffer → MessagePool → List (List ℕ) → Option Dispatched
feed hs db mp [] = some (record { packets = []; closed = false; db = db; mp = mp })
feed hs db mp (bytes ∷ more) = do
  r ← dispatch_message hs db mp bytes (length bytes)
  let rest = feed hs r.db r.mp more in
      if r.closed then some r else Option.map (packets_before r.packets) rest

tail_le : (f hs header : ℕ) (xs : List ℕ) → 0 < hs → length (cut f hs header xs).tail ≤ length xs
unfolding cut
tail_le zero hs header xs p = omega arith
tail_le (suc f) hs header xs p = elim (Option-cases (next hs header xs)) [
  | inl e ↦ rw (e, cut) (omega arith)
  | inr ((zero, ys), e) ↦
      let (l, m) = next_lem hs header xs ys 0 p e in
      rw (e, cut) (omega (arith, tail_le f hs 0 ys p))
  | inr ((suc n, ys), e) ↦
      let (l, m) = next_lem hs header xs ys (suc n) p e in
      let r = tail_le f hs 0 (drop (suc n) ys) p in
      rw (e, cut) (ground (arith, r, length-drop (suc n) ys))
]

-- Nothing is to be cut from the bytes before more arrive.
abbrev pub Settled : ℕ → ℕ → List ℕ → Type 0
Settled hs header xs = (g : ℕ) → cut g hs header xs ≡ waiting header xs

pub settle_without_header :
    (hs header : ℕ) (xs : List ℕ) → next hs header xs ≡ none → Settled hs header xs
unfolding cut
settle_without_header hs header xs e zero = refl
settle_without_header hs header xs e (suc g) = rw (e, cut) refl

settle_in_packet : (hs n : ℕ) (xs : List ℕ) → incomplete (suc n) xs ≡ true → Settled hs (suc n) xs
unfolding cut next
settle_in_packet hs n xs i zero = refl
settle_in_packet hs n xs i (suc g) = rw (==_no (suc n) 0 (omega arith), i, cut) refl

cut-Settled :
    (f hs header : ℕ) (xs : List ℕ)
    → 0 < hs
    → length xs < f
    → (cut f hs header xs).closed ≡ false
    → Settled hs (cut f hs header xs).header (cut f hs header xs).tail
unfolding cut
cut-Settled zero hs header xs p h o = absurd (omega arith)
cut-Settled (suc f) hs header xs p h o = elim (Option-cases (next hs header xs)) [
  | inl e ↦ rw (e, cut) (settle_without_header hs header xs e)
  | inr ((zero, ys), e) ↦
      let (l, m) = next_lem hs header xs ys 0 p e in
      let q = m refl in
      let o' : (cut f hs 0 ys).closed ≡ false = sym (rw (e, cut) refl) ∙ o in
      rw (e, cut) (cut-Settled f hs 0 ys p (omega arith) o')
  | inr ((suc n, ys), e) ↦
      let (l, m) = next_lem hs header xs ys (suc n) p e in
      elim (Bool-cases (incomplete (suc n) ys)) [
        | inl i ↦ rw (e, i, cut) (settle_in_packet hs n ys i)
        | inr i ↦ elim (Bool-cases (leb 0x1000000 (suc n))) [
          | inl big ↦
              let no : true ≡ false = sym (rw (e, i, big, cut) refl) ∙ o in absurd (ground arith)
          | inr small ↦
              let (fit, _) = enough (suc n) ys [] i in
              let o' : (cut f hs 0 (drop (suc n) ys)).closed ≡ false =
                sym (rw (e, i, small, cut) refl) ∙ o in
              rw (e, i, small, cut)
                (cut-Settled f hs 0 (drop (suc n) ys) p (omega (arith, length-drop (suc n) ys)) o')
        ]
      ]
]

resume_closed : (fuel hs : ℕ) (zs : List ℕ) (c : Cut) → c.closed ≡ true → resume fuel hs zs c ≡ c
unfolding resume
resume_closed fuel hs zs c o = rw o refl

resume-Agrees :
    (fuel hs : ℕ) (zs : List ℕ) {c : Cut} {r r2 : Dispatched}
    → c.closed ≡ false
    → Agrees c r
    → Agrees (cut fuel hs r.db.header (contents r.db ++ zs)) r2
    → Agrees (resume fuel hs zs c) (packets_before r.packets r2)
unfolding resume
resume-Agrees fuel hs zs {c} {r} {r2} o a b =
    let b' =
      subst (λ x. Agrees (cut fuel hs c.header x) r2) (ap (λ x. x ++ zs) a.bytes)
        (subst (λ x. Agrees (cut fuel hs x (contents r.db ++ zs)) r2) a.header b) in
    rw o (record {
      packets = ap₂ ◌++◌ a.packets b'.packets;
      closed = b'.closed;
      header = b'.header;
      bytes = b'.bytes;
      valid = b'.valid;
    })

Settled-Agrees :
    (f hs header : ℕ) (xs : List ℕ) (r : Dispatched)
    → 0 < hs
    → length xs < f
    → Agrees (cut f hs header xs) r
    → r.closed ≡ false
    → Settled hs r.db.header (contents r.db)
Settled-Agrees f hs header xs r p h a o =
    let w = cut-Settled f hs header xs p h (sym a.closed ∙ o) in
    subst (λ x. Settled hs r.db.header x) (sym a.bytes)
      (subst (λ x. Settled hs x (cut f hs header xs).tail) (sym a.header) w)

pub feed_lem :
    (more : List (List ℕ)) (fuel hs : ℕ) (db : DataBuffer) (mp : MessagePool)
    → IsValid db
    → 0 < hs
    → length (contents db ++ concat more) < fuel
    → Settled hs db.header (contents db)
    → (r : Dispatched) × (feed hs db mp more ≡ some r)
      × Agrees (cut fuel hs db.header (contents db ++ concat more)) r
unfolding feed
feed_lem [] fuel hs db mp v p h w = (
  record { packets = []; closed = false; db = db; mp = mp },
  refl,
  rw (append-nil (contents db), w fuel)
      (record { packets = refl; closed = refl; header = refl; bytes = refl; valid = v }),
)
feed_lem (bytes ∷ more) fuel hs db mp v p h w =
    let (r, run, a) = dispatch_message_lem hs db mp bytes v p in
    let c = cut (db.size + length bytes + 1) hs db.header (contents db ++ bytes) in
    let lens = length-append (contents db) (bytes ++ concat more) in
    let long = length-append bytes (concat more) in
    let two = length-append (contents db) bytes in
    let whole : cut fuel hs db.header (contents db ++ (bytes ++ concat more))
        ≡ resume fuel hs (concat more) c =
      ap (cut fuel hs db.header) (sym (append_assoc (contents db) bytes (concat more)))
      ∙ cut-append (db.size + length bytes + 1) fuel fuel hs db.header (contents db ++ bytes)
          (concat more) p (omega (arith, v.size, length-append (contents db) bytes))
          (omega (arith, lens, long, two)) (omega (arith, lens, long, two)) in
    elim (Bool-cases r.closed) [
      | inl o ↦ (
        r,
        rw (run, o) refl,
        subst (λ x. Agrees x r)
            (sym (whole ∙ resume_closed fuel hs (concat more) c (sym a.closed ∙ o))) a,
      )
      | inr o ↦
          let (r2, run2, b) =
            feed_lem more fuel hs r.db r.mp a.valid p
              (omega (
                arith,
                lens,
                long,
                two,
                ap length a.bytes,
                tail_le (db.size + length bytes + 1) hs db.header (contents db ++ bytes) p,
                length-append (contents r.db) (concat more),
              ))
              (Settled-Agrees (db.size + length bytes + 1) hs db.header (contents db ++ bytes) r p
                (omega (arith, v.size, length-append (contents db) bytes)) a o) in
          (
            packets_before r.packets r2,
            rw (run, o) (ap (Option.map (packets_before r.packets)) run2),
            subst (λ x. Agrees x (packets_before r.packets r2)) (sym whole)
                (resume-Agrees fuel hs (concat more) (sym a.closed ∙ o) a b),
          )
    ]
