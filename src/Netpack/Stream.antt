-- ===== src/Netpack/Stream.antt =====
-- The data of the sockets in a row: each descriptor gets the packets of its own stream.
use jump.Base.{
  ℕ, ◌+◌, ◌-◌, ◌*◌, ◌/◌, ◌%◌, ◌^◌, ◌<◌, ◌≤◌, ◌≡◌, ◌≢◌, refl, ap, ap₂, sym, subst, ◌∙◌, List, [],
  ◌∷◌, ◌++◌, arith, true, false, Option, none, some, length, take, drop, ltb, ◌==◌, ==_iff,
  Bool-cases, Option-cases, inl, inr, take_all, drop_all, take_more, drop_more, length-append,
}
use jump.Netpack.{
  Uncomplete, Queue, hash_fd, find_uncomplete, push_data, link, save_header, save_packet, push_more,
  Message, nothing, packet, more, fill, resume, start, filter_data,
}
use jump.Netpack.Ring.{contents}
use jump.Netpack.Chain.{waiting, Partial, Absent, pending, Found, find_uncomplete_lem}
use jump.Netpack.Frames.{
  Split, split, frames, all_rest, packet_first, frames_cons, frames_none, IsBytes, drop-IsBytes,
}
use jump.Netpack.Filter.{
  IsValid, Cuts, packs, link-Cuts, save_header-Cuts, save_packet-Cuts, before-Cuts, same-Cuts,
  pushed-IsValid, pushed-Absent, push_more_lem, drop_some,
}

-- What Lua is told: a packet that comes alone is handed over, others are in the queue.
unfoldable pub report : ℕ → List (List ℕ) → List ℕ → Message
report fd [] rest = nothing
report fd (x ∷ []) [] = packet fd x
report fd (x ∷ []) (b ∷ rest) = more
report fd (x ∷ y ∷ ps) rest = more

unfoldable pub queued : List (List ℕ) → List ℕ → List (List ℕ)
queued [] rest = []
queued (x ∷ []) [] = []
queued (x ∷ []) (b ∷ rest) = x ∷ []
queued (x ∷ y ∷ ps) rest = x ∷ y ∷ ps

pub record Filters (q : Queue) (fd : ℕ) (s : Split) (m : Message) (r : Queue) : Type 0 where
  pub message : m ≡ report fd s.packets s.rest
  pub cuts : Cuts q fd (queued s.packets s.rest) s.rest r

several :
    (fd : ℕ) (x : List ℕ) (ps : List (List ℕ)) (rest : List ℕ)
    → (ps ≡ [] → rest ≢ [])
    → (report fd (x ∷ ps) rest ≡ more) × (queued (x ∷ ps) rest ≡ x ∷ ps)
unfolding report queued
several fd x [] [] ne = absurd (ne refl refl)
several fd x [] (b ∷ rest) ne = (refl, refl)
several fd x (y ∷ ps) rest ne = (refl, refl)

-- A packet alone
alone_lem :
    (q : Queue) (fd : ℕ) (x ys : List ℕ)
    → IsValid q
    → Absent fd (q.hash (hash_fd fd))
    → ys ≡ []
    → Filters q fd (packet_first x (frames ys)) (packet fd x) q
unfolding report queued split
alone_lem q fd x ys v a e = rw e (record { message = refl; cuts = same-Cuts q fd v a })

-- A packet before others
several_lem :
    (q : Queue) (fd : ℕ) (x ys : List ℕ)
    → IsValid q
    → Absent fd (q.hash (hash_fd fd))
    → IsBytes ys
    → ys ≢ []
    → (r : Queue) × (push_more (length ys) (push_data q fd x) fd ys ≡ some r)
      × Filters q fd (packet_first x (frames ys)) more r
several_lem q fd x ys v a i ne =
    let (r, run, c) =
      push_more_lem (length ys) (push_data q fd x) fd ys (pushed-IsValid fd x v)
        (pushed-Absent fd x v a) i ne (omega arith) in
    let s = frames ys in
    let (m, k) =
      several fd x s.packets s.rest (λ e z. ne (sym (frames_none (length ys) ys e) ∙ z)) in
    (
      r,
      run,
      record {
        message = sym m;
        cuts = subst (λ ps. Cuts q fd ps s.rest r) (sym k) (before-Cuts v c);
      },
    )

-- The bytes do not fill the packet.
nothing_lem :
    (q : Queue) (fd : ℕ) (rest : List ℕ) (r : Queue)
    → Cuts q fd [] rest r
    → Filters q fd (all_rest rest) nothing r
unfolding report queued
nothing_lem q fd rest r c = record { message = refl; cuts = c }

start_lem :
    (q : Queue) (fd : ℕ) (bytes : List ℕ)
    → IsValid q
    → Absent fd (q.hash (hash_fd fd))
    → IsBytes bytes
    → bytes ≢ []
    → (m : Message) × (r : Queue) × (start q fd bytes ≡ some (m, r))
      × Filters q fd (frames bytes) m r
unfolding start
start_lem q fd [] v a i ne = absurd (ne refl)
start_lem q fd (x ∷ []) v a i ne = (
  nothing,
  save_header q fd x,
  refl,
  unfold split in nothing_lem q fd (x ∷ []) (save_header q fd x) (save_header-Cuts q fd x v a),
)
start_lem q fd (x ∷ y ∷ xs) v a (_, (small, i)) ne =
    let n = x * 2 ^ 8 + y in
    elim (Bool-cases (ltb (length xs) n)) [
      | inl s ↦ (
        nothing,
        save_packet q fd n xs,
        rw (s, start) refl,
        rw (frames_cons x y xs, s)
            (nothing_lem q fd (x ∷ y ∷ xs) (save_packet q fd n xs)
              (save_packet-Cuts q fd x y xs v a small (ground (arith, s)))),
      )
      | inr s ↦ elim (Bool-cases (length xs == n)) [
        | inl t ↦
            let all : take n xs ≡ xs = take_all n xs (ground (arith, t)) in
            let none_left : drop n xs ≡ [] = drop_all n xs (ground (arith, t)) in
            (
              packet fd xs,
              q,
              rw (s, t, start) refl,
              rw (frames_cons x y xs, s, all) (alone_lem q fd xs (drop n xs) v a none_left),
            )
        | inr t ↦
            let (r, run, f) =
              several_lem q fd (take n xs) (drop n xs) v a (drop-IsBytes n xs i)
                (drop_some n xs (ground (arith, s, t))) in
            (more, r, rw (s, t, run, start) refl, rw (frames_cons x y xs, s) f)
      ]
    ]

empty : (xs : List ℕ) → length xs ≡ 0 → xs ≡ []
empty [] e = refl
empty (x ∷ xs) e = absurd (omega (arith, e))

-- What is linked again when the bytes do not fill the packet
abbrev filled : Uncomplete → ℕ → List ℕ → Uncomplete
filled uc read bytes = record uc {
  buffer = take read uc.buffer ++ take (uc.size - read) bytes;
  read = some (read + length bytes);
}

unfilled_lem :
    (q : Queue) (fd : ℕ) (uc : Uncomplete) (read a b : ℕ) (bytes : List ℕ)
    → IsValid q
    → Absent fd (q.hash (hash_fd fd))
    → uc.id ≡ fd
    → read ≡ length uc.buffer
    → read ≤ uc.size
    → a * 2 ^ 8 + b ≡ uc.size
    → b < 2 ^ 8
    → ltb (length bytes) (uc.size - read) ≡ true
    → (ltb (length (uc.buffer ++ bytes)) (a * 2 ^ 8 + b) ≡ true)
      × Cuts q fd [] (a ∷ b ∷ (uc.buffer ++ bytes)) (link q fd (filled uc read bytes))
unfolding waiting Partial
unfilled_lem q fd uc read a b bytes v e is_fd len le size small s =
    let need = uc.size - read in
    let count = length-append uc.buffer bytes in
    let same : take read uc.buffer ++ take need bytes ≡ uc.buffer ++ bytes =
      ap₂ ◌++◌ (take_all read uc.buffer (omega (arith, len)))
        (take_all need bytes (ground (arith, s))) in
    let total = ap length same ∙ count in
    (
      ground (arith, s, count, len, le, size),
      subst (λ xs. Cuts q fd [] xs (link q fd (filled uc read bytes)))
          (ap₂ (λ (xs : List ℕ) (t : List ℕ). xs ++ t)
            (ap₂ (λ x y. x ∷ y ∷ []) (omega (arith, size)) (omega (arith, size))) same)
          (link-Cuts q fd (filled uc read bytes) v e
            (omega (arith, total, len), ground (arith, total, len, le, s)) is_fd),
    )

fill_lem :
    (q : Queue) (fd : ℕ) (uc : Uncomplete) (read a b : ℕ) (bytes : List ℕ)
    → IsValid q
    → Absent fd (q.hash (hash_fd fd))
    → IsBytes bytes
    → uc.id ≡ fd
    → read ≡ length uc.buffer
    → read ≤ uc.size
    → a * 2 ^ 8 + b ≡ uc.size
    → b < 2 ^ 8
    → (m : Message) × (r : Queue) × (fill q fd uc read bytes ≡ some (m, r))
      × Filters q fd (frames (a ∷ b ∷ (uc.buffer ++ bytes))) m r
unfolding fill
fill_lem q fd uc read a b bytes v e i is_fd len le size small =
    let need = uc.size - read in
    let ys = uc.buffer ++ bytes in
    let n = a * 2 ^ 8 + b in
    let whole : take read uc.buffer ≡ uc.buffer = take_all read uc.buffer (omega (arith, len)) in
    let first : take n ys ≡ uc.buffer ++ take need bytes =
      take_more n need uc.buffer bytes (omega (arith, len, le, size)) in
    let later : drop n ys ≡ drop need bytes =
      drop_more n need uc.buffer bytes (omega (arith, len, le, size)) in
    let count = length-append uc.buffer bytes in
    elim (Bool-cases (ltb (length bytes) need)) [
      | inl s ↦
          let (short, c) = unfilled_lem q fd uc read a b bytes v e is_fd len le size small s in
          (
            nothing,
            link q fd (filled uc read bytes),
            rw (s, fill) refl,
            rw (frames_cons a b ys, short)
                (nothing_lem q fd (a ∷ b ∷ ys) (link q fd (filled uc read bytes)) c),
          )
      | inr s ↦
          let enough : ltb (length ys) n ≡ false = ground (arith, s, count, len, le, size) in
          elim (Bool-cases (length (drop need bytes) == 0)) [
            | inl t ↦
                let none_left : drop need bytes ≡ [] = empty (drop need bytes) ((==_iff _ 0).0 t) in
                (
                  packet fd (take read uc.buffer ++ take need bytes),
                  q,
                  rw (s, t, fill) refl,
                  rw (frames_cons a b ys, enough, first, later, whole)
                      (alone_lem q fd (uc.buffer ++ take need bytes) (drop need bytes) v e
                        none_left),
                )
            | inr t ↦
                let ne : drop need bytes ≢ [] = λ z. absurd (ground (arith, t, ap length z)) in
                let (r, run, f) =
                  several_lem q fd (take read uc.buffer ++ take need bytes) (drop need bytes) v e
                    (drop-IsBytes need bytes i) ne in
                (
                  more,
                  r,
                  rw (s, t, run, fill) refl,
                  rw (frames_cons a b ys, enough, first, later)
                      (subst
                        (λ x.
                          Filters q fd
                            (packet_first (x ++ take need bytes) (frames (drop need bytes))) more r)
                        whole f),
                )
          ]
    ]

-- The second byte of the header, and what follows
header_lem :
    (q : Queue) (fd : ℕ) (uc : Uncomplete) (bytes : List ℕ)
    → IsValid q
    → Absent fd (q.hash (hash_fd fd))
    → IsBytes bytes
    → bytes ≢ []
    → uc.id ≡ fd
    → (m : Message) × (r : Queue) × (resume q fd (record uc { read = none }) bytes ≡ some (m, r))
      × Filters q fd (frames (uc.header ∷ bytes)) m r
unfolding resume
header_lem q fd uc [] v e i ne is_fd = absurd (ne refl)
header_lem q fd uc (b ∷ rest) v e (small, i) ne is_fd =
    (fill_lem q fd (record uc { size = uc.header * 2 ^ 8 + b; buffer = []; read = some 0 }) 0
      uc.header b rest v e i is_fd refl (omega arith) refl small)

resume_lem :
    (q : Queue) (fd : ℕ) (uc : Uncomplete) (bytes : List ℕ)
    → IsValid q
    → Absent fd (q.hash (hash_fd fd))
    → IsBytes bytes
    → bytes ≢ []
    → uc.id ≡ fd
    → Partial uc
    → (m : Message) × (r : Queue) × (resume q fd uc bytes ≡ some (m, r))
      × Filters q fd (frames (waiting uc ++ bytes)) m r
unfolding resume waiting Partial
resume_lem q fd uc bytes v e i ne is_fd p = elim (Option-cases uc.read) [
  | inr (read, s) ↦
      let (len, short) : (read ≡ length uc.buffer) × (length uc.buffer < uc.size) =
        rw (s, Partial) at p in
      rw (s, resume, waiting)
        (fill_lem q fd uc read (uc.size / 2 ^ 8) (uc.size % 2 ^ 8) bytes v e i is_fd len
          (omega (arith, len, short)) (omega arith) (omega arith))
  | inl s ↦ rw (s, waiting) (header_lem q fd uc bytes v e i ne is_fd)
]

-- The chain without the descriptor changes nothing else.
taken-Filters :
    {q : Queue} {fd : ℕ} {o : Option Uncomplete} {p : Queue} {s : Split} {m : Message} {r : Queue}
    → Found q.hash fd o p.hash
    → contents p ≡ contents q
    → Filters p fd s m r
    → Filters q fd s m r
taken-Filters {fd = fd} {s = s} f same c = record {
  message = c.message;
  cuts = record {
    valid = c.cuts.valid;
    queued = c.cuts.queued ∙ ap (λ t. t ++ packs fd (queued s.packets s.rest)) same;
    waits = c.cuts.waits;
    others = λ g ne. c.cuts.others g ne ∙ f.same g ne;
  };
}

-- In a queue in order, let bytes come for a descriptor. `filter_data_` reads no byte that is not there;
-- it cuts the bytes that were waiting and the new ones into packets. A packet alone is handed over;
-- several packets, or one with bytes behind it, are put behind all others in the queue, in order; and
-- the bytes that are left wait. What waits for other descriptors stays, and the queue is in order.
pub filter_data_lem :
    (q : Queue) (fd : ℕ) (bytes : List ℕ)
    → IsValid q
    → IsBytes bytes
    → bytes ≢ []
    → (m : Message) × (r : Queue) × (filter_data q fd bytes ≡ some (m, r))
      × Filters q fd (frames (pending q.hash fd ++ bytes)) m r
unfolding filter_data
filter_data_lem q fd bytes v i ne =
    let p = (find_uncomplete q fd).1 in
    let f = find_uncomplete_lem q fd v.table in
    let w : IsValid p =
      unfold find_uncomplete in
      record {
        ring = record { len = v.ring.len; head = v.ring.head; tail = v.ring.tail };
        table = f.table;
      } in
    let same : contents p ≡ contents q = unfold find_uncomplete contents in refl in
    elim (Option-cases (find_uncomplete q fd).0) [
      | inl z ↦
          let (m, r, run, c) = start_lem p fd bytes w f.absent i ne in
          (m, r, rw (z, filter_data) run, rw (f.lost z) (taken-Filters f same c))
      | inr (uc, z) ↦
          let (is_fd, part, e) = f.found uc z in
          let (m, r, run, c) = resume_lem p fd uc bytes w f.absent i ne is_fd part in
          (m, r, rw (z, filter_data) run, rw e (taken-Filters f same c))
    ]
