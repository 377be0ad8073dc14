-- ===== src/Gate/Connections.antt =====
-- The array of connections and the table of their ids agree, whatever the sockets report.
use jump.Base.{
  ℕ, ◌+◌, ◌<◌, ◌≡◌, ◌≢◌, ◌↔◌, ◌⊎◌, inl, inr, refl, sym, ap, ◌∙◌, true, List, [], ◌∷◌, ◌++◌, none,
  some, arith, length, take, update, update_self, update_ne, at_update, ◌^◌, ◌≤◌, ℕ_discrete,
  Bool-cases, Option-cases, some-eq, some-ne-none, ◌>>=◌, if◌then◌else◌,
}
use jump.DataBuffer.{DataBuffer, Dispatched, databuffer_push}
use jump.DataBuffer.Read as Buffer
use jump.DataBuffer.Dispatch.{dispatch_message_lem, zeroed-IsValid}
use jump.Gate.Unread.{unread_lem}
use jump.HashId.{Hashid, lookup, remove, full}
use jump.HashId.Chains as Table
use jump.HashId.Chains.{lookup_iff}
use jump.HashId.Insert.{insert_lem}
use jump.HashId.Remove.{remove_lem}
use jump.Gate.{
  Connection, Gate, no_connection, Effect, SocketMessage, data_of, connect, close, error, accept,
  warning, close_socket, start_socket, report, report_open, report_close, reads, receive,
  forward_all, is_listen, on_data, on_close, on_accept, dispatch_socket_message,
}

-- A place has the id that the table finds there; a place that is not in use is blank.
pub record IsPlace (t : Hashid) (p : ℕ) (c : Connection) : Type 0 where
  pub agrees : (j : ℕ) → (c.id ≡ some j) ↔ (lookup t j ≡ some p)
  pub idle : c.id ≡ none → c ≡ no_connection
  pub buffer : Buffer.IsValid c.buffer

pub record IsGate (g : Gate) : Type 0 where
  pub lists : ℕ → List ℕ
  pub table : Table.IsValid g.hash lists
  pub places : (p : ℕ) → IsPlace g.hash p (g.conn p)

-- All connections but that at a place are as they were.
abbrev pub Others : Gate → ℕ → Gate → Type 0
Others g p t = (q : ℕ) → p ≢ q → t.conn q ≡ g.conn q

-- What an end or an error of a socket leaves: its id is not found, and its place is blank.
abbrev pub Closes : Gate → ℕ → List Effect → Gate → Type 0
Closes g id effects t =
    (lookup t.hash id ≡ none)
    × ((j : ℕ) → j ≢ id → lookup t.hash j ≡ lookup g.hash j)
    × (((lookup g.hash id ≡ none) × (effects ≡ []) × ((q : ℕ) → t.conn q ≡ g.conn q))
        ⊎ ((p : ℕ) × (lookup g.hash id ≡ some p)
            × (effects ≡ report g (report_close id))
            × (t.conn p ≡ no_connection)
            × Others g p t))

-- What a message does to the ids, to the connections, and outside. Data change the buffer of their
-- connection only. A socket that is accepted is known and started, at a place that is blank but for its
-- id and name, unless the table is full.
pub Changes : Gate → SocketMessage → List Effect → Gate → Type 0
Changes g (data_of id bytes) effects t =
    ((j : ℕ) → lookup t.hash j ≡ lookup g.hash j)
    × (((lookup g.hash id ≡ none) × (effects ≡ close_socket id ∷ []) × (t ≡ g))
        ⊎ ((p : ℕ) × (lookup g.hash id ≡ some p)
            × (t.conn p ≡ record (g.conn p) { buffer = (t.conn p).buffer })
            × Others g p t))
Changes g (close id) effects t = Closes g id effects t
Changes g (error id) effects t = Closes g id effects t
Changes g (accept id ud name) effects t =
    ((full g.hash ≡ true) × (effects ≡ close_socket ud ∷ []) × (t ≡ g))
    ⊎ ((p : ℕ) × (lookup t.hash ud ≡ some p)
        × (effects ≡ start_socket ud ∷ [])
        × (t.conn p ≡ record no_connection { id = some ud; remote_name = take 31 name })
        × Others g p t
        × ((j : ℕ) → j ≢ ud → lookup t.hash j ≡ lookup g.hash j))
Changes g _ effects t = t ≡ g

-- The address and the settings of the gate
abbrev pub Settings : Gate → Gate → Type 0
Settings g t = g ≡ record t { hash = g.hash; conn = g.conn; mp = g.mp }

-- An accepted socket comes from the listening one, its id is new, and no index of the table overflows.
unfoldable pub Comes : Gate → SocketMessage → Type 0
Comes g (accept id ud name) =
    (is_listen g id ≡ true) × (lookup g.hash ud ≡ none) × (ud + g.hash.cap ≤ 2 ^ 31)
Comes g _ = Unit {0}

transfer :
    {s t : Hashid} {p : ℕ} {c : Connection}
    → IsPlace s p c
    → ((j : ℕ) → (lookup s j ≡ some p) ↔ (lookup t j ≡ some p))
    → IsPlace t p c
transfer k same = record {
  agrees = λ j. (λ e. (same j).0 ((k.agrees j).0 e), λ e. (k.agrees j).1 ((same j).1 e));
  idle = k.idle;
  buffer = k.buffer;
}

-- What a message leaves
abbrev pub Leaves : Gate → SocketMessage → List Effect × Gate → Type 0
Leaves g m (effects, t) = IsGate t × Changes g m effects t × Settings g t

-- The bytes are taken, whether or not somebody gets the packets.
receive_lem :
    (g : Gate) (c : Connection) (bytes : List ℕ)
    → Buffer.IsValid c.buffer
    → 0 < g.header_size
    → (r : Dispatched) × (receive g c bytes ≡ some r) × Buffer.IsValid r.db
unfolding receive
receive_lem g c bytes v h = elim (Bool-cases (reads g c)) [
  | inl e ↦
      let (r, run, a) = dispatch_message_lem g.header_size c.buffer g.mp bytes v h in
      (r, rw (e, receive) run, a.valid)
  | inr e ↦
      let (d, q) = databuffer_push c.buffer g.mp bytes (length bytes) in
      let (_, w, _, _) = Buffer.databuffer_push_lem c.buffer g.mp bytes v in
      let (r, run, x) = unread_lem (d.size + 2) g.header_size d q w h (ground arith) in
      (r, rw (e, receive) run, x)
]

at_buffer :
    (f : ℕ → Connection) (p : ℕ) (b : DataBuffer)
    → let g = update f p (record (f p) { buffer = b }) in
      g p ≡ record (f p) { buffer = (g p).buffer }
at_buffer f p b =
    let z = update_self f p (record (f p) { buffer = b }) in
    z ∙ ap (λ (c : Connection). record (f p) { buffer = c.buffer }) (sym z)

data_lem :
    (g : Gate) (id : ℕ) (bytes : List ℕ)
    → IsGate g
    → 0 < g.header_size
    → (r : List Effect × Gate) × (on_data g id bytes ≡ some r) × Leaves g (data_of id bytes) r
unfolding on_data Changes
data_lem g id bytes v h = elim (Option-cases (lookup g.hash id)) [
  | inl e ↦
      ((close_socket id ∷ [], g), rw (e, on_data) refl, (v, (λ j. refl, inl (e, refl, refl)), refl))
  | inr (p, e) ↦
      let c = g.conn p in
      let k = v.places p in
      let mine : c.id ≡ some id = (k.agrees id).1 e in
      let (r, read, valid) = receive_lem g c bytes k.buffer h in
      let d : Connection = record c { buffer = r.db } in
      (
        (
          forward_all g c r.packets ++ (if r.closed then close_socket id ∷ [] else []),
          record g { conn = update g.conn p d; mp = r.mp },
        ),
        rw (e, on_data) (rw (read, on_data, ◌>>=◌) refl),
        (
          record {
            lists = v.lists;
            table = v.table;
            places =
                at_update (IsPlace g.hash) g.conn p d
                  (record {
                    agrees = k.agrees;
                    idle = λ z. absurd (some-ne-none mine z);
                    buffer = valid;
                  })
                  (λ q ne. v.places q);
          },
          (λ j. refl, inr (p, e, at_buffer g.conn p r.db, λ q ne. update_ne g.conn p q d ne)),
          refl,
        ),
      )
]

-- What the table finds when an id is gone
gone_lem :
    (s t : Hashid) (id p : ℕ)
    → lookup t id ≡ none
    → ((j : ℕ) → j ≢ id → lookup t j ≡ lookup s j)
    → lookup s id ≢ some p
    → (j : ℕ) → (lookup s j ≡ some p) ↔ (lookup t j ≡ some p)
gone_lem s t id p gone same ne j = elim (ℕ_discrete j id) [
  | yes z ↦ (
    λ e. absurd (ne (ap (lookup s) (sym z) ∙ e)),
    λ e. absurd (some-ne-none e (ap (lookup t) z ∙ gone)),
  )
  | no z ↦ (λ e. same j z ∙ e, λ e. sym (same j z) ∙ e)
]

close_lem : (g : Gate) (id : ℕ) → IsGate g → Leaves g (close id) (on_close g id)
unfolding on_close Changes
close_lem g id v =
    let (o, (ys, w), _, _, gone, same) = remove_lem id v.table in
    let t = (remove g.hash id).1 in
    elim (Option-cases (remove g.hash id).0) [
      | inl e ↦
          rw (e, on_close)
            (
              record {
                lists = ys;
                table = w;
                places = λ p.
                    transfer (v.places p)
                      (gone_lem g.hash t id p gone same (λ z. some-ne-none (o ∙ z) e));
              },
              (gone, same, inl (sym o ∙ e, refl, λ q. refl)),
              refl,
            )
      | inr (c, e) ↦
          let here : lookup g.hash id ≡ some c = sym o ∙ e in
          let not_there : (j : ℕ) → lookup t j ≢ some c = λ j z. elim (ℕ_discrete j id) [
            | yes y ↦ some-ne-none z (ap (lookup t) y ∙ gone)
            | no y ↦
                let old : lookup g.hash j ≡ some c = sym (same j y) ∙ z in
                y (some-eq (sym (((v.places c).agrees j).1 old) ∙ ((v.places c).agrees id).1 here))
          ] in
          rw (e, on_close)
            (
              record {
                lists = ys;
                table = w;
                places =
                    at_update (IsPlace t) g.conn c no_connection
                      (record {
                        agrees =
                            λ j. (λ z. absurd (some-ne-none z refl), λ z. absurd (not_there j (z)));
                        idle = λ z. refl;
                        buffer = zeroed-IsValid;
                      })
                      (λ p ne.
                        transfer (v.places p)
                          (gone_lem g.hash t id p gone same (λ z. ne (some-eq (sym here ∙ z)))));
              },
              (
                gone,
                same,
                inr (
                  c,
                  here,
                  refl,
                  update_self g.conn c no_connection,
                  λ q ne. update_ne g.conn c q no_connection ne,
                ),
              ),
              refl,
            )
    ]

accept_lem :
    (g : Gate) (id ud : ℕ) (name : List ℕ)
    → IsGate g
    → is_listen g id ≡ true
    → lookup g.hash ud ≡ none
    → ud + g.hash.cap ≤ 2 ^ 31
    → (r : List Effect × Gate) × (on_accept g id ud name ≡ some r) × Leaves g (accept id ud name) r
unfolding on_accept Changes
accept_lem g id ud name v listen absent small = elim (Bool-cases (full g.hash)) [
  | inl e ↦
      ((close_socket ud ∷ [], g), rw (listen, e, on_accept) refl, (v, inl (e, refl, refl), refl))
  | inr e ↦
      let (c, t, ys, run, w, free, _, _, found, same) = insert_lem ud v.table e absent small in
      let unknown : (j : ℕ) → lookup g.hash j ≢ some c =
        λ j z. some-ne-none ((lookup_iff j c v.table).0 z) free in
      let k = v.places c in
      let no_id : (g.conn c).id ≡ none = elim (Option-cases (g.conn c).id) [
        | inl z ↦ z
        | inr (j, z) ↦ absurd (unknown j ((k.agrees j).0 z))
      ] in
      let d : Connection = record (g.conn c) { id = some ud; remote_name = take 31 name } in
      (
        (start_socket ud ∷ [], record g { hash = t; conn = update g.conn c d }),
        rw (listen, e, on_accept) (rw (run, on_accept, ◌>>=◌) refl),
        (
          record {
            lists = ys;
            table = w;
            places =
                at_update (IsPlace t) g.conn c d
                  (record {
                    agrees = λ j. (
                      λ z. ap (lookup t) (sym (some-eq z)) ∙ found,
                      λ z. elim (ℕ_discrete j ud) [
                        | yes y ↦ ap some (sym y)
                        | no y ↦ absurd (unknown j (sym (same j y) ∙ z))
                      ],
                    );
                    idle = λ z. absurd (some-ne-none refl z);
                    buffer = k.buffer;
                  })
                  (λ p ne. transfer (v.places p) λ j. elim (ℕ_discrete j ud) [
                    | yes y ↦ (
                      λ z. absurd (some-ne-none z (ap (lookup g.hash) y ∙ absent)),
                      λ z. absurd (ne (some-eq (sym found ∙ ap (lookup t) (sym y) ∙ z))),
                    )
                    | no y ↦ (λ z. same j y ∙ z, λ z. sym (same j y) ∙ z)
                  ]);
          },
          inr (
            c,
            found,
            refl,
            update_self g.conn c d
                ∙ ap (λ (x : Connection). record x { id = some ud; remote_name = take 31 name })
                    (k.idle no_id),
            λ q ne. update_ne g.conn c q d ne,
            same,
          ),
          refl,
        ),
      )
]

-- Let the connections of a gate with a header size agree with the table of their ids, each with a buffer
-- in order and the places that are not in use blank; and let an accepted socket be new and come from the
-- listening one, its id and the size of the table 2^31 at most in all. Whatever a socket reports,
-- `dispatch_socket_message` ends without a failed assertion, an overflow or a null pointer, and they
-- agree again. A connection and a warning leave the gate as it is. Data of a known id change the buffer
-- of its connection only, and an unknown id is closed. After an end or an error the id is not found, its
-- place is blank, and the end is reported if the id was known. An accepted socket is closed if the table
-- is full; otherwise it is started, and found at a place with nothing of the connection before. All
-- other ids are found where they were, all other connections are as they were, and so are the settings
-- of the gate.
pub dispatch_socket_message_lem :
    (g : Gate) (m : SocketMessage)
    → IsGate g
    → 0 < g.header_size
    → Comes g m
    → (effects : List Effect) × (t : Gate) × (dispatch_socket_message g m ≡ some (effects, t))
      × IsGate t
      × Changes g m effects t
      × Settings g t
unfolding dispatch_socket_message Changes Comes
dispatch_socket_message_lem g (data_of id bytes) v h c =
    let (r, run, k) = data_lem g id bytes v h in (r.0, r.1, run, k.0, k.1, k.2)
dispatch_socket_message_lem g (connect id) v h c = elim (Bool-cases (is_listen g id)) [
  | inl e ↦ ([], g, rw (e, dispatch_socket_message) refl, v, refl, refl)
  | inr e ↦ elim (Option-cases (lookup g.hash id)) [
    | inl z ↦ (close_socket id ∷ [], g, rw (e, z, dispatch_socket_message) refl, v, refl, refl)
    | inr (p, z) ↦
        (report g (report_open id), g, rw (e, z, dispatch_socket_message) refl, v, refl, refl)
  ]
]
dispatch_socket_message_lem g (close id) v h c =
    let r = on_close g id in let k = close_lem g id v in (r.0, r.1, refl, k.0, k.1, k.2)
dispatch_socket_message_lem g (error id) v h c =
    let r = on_close g id in let k = close_lem g id v in (r.0, r.1, refl, k.0, k.1, k.2)
dispatch_socket_message_lem g (accept id ud name) v h (listen, absent, small) =
    let (r, run, k) = accept_lem g id ud name v listen absent small in
    (r.0, r.1, run, k.0, k.1, k.2)
dispatch_socket_message_lem g warning v h c = ([], g, refl, v, refl, refl)
