-- ===== src/Server/Sockets.antt =====
-- A read, a write and a new connection of the event loop keep the table, the readers and the writers
-- together.
use bitcoin_client_rust.Message.{Handle}
use bitcoin_client_rust.Mempool.{SocketAddr}
use bitcoin_client_rust.Framing.{ReadContext, WriteContext, Offer, new_reader, new_writer}
use bitcoin_client_rust.Framing.Writing.{IsWriter, new_writer-IsWriter}
use bitcoin_client_rust.Framing.Ending.{write-Returns}
use bitcoin_client_rust.Server.{Server, register, max_incoming_client}
use bitcoin_client_rust.Server.Removal.{drop_peer-IsServer, register-IsServer}
use bitcoin_client_rust.Server.Positions.{IsServer}
use bitcoin_client_rust.Server.Events.{
  Loop, Arrival, yields, puts, read_all, forget, send_all, process_readable, stays_after,
  process_writable, with_contexts, add_peer,
}
use bitcoin_client_rust.Prelude.Map
use bitcoin_client_rust.Prelude.Map.{
  Map, contains_key, get-insert, get-insert_cases, get-insert_ne, get-remove_ne,
}
use bitcoin_client_rust.Prelude.{
  ℕ, ◌+◌, ◌*◌, ◌≤◌, ◌≡◌, ◌≢◌, refl, sym, ap, ◌∙◌, subst, inl, inr, ◌⊎◌, Bool, true, false, ok,
  Bool-cases, Option-cases, some, none, List, [], ◌∷◌, ◌++◌, map, length, leb, ◌==◌, ==_iff, nat_eq,
  Returns,
}

-- A worker is still there; each peer of the table has its two contexts, and its writer is sound.
pub record IsLoop (loop : Loop) : Type 0 where
  pub table : IsServer loop.table
  pub workers : loop.workers ≡ true
  pub reader :
      (k : ℕ) (h : Handle)
      → Map.get k loop.table.peers ≡ some h
      → (r : ReadContext) × (Map.get k loop.readers ≡ some r)
  pub writer :
      (k : ℕ) (h : Handle)
      → Map.get k loop.table.peers ≡ some h
      → (w : WriteContext) × (Map.get k loop.writers ≡ some w) × IsWriter w

-- A value under a key stays there when another is written at any key.
get-insert-some :
    {A : Type 0} (k j : ℕ) (a : A) (m : Map ℕ A) {b : A}
    → Map.get j m ≡ some b
    → (c : A) × (Map.get j (Map.insert k a m) ≡ some c) × ((c ≡ a) ⊎ (c ≡ b))
get-insert-some k j a m {b} h = elim (Bool-cases (k == j)) [
  | inl same ↦ (a, rw (get-insert, same) refl, inl refl)
  | inr other ↦ (b, rw (get-insert, other) h, inr refl)
]

pub forget-IsLoop :
    (peer_id : ℕ) (h : Handle) (loop : Loop)
    → IsLoop loop
    → Map.get peer_id loop.table.peers ≡ some h
    → Returns
        (forget peer_id loop)
        λ after. IsLoop after × (Map.get peer_id after.table.peers ≡ none)
unfolding forget
forget-IsLoop peer_id h loop valid there =
    let (table, run, (sound, rest)) = drop_peer-IsServer peer_id h loop.table valid.table there in
    let was : (k : ℕ) (g : Handle)
        → Map.get k table.peers ≡ some g
        → (k ≢ peer_id) × ((f : Handle) × (Map.get k loop.table.peers ≡ some f)) =
      λ k g e.
        let (listed, other) = (rest k).0 (sound.stored k g e) in
        (other, valid.table.listed k listed) in
    (
      record {
        table = table;
        readers = Map.remove peer_id loop.readers;
        writers = Map.remove peer_id loop.writers;
        workers = loop.workers;
      },
      rw run refl,
      (
        record {
          table = sound;
          workers = valid.workers;
          reader = λ k g e.
              let (other, (f, found)) = was k g e in
              let (r, at) = valid.reader k f found in
              (r, get-remove_ne peer_id k loop.readers other ∙ at);
          writer = λ k g e.
              let (other, (f, found)) = was k g e in
              let (w, at, whole) = valid.writer k f found in
              (w, get-remove_ne peer_id k loop.writers other ∙ at, whole);
        },
        elim (Option-cases (Map.get peer_id table.peers)) [
          | inl away ↦ away
          | inr (g, still) ↦ absurd ((was peer_id g still).0 refl)
        ],
      ),
    )

send_all-ok :
    (workers : Bool) (h : Handle) (payloads : List (List ℕ))
    → workers ≡ true
    → send_all workers h payloads ≡ ok (map (λ m. yields m h) payloads)
unfolding send_all
send_all-ok workers h [] e = refl
send_all-ok true h (m ∷ payloads) e = refl
send_all-ok false h (m ∷ payloads) e = cc e

pub process_readable-IsLoop :
    (peer_id : ℕ) (h : Handle) (arrivals : List Arrival) (loop : Loop)
    → IsLoop loop
    → Map.get peer_id loop.table.peers ≡ some h
    → Returns (process_readable peer_id arrivals loop) λ r. IsLoop r.0
unfolding process_readable
process_readable-IsLoop peer_id h arrivals loop valid there =
    let (reader, at) = valid.reader peer_id h there in
    let (after, run, (kept, away)) = forget-IsLoop peer_id h loop valid there in
    let outputs = map (λ m. yields m h) (read_all arrivals reader).0.1 in
    let sent = send_all-ok loop.workers h (read_all arrivals reader).0.1 valid.workers in
    elim (Bool-cases (read_all arrivals reader).1) [
      | inl stays ↦ (
        (
          record loop { readers = Map.insert peer_id (read_all arrivals reader).0.0 loop.readers },
          outputs,
        ),
        rw (there, at, sent, stays) refl,
        record {
          table = valid.table;
          workers = valid.workers;
          reader = λ k g e.
              let (r, found) = valid.reader k g e in
              let (c, now, _) =
                get-insert-some peer_id k (read_all arrivals reader).0.0 loop.readers found in
              (c, now);
          writer = valid.writer;
        },
      )
      | inr gone ↦ ((after, outputs), rw (there, at, sent, gone, run) refl, kept)
    ]

pub process_writable-IsLoop :
    (fuel peer_id : ℕ) (h : Handle) (offers : List Offer) (loop : Loop)
    → IsLoop loop
    → 3 * length offers + 3 ≤ fuel
    → Map.get peer_id loop.table.peers ≡ some h
    → Returns (process_writable fuel peer_id offers loop) λ r. IsLoop r.0
unfolding process_writable
process_writable-IsLoop fuel peer_id h offers loop valid enough there =
    let (writer, at, whole) = valid.writer peer_id h there in
    let (after, run, (kept, away)) = forget-IsLoop peer_id h loop valid there in
    let (r, wrote, (sound, owes)) = write-Returns fuel offers writer whole enough in
    elim (Bool-cases (stays_after r.1)) [
      | inl stays ↦ (
        (record loop { writers = Map.insert peer_id r.0.0 loop.writers }, puts peer_id r.0.1 ∷ []),
        rw (at, wrote, stays) refl,
        record {
          table = valid.table;
          workers = valid.workers;
          reader = valid.reader;
          writer = λ k g e.
              let (w, found, was) = valid.writer k g e in
              let (c, now, which) = get-insert-some peer_id k r.0.0 loop.writers found in
              (
                c,
                now,
                elim which [
                  | inl p ↦ subst IsWriter (sym p) sound
                  | inr p ↦ subst IsWriter (sym p) was
                ],
              );
        },
      )
      | inr gone ↦ ((after, puts peer_id r.0.1 ∷ []), rw (at, wrote, gone, run) refl, kept)
    ]

pub add_peer-IsLoop :
    (key : ℕ) (addr : SocketAddr) (loop : Loop)
    → IsLoop loop
    → Map.get key loop.table.peers ≡ none
    → IsLoop (add_peer key addr loop)
unfolding add_peer with_contexts register
add_peer-IsLoop key addr loop valid vacant =
    let sound = (register-IsServer key addr loop.table valid.table vacant).0 in
    elim (Bool-cases (leb max_incoming_client key)) [
      | inl full ↦
          let refused : register key addr loop.table ≡ (loop.table, none) =
            rw (full, register) refl in
          let same : add_peer key addr loop ≡ loop = ap (λ r. with_contexts r key loop) refused in
          subst IsLoop (sym same) valid
      | inr room ↦
          let handle : Handle = record { addr = addr; key = key } in
          let table : Server = record {
            peers = Map.insert key handle loop.table.peers;
            peer_list = loop.table.peer_list ++ key ∷ [];
          } in
          let with_peer : Loop = record {
            table = table;
            readers = Map.insert key new_reader loop.readers;
            writers = Map.insert key (new_writer [] false) loop.writers;
            workers = loop.workers;
          } in
          let entered : register key addr loop.table ≡ (table, some handle) =
            rw (room, register) refl in
          let joined : add_peer key addr loop ≡ with_peer =
            ap (λ r. with_contexts r key loop) entered in
          subst IsLoop (sym joined) (record {
            workers = valid.workers;
            table = subst IsServer (rw (room, register) refl) sound;
            reader = λ k g e. elim (get-insert_cases key k _ loop.table.peers e) [
              | inl (p, q) ↦ (new_reader, rw (get-insert, (==_iff key k).1 (sym p)) refl)
              | inr (n, before) ↦
                  let (r, found) = valid.reader k g before in
                  (r, get-insert_ne key k new_reader loop.readers n ∙ found)
            ];
            writer = λ k g e. elim (get-insert_cases key k _ loop.table.peers e) [
              | inl (p, q) ↦ (
                new_writer [] false,
                rw (get-insert, (==_iff key k).1 (sym p)) refl,
                new_writer-IsWriter [] false,
              )
              | inr (n, before) ↦
                  let (w, found, whole) = valid.writer k g before in
                  (w, get-insert_ne key k (new_writer [] false) loop.writers n ∙ found, whole)
            ];
          })
    ]
