-- ===== src/Broker/Dispatch/Removed.antt =====
-- An event of a connection that its own reading has removed.
use fell.Base.{
  ℕ, ◌++◌, subst, ◌↔◌, ◌≡◌, ◌≢◌, refl, inl, inr, Bool-cases, Option-cases, true, false, [], ◌∷◌,
  none, some, ◌==◌, All, arith,
}
use fell.Storage.Reader.{ok, Outcome-cases}
use fell.Broker.Topics.{Disk}
use fell.Broker.Requests.{ConnectionState}
use fell.Broker.Outbound.{Interest, Connections, get_conn, remove_conn, put_conn}
use fell.Broker.Reading.{Served, on_readable}
use fell.Broker.Dispatch.{SocketEvent, Serving, keep, read_part, write_part, socket_event}

-- No descriptor stands in the table twice, as in a hash map.
abbrev pub Distinct : Connections → Type 0
Distinct [] = Unit {0}
Distinct ((fd, c) ∷ cs) = All (λ entry. entry.0 ≢ fd) cs × Distinct cs

absent : (fd : ℕ) (cs : Connections) → All (λ entry. entry.0 ≢ fd) cs → get_conn fd cs ≡ none
absent fd [] others = refl
absent fd ((f, c) ∷ cs) (other, others) =
    let differs : (f == fd) ≡ false = ground (arith, other) in rw differs (absent fd cs others)

-- A connection that is removed is not there any more.
get_conn-remove_conn :
    (fd : ℕ) (cs : Connections) → Distinct cs → get_conn fd (remove_conn fd cs) ≡ none
get_conn-remove_conn fd [] once = refl
get_conn-remove_conn fd ((f, c) ∷ cs) (others, once) = elim (Bool-cases (f == fd)) [
  | inl here ↦
      let same : f ≡ fd = ground (arith, here) in
      rw here (absent fd cs (subst (λ k. All (λ entry. entry.0 ≢ k) cs) same others))
  | inr there ↦ rw (there, there) (get_conn-remove_conn fd cs once)
]

-- One that is put is there, where it was.
get_conn-put_conn :
    (fd : ℕ) (c d : ConnectionState × Interest) (cs : Connections)
    → get_conn fd cs ≡ some c
    → get_conn fd (put_conn fd d cs) ≡ some d
get_conn-put_conn fd c d [] there = absurd (ground (arith, there))
get_conn-put_conn fd c d ((f, x) ∷ cs) there = elim (Bool-cases (f == fd)) [
  | inl here ↦ rw (here, here) refl
  | inr other ↦ rw (other, other) (get_conn-put_conn fd c d cs (rw other at there))
]

-- What makes an event use a connection that is gone: it can be read and written, and the reading closes it.
pub record ClosesItself (now : ℕ) (disk : Disk) (e : SocketEvent) (s : Serving)
    (conn : ConnectionState) (interest : Interest) : Type 0 where
  pub up : e.hup ≡ false
  pub readable : e.read ≡ true
  pub writable : e.write ≡ true
  pub served : Served
  pub runs : on_readable now disk e.reads s.node conn interest ≡ ok served
  pub closed : served.conn ≡ none

module _ (now : ℕ) (disk : Disk) (fd : ℕ) (e : SocketEvent) (s : Serving) (conn : ConnectionState)
    (interest : Interest) (there : get_conn fd s.conns ≡ some (conn, interest))
    (once : Distinct s.conns) where
  removed_used : ClosesItself now disk e s conn interest → socket_event now disk fd e s ≡ ok none
  unfolding socket_event read_part write_part
  removed_used c =
      rw
        (
          socket_event,
          there,
          c.up,
          read_part,
          c.readable,
          c.runs,
          c.closed,
          write_part,
          c.writable,
          get_conn-remove_conn fd s.conns once,
        )
        refl

  -- A connection that is still there is written to.
  write_part_there :
      (t : Serving) (d : ConnectionState × Interest)
      → get_conn fd t.conns ≡ some d
      → write_part fd e t ≢ none
  unfolding write_part
  write_part_there t d here used = elim (Bool-cases e.write) [
    | inl writes ↦ let w = rw (write_part, writes, here) at used in cc
    | inr not_now ↦ let w = rw (write_part, not_now) at used in cc
  ]

  -- Reading that keeps the connection, or no reading, leaves it in the table.
  used_removed : socket_event now disk fd e s ≡ ok none → ClosesItself now disk e s conn interest
  unfolding socket_event read_part
  used_removed used = elim (Bool-cases e.hup) [
    | inl hup ↦ let w = rw (socket_event, there, hup) at used in cc
    | inr up ↦ elim (Bool-cases e.read) [
      | inr no_read ↦
          let w : ok (write_part fd e s) ≡ ok none =
            rw (socket_event, there, up, read_part, no_read) at used in
          absurd (write_part_there s (conn, interest) there (cc))
      | inl reads ↦ elim (Outcome-cases (on_readable now disk e.reads s.node conn interest)) [
        | inl throws ↦ let w = rw (socket_event, there, up, read_part, reads, throws) at used in cc
        | inr (inl sticks) ↦
            let w = rw (socket_event, there, up, read_part, reads, sticks) at used in cc
        | inr (inr (r, runs)) ↦ elim (Option-cases r.conn) [
          | inr (d, keeps) ↦
              let t : Serving = record {
                node = r.node;
                deferred = s.deferred ++ r.deferred;
                conns = keep fd r.conn s.conns;
              } in
              let kept : get_conn fd t.conns ≡ some d =
                rw keeps (get_conn-put_conn fd (conn, interest) d s.conns there) in
              let w : ok (write_part fd e t) ≡ ok none =
                rw (socket_event, there, up, read_part, reads, runs) at used in
              absurd (write_part_there t d kept (cc))
          | inl closes ↦ elim (Bool-cases e.write) [
            | inl writes ↦ record {
              up = up;
              readable = reads;
              writable = writes;
              served = r;
              runs = runs;
              closed = closes;
            }
            | inr no_write ↦
                let w =
                  rw (socket_event, there, up, read_part, reads, runs, closes, write_part, no_write)
                    at used in
                cc
          ]
        ]
      ]
    ]
  ]

-- An event of a registered connection, whose descriptor stands in the table once, uses a removed connection
-- exactly where it has no hang-up, can be read and written, and the reading ends with the connection
-- closed: by its peer, by an error, or by what the decoder refuses.
pub socket_event-ClosesItself :
    (now : ℕ) (disk : Disk) (fd : ℕ) (e : SocketEvent) (s : Serving) (conn : ConnectionState)
    (interest : Interest)
    → get_conn fd s.conns ≡ some (conn, interest)
    → Distinct s.conns
    → (socket_event now disk fd e s ≡ ok none) ↔ ClosesItself now disk e s conn interest
socket_event-ClosesItself now disk fd e s conn interest there once = (
  used_removed now disk fd e s conn interest there once,
  removed_used now disk fd e s conn interest there once,
)
