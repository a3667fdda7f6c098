-- ===== src/Broker/Dispatch/Kept.antt =====
-- What a round of the event loop keeps of the connections.
use fell.Base.{
  ℕ, ◌-◌, ◌≤◌, ◌<◌, ◌≡◌, refl, inl, inr, true, false, Bool-cases, Option-cases, List, [], ◌∷◌,
  Option, none, some, length, All, All-append, subst, arith,
}
use fell.Storage.Reader.{Outcome, ok, threw, stuck, Outcome-cases}
use fell.Broker.Topics.{Disk}
use fell.Broker.Requests.{ConnectionState}
use fell.Broker.Outbound.{
  Interest, Sent, wrote, Connections, get_conn, remove_conn, on_writable, drain_response_queue,
}
use fell.Broker.Reading.{on_readable, add_conn, accept_all}
use fell.Broker.Sending.{Tidy, on_writable-Tidy}
use fell.Broker.Dispatch.{
  SocketEvent, Event, notified, incoming, socket, Serving, read_part, write_part, socket_event,
  dispatch, dispatch_all, event_round,
}
use fell.Broker.Dispatch.Registered.{
  TidyConn, TidyOption, AllTidy, get_conn-Tidy, remove_conn-Tidy, keep-Tidy, drain-Tidy,
}
use fell.Broker.Dispatch.Reads.{TidyServed, on_readable-Tidy}

-- A socket never takes more bytes than it was offered.
abbrev pub HonestSocket : SocketEvent → Type 0
HonestSocket e = (k n : ℕ) → e.sends k ≡ wrote n → n ≤ k

abbrev pub HonestEvent : Event → Type 0
HonestEvent notified = Unit {0}
HonestEvent (incoming fds) = Unit {0}
HonestEvent (socket fd e) = HonestSocket e

on_writable_keeps :
    (sent : Sent) (conn : ConnectionState) (interest : Interest)
    → ((n : ℕ) → sent ≡ wrote n → n ≤ length conn.outbound - conn.write_offset)
    → Tidy conn interest
    → TidyOption (on_writable sent conn interest)
on_writable_keeps sent conn interest offered t =
    elim (Option-cases (on_writable sent conn interest)) [
      | inl closed ↦ rw closed tt
      | inr ((kept, i), stays) ↦
          rw stays (on_writable-Tidy sent conn interest offered t kept i stays)
    ]

-- What an event leaves where it neither throws nor uses a connection that is removed.
abbrev pub TidyAfter : Outcome (Option Serving) → Type 0
TidyAfter (ok (some s)) = AllTidy s.conns
TidyAfter (ok none) = Unit {0}
TidyAfter threw = Unit {0}
TidyAfter stuck = Unit {0}

write_part-Tidy :
    (fd : ℕ) (e : SocketEvent) (s : Serving)
    → HonestSocket e
    → AllTidy s.conns
    → TidyAfter (ok (write_part fd e s))
unfolding write_part
write_part-Tidy fd e s honest h = elim (Bool-cases e.write) [
  | inr not_now ↦ rw not_now h
  | inl now ↦ elim (Option-cases (get_conn fd s.conns)) [
    | inl gone ↦ rw (now, gone) tt
    | inr ((conn, interest), there) ↦
        let t : Tidy conn interest = subst TidyOption there (get_conn-Tidy fd s.conns h) in
        let room = length conn.outbound - conn.write_offset in
        rw (now, there)
          (keep-Tidy fd (on_writable (e.sends room) conn interest) s.conns
            (on_writable_keeps (e.sends room) conn interest (honest room) t) h)
  ]
]

-- A connection as the acceptor makes it has nothing to send and reads.
pub record Fresh (conn : ConnectionState) : Type 0 where
  pub no_bytes : conn.outbound ≡ []
  pub at_start : conn.write_offset ≡ 0
  pub reading : conn.read_disabled ≡ false

Fresh-Tidy :
    (conn : ConnectionState) → Fresh conn → Tidy conn (record { read = true; write = false })
Fresh-Tidy conn f = record {
  inside = rw (f.no_bytes, f.at_start) (omega arith);
  watched = rw (f.no_bytes, f.at_start) (λ (more : 0 < 0). absurd (omega (arith, more)));
  reads = rw f.reading refl;
}

accept_all-Tidy :
    (fds : List ℕ) (fresh : ℕ → ConnectionState) (cs : Connections)
    → ((fd : ℕ) → Fresh (fresh fd))
    → AllTidy cs
    → AllTidy (accept_all fds fresh cs)
unfolding accept_all add_conn
accept_all-Tidy [] fresh cs new h = h
accept_all-Tidy (fd ∷ fds) fresh cs new h =
    accept_all-Tidy fds fresh (add_conn fd (fresh fd) cs) new (
      All-append TidyConn (remove_conn fd cs)
        ((fd, (fresh fd, record { read = true; write = false })) ∷ []) (remove_conn-Tidy fd cs h)
        (Fresh-Tidy (fresh fd) (new fd), tt))

module _ (now : ℕ) (disk : Disk) where
  abbrev TidyServing : Outcome Serving → Type 0
  TidyServing (ok s) = AllTidy s.conns
  TidyServing threw = Unit {0}
  TidyServing stuck = Unit {0}

  read_part-Tidy :
      (fd : ℕ) (e : SocketEvent) (conn : ConnectionState) (interest : Interest) (s : Serving)
      → Tidy conn interest
      → AllTidy s.conns
      → TidyServing (read_part now disk fd e conn interest s)
  unfolding read_part
  read_part-Tidy fd e conn interest s t h = elim (Bool-cases e.read) [
    | inr not_now ↦ rw not_now h
    | inl reads ↦
        let served = on_readable-Tidy now disk e.reads s.node conn interest t in
        elim (Outcome-cases (on_readable now disk e.reads s.node conn interest)) [
          | inl throws ↦ rw (reads, throws) tt
          | inr (inl sticks) ↦ rw (reads, sticks) tt
          | inr (inr (r, runs)) ↦
              rw (reads, runs)
                (keep-Tidy fd r.conn s.conns (subst (TidyServed now disk) runs served) h)
        ]
  ]

  socket_event-Tidy :
      (fd : ℕ) (e : SocketEvent) (s : Serving)
      → HonestSocket e
      → AllTidy s.conns
      → TidyAfter (socket_event now disk fd e s)
  unfolding socket_event
  socket_event-Tidy fd e s honest h = elim (Option-cases (get_conn fd s.conns)) [
    | inl gone ↦ rw (TidyAfter, gone) tt
    | inr ((conn, interest), there) ↦
        let t : Tidy conn interest = subst TidyOption there (get_conn-Tidy fd s.conns h) in
        let after = read_part-Tidy fd e conn interest s t h in
        elim (Bool-cases e.hup) [
          | inl hup ↦ rw (TidyAfter, there, hup) (remove_conn-Tidy fd s.conns h)
          | inr up ↦ elim (Outcome-cases (read_part now disk fd e conn interest s)) [
            | inl throws ↦ rw (TidyAfter, there, up, throws) tt
            | inr (inl sticks) ↦ rw (TidyAfter, there, up, sticks) tt
            | inr (inr (r, runs)) ↦
                rw (TidyAfter, there, up, runs)
                  (write_part-Tidy fd e r honest (subst TidyServing runs after))
          ]
        ]
  ]

  module _ (fresh : ℕ → ConnectionState) (new : (fd : ℕ) → Fresh (fresh fd)) where
    dispatch-Tidy :
        (ev : Event) (s : Serving)
        → HonestEvent ev
        → AllTidy s.conns
        → TidyAfter (dispatch now disk fresh ev s)
    unfolding dispatch
    dispatch-Tidy notified s honest h = h
    dispatch-Tidy (incoming fds) s honest h = accept_all-Tidy fds fresh s.conns new h
    dispatch-Tidy (socket fd e) s honest h = socket_event-Tidy fd e s honest h

    dispatch_all-Tidy :
        (evs : List Event) (s : Serving)
        → All HonestEvent evs
        → AllTidy s.conns
        → TidyAfter (dispatch_all now disk fresh evs s)
    unfolding dispatch_all
    dispatch_all-Tidy [] s honest h = h
    dispatch_all-Tidy (ev ∷ evs) s honest h =
        let first = dispatch-Tidy ev s honest.0 h in
        elim (Outcome-cases (dispatch now disk fresh ev s)) [
          | inl throws ↦ rw (TidyAfter, throws) tt
          | inr (inl sticks) ↦ rw (TidyAfter, sticks) tt
          | inr (inr (none, used)) ↦ rw (TidyAfter, used) tt
          | inr (inr (some t, runs)) ↦
              rw (TidyAfter, runs) (dispatch_all-Tidy evs t honest.1 (subst TidyAfter runs first))
        ]

-- Whatever waits in the response queue and whatever the poller reports, where no socket takes more bytes
-- than it was offered and the acceptor makes fresh connections, a round of the event loop that completes
-- leaves every connection tidy if every connection was: its offset is inside its buffer, it is watched
-- for writing while bytes wait, and for reading exactly where reading is not disabled.
pub event_round-Tidy :
    (now : ℕ) (disk : Disk) (fresh : ℕ → ConnectionState)
    → ((fd : ℕ) → Fresh (fresh fd))
    → (queue : List (ℕ × List ℕ)) (evs : List Event) (s t : Serving) → All HonestEvent evs
    → AllTidy s.conns
    → event_round now disk fresh queue evs s ≡ ok (some t)
    → AllTidy t.conns
unfolding event_round
event_round-Tidy now disk fresh new queue evs s t honest h e = subst TidyAfter e (
    dispatch_all-Tidy now disk fresh new evs
      (record s { conns = drain_response_queue queue s.conns }) honest (drain-Tidy queue s.conns h))
