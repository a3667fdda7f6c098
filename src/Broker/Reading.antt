-- ===== src/Broker/Reading.antt =====
-- `Broker::on_readable`, the dispatch of `event_loop` in broker/broker.cpp, and `ConnectionManager::add` of
-- broker/connection_manager.cpp. What `recv` returns is an argument.
use fell.Base.{
  ℕ, ◌≡◌, refl, sym, ap, ap₂, ◌∙◌, inl, inr, List, [], ◌∷◌, ◌++◌, append_assoc, Option, none, some,
  true, false,
}
use fell.Frame.{Frame, push}
use fell.Storage.Reader.{Outcome, ok, threw, stuck, Outcome-cases}
use fell.Broker.Topics.{Disk}
use fell.Broker.Requests.{ConnectionState, Node, Deferred, Reply, reply}
use fell.Broker.Handler.{handle}
use fell.Broker.Outbound.{Interest, Connections, remove_conn, after_requests}

-- What `recv` returns: bytes, the end of the stream, nothing for now, or an error.
pub data Received : Type 0 where
  bytes : List ℕ → Received
  ended : Received
  blocked : Received
  failed : Received

-- A reply put behind another.
abbrev pub behind : Reply → Outcome Reply → Outcome Reply
behind r (ok s) = ok (record s { bytes = r.bytes ++ s.bytes; deferred = r.deferred ++ s.deferred })
behind r threw = threw
behind r stuck = stuck

-- What comes after a reply, put behind it.
abbrev pub and_then : Outcome Reply → (Reply → Outcome Reply) → Outcome Reply
and_then (ok r) k = behind r (k r)
and_then threw k = threw
and_then stuck k = stuck

-- The loop over the frames of one read: the responses are put one behind the other.
unfoldable pub handle_all : ℕ → Disk → List Frame → Node → ConnectionState → Outcome Reply
unfolding handle
handle_all now disk [] node conn = ok (reply [] node conn)
handle_all now disk (f ∷ fs) node conn = elim (handle now disk f node conn) [
  | threw ↦ threw
  | stuck ↦ stuck
  | ok r ↦ behind r (handle_all now disk fs r.node r.conn)
]

-- What a socket event leaves behind: the broker, the acknowledgements deferred, and the connection with
-- what the poller watches, or `none` where it was removed.
pub record Served : Type 0 where
  pub node : Node
  pub deferred : List Deferred
  pub conn : Option (ConnectionState × Interest)

abbrev pub later : List Deferred → Outcome Served → Outcome Served
later ds (ok s) = ok (record s { deferred = ds ++ s.deferred })
later ds threw = threw
later ds stuck = stuck

-- The loop of `on_readable`. It goes on until `recv` has nothing; where the reads given run out, it has
-- nothing.
unfoldable pub on_readable :
    ℕ → Disk → List Received → Node → ConnectionState → Interest → Outcome Served
unfolding push handle_all after_requests
on_readable now disk [] node conn interest =
    ok (record { node = node; deferred = []; conn = some (conn, interest) })
on_readable now disk (blocked ∷ reads) node conn interest =
    ok (record { node = node; deferred = []; conn = some (conn, interest) })
on_readable now disk (ended ∷ reads) node conn interest =
    ok (record { node = node; deferred = []; conn = none })
on_readable now disk (failed ∷ reads) node conn interest =
    ok (record { node = node; deferred = []; conn = none })
on_readable now disk (bytes b ∷ reads) node conn interest =
    let pushed = push conn.decoder b in
    elim pushed.count [
      | none ↦ ok (record { node = node; deferred = []; conn = none })
      | some n ↦
          elim (handle_all now disk pushed.out node (record conn { decoder = pushed.decoder })) [
            | threw ↦ threw
            | stuck ↦ stuck
            | ok r ↦
                let (c, i) = after_requests r.bytes r.conn interest in
                later r.deferred (on_readable now disk reads r.node c i)
          ]
    ]

-- `ConnectionManager::add` for a socket, with the state of a new connection: an old connection of that
-- socket is dropped.
unfoldable pub add_conn : ℕ → ConnectionState → Connections → Connections
add_conn fd fresh cs =
    remove_conn fd cs ++ ((fd, (fresh, record { read = true; write = false })) ∷ [])

-- `Acceptor::accept_all`: the sockets that `accept` returns, until it has none.
unfoldable pub accept_all : List ℕ → (ℕ → ConnectionState) → Connections → Connections
unfolding add_conn
accept_all [] fresh cs = cs
accept_all (fd ∷ fds) fresh cs = accept_all fds fresh (add_conn fd (fresh fd) cs)

module _ (now : ℕ) (disk : Disk) where
  behind-behind :
      (r s : Reply) (o : Outcome Reply)
      → behind r (behind s o)
        ≡ behind (record s { bytes = r.bytes ++ s.bytes; deferred = r.deferred ++ s.deferred }) o
  behind-behind r s threw = refl
  behind-behind r s stuck = refl
  behind-behind r s (ok t) =
      ap₂ (λ b d. ok (record t { bytes = b; deferred = d }))
        (sym (append_assoc r.bytes s.bytes t.bytes))
        (sym (append_assoc r.deferred s.deferred t.deferred))

  behind_nothing :
      (node : Node) (conn : ConnectionState) (o : Outcome Reply) → behind (reply [] node conn) o ≡ o
  behind_nothing node conn (ok s) = refl
  behind_nothing node conn threw = refl
  behind_nothing node conn stuck = refl

  and_then-behind :
      (r : Reply) (o : Outcome Reply) (k : Reply → Outcome Reply)
      → ((s : Reply) (b : List ℕ) (d : List Deferred)
          → k (record s { bytes = b; deferred = d }) ≡ k s)
      → behind r (and_then o k) ≡ and_then (behind r o) k
  and_then-behind r (ok s) k same =
      behind-behind r s (k s)
      ∙ ap (behind (record s { bytes = r.bytes ++ s.bytes; deferred = r.deferred ++ s.deferred }))
          (sym (same s (r.bytes ++ s.bytes) (r.deferred ++ s.deferred)))
  and_then-behind r threw k same = refl
  and_then-behind r stuck k same = refl

  -- Wherever a run of frames is cut in two, handling the first part and then the second on what it left
  -- gives the broker, the connection, the deferred acknowledgements and the responses, in order, that
  -- handling all frames in one read gives; an exception in either part is one of the whole.
  pub handle_all-append :
      (fs gs : List Frame) (node : Node) (conn : ConnectionState)
      → handle_all now disk (fs ++ gs) node conn
        ≡ and_then (handle_all now disk fs node conn) (λ r. handle_all now disk gs r.node r.conn)
  unfolding handle_all
  handle_all-append [] gs node conn =
      sym (behind_nothing node conn (handle_all now disk gs node conn))
  handle_all-append (f ∷ fs) gs node conn = elim (Outcome-cases (handle now disk f node conn)) [
    | inl throws ↦ rw (handle_all, throws) refl
    | inr (inl sticks) ↦ rw (handle_all, sticks) refl
    | inr (inr (r, runs)) ↦
        rw (handle_all, runs)
          (ap (behind r) (handle_all-append fs gs r.node r.conn)
            ∙ and_then-behind r (handle_all now disk fs r.node r.conn)
                (λ s. handle_all now disk gs s.node s.conn) (λ s b d. refl))
  ]
