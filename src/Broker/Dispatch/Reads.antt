-- ===== src/Broker/Dispatch/Reads.antt =====
-- Reading from a tidy connection leaves it tidy, or closes it.
use fell.Base.{ℕ, ◌≡◌, refl, sym, ap, ◌∙◌, inl, inr, not, Option-cases, List, [], ◌∷◌, subst}
use fell.Frame.{Frame, push}
use fell.Storage.Reader.{Outcome, ok, threw, stuck, Outcome-cases}
use fell.Broker.Topics.{Disk}
use fell.Broker.Requests.{ConnectionState, Node, Deferred, Reply}
use fell.Broker.Handler.{handle}
use fell.Broker.Outbound.{Interest, after_requests}
use fell.Broker.Reading.{
  Received, bytes, ended, blocked, failed, Served, handle_all, on_readable, later,
}
use fell.Broker.Sending.{Tidy, after_requests-Tidy}
use fell.Broker.Dispatch.Handlers.{conn_in, handle-SameBuffers}
use fell.Broker.Dispatch.Publishing.{SameBuffers}
use fell.Broker.Dispatch.Registered.{TidyOption}

-- A connection whose buffers are those of a tidy one.
SameBuffers-Tidy :
    (a b : ConnectionState) (interest : Interest)
    → SameBuffers a b
    → Tidy b interest
    → Tidy a interest
SameBuffers-Tidy a b interest s t = record {
  inside = rw (s.outbound, s.write_offset) t.inside;
  watched = rw (s.outbound, s.write_offset) t.watched;
  reads = t.reads ∙ ap not (sym s.read_disabled);
}

SameBuffers-trans : (a b c : ConnectionState) → SameBuffers a b → SameBuffers b c → SameBuffers a c
SameBuffers-trans a b c s t = record {
  outbound = s.outbound ∙ t.outbound;
  write_offset = s.write_offset ∙ t.write_offset;
  read_disabled = s.read_disabled ∙ t.read_disabled;
}

module _ (now : ℕ) (disk : Disk) where
  handle_all-SameBuffers :
      (fs : List Frame) (node : Node) (conn : ConnectionState) (r : Reply)
      → handle_all now disk fs node conn ≡ ok r
      → SameBuffers r.conn conn
  unfolding handle_all
  handle_all-SameBuffers [] node conn r e =
      let same : conn ≡ r.conn = ap (conn_in conn) e in
      subst (λ k. SameBuffers k conn) same
        (record { outbound = refl; write_offset = refl; read_disabled = refl })
  handle_all-SameBuffers (f ∷ fs) node conn r e =
      elim (Outcome-cases (handle now disk f node conn)) [
        | inl throws ↦ let w = rw (handle_all, throws) at e in cc
        | inr (inl sticks) ↦ let w = rw (handle_all, sticks) at e in cc
        | inr (inr (q, runs)) ↦
            let first = handle-SameBuffers now disk f node conn q runs in
            elim (Outcome-cases (handle_all now disk fs q.node q.conn)) [
              | inl throws ↦ let w = rw (handle_all, runs, throws) at e in cc
              | inr (inl sticks) ↦ let w = rw (handle_all, runs, sticks) at e in cc
              | inr (inr (s, rest)) ↦
                  let w = rw (handle_all, runs, rest) at e in
                  let last = handle_all-SameBuffers fs q.node q.conn s rest in
                  subst (λ k. SameBuffers k conn) (ap (conn_in conn) w)
                    (SameBuffers-trans s.conn q.conn conn last first)
            ]
      ]

  -- What an event of a connection leaves: a tidy connection, or none.
  abbrev pub TidyServed : Outcome Served → Type 0
  TidyServed (ok s) = TidyOption s.conn
  TidyServed threw = Unit {0}
  TidyServed stuck = Unit {0}

  later-Tidy : (ds : List Deferred) (o : Outcome Served) → TidyServed o → TidyServed (later ds o)
  later-Tidy ds (ok s) t = t
  later-Tidy ds threw t = tt
  later-Tidy ds stuck t = tt

  pub on_readable-Tidy :
      (reads : List Received) (node : Node) (conn : ConnectionState) (interest : Interest)
      → Tidy conn interest
      → TidyServed (on_readable now disk reads node conn interest)
  unfolding on_readable
  on_readable-Tidy [] node conn interest t = t
  on_readable-Tidy (blocked ∷ reads) node conn interest t = t
  on_readable-Tidy (ended ∷ reads) node conn interest t = tt
  on_readable-Tidy (failed ∷ reads) node conn interest t = tt
  on_readable-Tidy (bytes b ∷ reads) node conn interest t =
      let pushed = push conn.decoder b in
      let read : ConnectionState = record conn { decoder = pushed.decoder } in
      elim (Option-cases pushed.count) [
        | inl too_long ↦ rw (on_readable, too_long) tt
        | inr (n, fits) ↦ elim (Outcome-cases (handle_all now disk pushed.out node read)) [
          | inl throws ↦ rw (on_readable, fits, throws) tt
          | inr (inl sticks) ↦ rw (on_readable, fits, sticks) tt
          | inr (inr (r, runs)) ↦
              let same = handle_all-SameBuffers pushed.out node read r runs in
              let r_tidy : Tidy r.conn interest =
                SameBuffers-Tidy r.conn read interest same
                  (record { inside = t.inside; watched = t.watched; reads = t.reads }) in
              let next = after_requests-Tidy r.bytes r.conn interest r_tidy in
              let after = after_requests r.bytes r.conn interest in
              rw (on_readable, fits, runs)
                (later-Tidy r.deferred (on_readable now disk reads r.node after.0 after.1)
                  (on_readable-Tidy reads r.node after.0 after.1 next))
        ]
      ]
