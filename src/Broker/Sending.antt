-- ===== src/Broker/Sending.antt =====
-- No byte of a response is lost, doubled or reordered on its way to the socket.
use fell.Base.{
  ℕ, ◌+◌, ◌-◌, ◌≤◌, ◌<◌, ◌≡◌, refl, sym, ap, ◌∙◌, inl, inr, true, not, Bool-cases, List, [], ◌∷◌,
  ◌++◌, some, length, take, drop, drop_all, drop-drop, take-append-drop, drop-append_le,
  length-append, length-drop, append-nil, subst, ltb→lt, ltb, ◌==◌, arith,
}
use fell.Broker.Requests.{ConnectionState}
use fell.Broker.Outbound.{
  Interest, Sent, wrote, blocked, broken, enqueue, throttle, after_requests, refill, on_writable,
}

-- The bytes that wait to be sent.
abbrev pub waiting : ConnectionState → List ℕ
waiting conn = drop conn.write_offset conn.outbound

-- Where a connection stands between two events: its offset is inside the buffer, and while bytes
-- wait the poller watches for writing, and for reading unless reading is disabled.
pub record Tidy (conn : ConnectionState) (interest : Interest) : Type 0 where
  pub inside : conn.write_offset ≤ length conn.outbound
  pub watched : 0 < length (waiting conn) → interest.write ≡ true
  pub reads : interest.read ≡ not conn.read_disabled

refill-waiting :
    (conn : ConnectionState) (interest : Interest) → waiting (refill conn interest).0 ≡ waiting conn
unfolding refill
refill-waiting conn interest = elim (Bool-cases (conn.write_offset == length conn.outbound)) [
  | inl out ↦ rw out (sym (drop_all conn.write_offset conn.outbound (ground (arith, out))))
  | inr more ↦ rw more refl
]

refill-Tidy :
    (conn : ConnectionState) (interest : Interest)
    → Tidy conn interest
    → Tidy (refill conn interest).0 (refill conn interest).1
unfolding refill
refill-Tidy conn interest v = elim (Bool-cases (conn.write_offset == length conn.outbound)) [
  | inl out ↦
      rw out
        (record { inside = omega arith; watched = λ h. absurd (omega (arith, h)); reads = refl })
  | inr more ↦ rw more v
]

-- A send on a tidy connection that takes `n` of the bytes offered takes just these off the front of
-- what waits, and leaves the connection tidy. It is kept.
pub on_writable-waiting :
    (n : ℕ) (conn : ConnectionState) (interest : Interest)
    → Tidy conn interest
    → conn.write_offset < length conn.outbound
    → n ≤ length (waiting conn)
    → (kept : ConnectionState) × (i : Interest) × (on_writable (wrote n) conn interest
        ≡ some (kept, i))
      × (take n (waiting conn) ++ waiting kept ≡ waiting conn)
      × Tidy kept i
unfolding on_writable
on_writable-waiting n conn interest v some_wait offered =
    let sends : ltb conn.write_offset (length conn.outbound) ≡ true = ground (arith, some_wait) in
    let moved : ConnectionState = record conn { write_offset = conn.write_offset + n } in
    let long = length-drop conn.write_offset conn.outbound in
    (
      (refill moved interest).0,
      (refill moved interest).1,
      rw sends refl,
      ap (◌++◌ (take n (waiting conn)))
            (refill-waiting moved interest ∙ sym (drop-drop n conn.write_offset conn.outbound))
          ∙ take-append-drop n (waiting conn),
      refill-Tidy moved interest (record {
        inside = omega (arith, some_wait, offered, long);
        watched = λ h. v.watched (omega (arith, some_wait, long));
        reads = v.reads;
      }),
    )

-- Responses to a batch of requests are put behind all bytes that wait.
pub after_requests-waiting :
    (bytes : List ℕ) (conn : ConnectionState) (interest : Interest)
    → conn.write_offset ≤ length conn.outbound
    → waiting (after_requests bytes conn interest).0 ≡ waiting conn ++ bytes
unfolding after_requests enqueue throttle
after_requests-waiting [] conn interest inside = ground (arith, append-nil (waiting conn))
after_requests-waiting (b ∷ bytes) conn interest inside =
    ground (arith, drop-append_le conn.write_offset conn.outbound (b ∷ bytes) inside)

-- After a batch of requests the connection is tidy again: the poller watches for writing while bytes
-- wait, and for reading exactly where reading is not disabled.
pub after_requests-Tidy :
    (bytes : List ℕ) (conn : ConnectionState) (interest : Interest)
    → Tidy conn interest
    → Tidy (after_requests bytes conn interest).0 (after_requests bytes conn interest).1
unfolding after_requests enqueue throttle
after_requests-Tidy [] conn interest v = record {
  inside = ground (arith, v.inside);
  watched = λ h. ground (arith, v.watched, h);
  reads = ground (arith, v.reads);
}
after_requests-Tidy (b ∷ bytes) conn interest v = record {
  inside = ground (arith, v.inside, length-append conn.outbound (b ∷ bytes));
  watched = λ h. ground arith;
  reads = ground arith;
}

-- Whatever a send that takes no more than was offered gives, a connection that is kept is tidy.
pub on_writable-Tidy :
    (sent : Sent) (conn : ConnectionState) (interest : Interest)
    → ((n : ℕ) → sent ≡ wrote n → n ≤ length conn.outbound - conn.write_offset)
    → Tidy conn interest
    → (kept : ConnectionState) (i : Interest) → on_writable sent conn interest ≡ some (kept, i)
    → Tidy kept i
unfolding on_writable
on_writable-Tidy (wrote n) conn interest offered v kept i e =
    let moved : ConnectionState = record conn { write_offset = conn.write_offset + n } in
    elim (Bool-cases (ltb conn.write_offset (length conn.outbound))) [
      | inl sends ↦
          let m : Tidy moved interest = record {
            inside =
                omega
                  (arith, ltb→lt conn.write_offset (length conn.outbound) sends, offered n refl);
            watched = λ h. v.watched (
                omega (
                  arith,
                  h,
                  length-drop conn.write_offset conn.outbound,
                  length-drop (conn.write_offset + n) conn.outbound,
                ));
            reads = v.reads;
          } in
          kept_as (refill moved interest) (refill-Tidy moved interest m) (rw sends at e)
      | inr none_left ↦
          kept_as (refill conn interest) (refill-Tidy conn interest v) (rw none_left at e)
    ]
  where
    kept_as :
        (r : ConnectionState × Interest) → Tidy r.0 r.1 → some r ≡ some (kept, i) → Tidy kept i
    kept_as r t is =
        let same : r ≡ (kept, i) = cc in
        subst (λ (s : ConnectionState × Interest). Tidy s.0 s.1) same t
on_writable-Tidy blocked conn interest offered v kept i e =
    let same : refill conn interest ≡ (kept, i) = cc in
    subst (λ (s : ConnectionState × Interest). Tidy s.0 s.1) same (refill-Tidy conn interest v)
on_writable-Tidy broken conn interest offered v kept i e =
    elim (Bool-cases (ltb conn.write_offset (length conn.outbound))) [
      | inl sends ↦ let w = rw sends at e in cc
      | inr none_left ↦
          let w = rw none_left at e in
          let same : refill conn interest ≡ (kept, i) = cc in
          subst (λ (s : ConnectionState × Interest). Tidy s.0 s.1) same
            (refill-Tidy conn interest v)
    ]
