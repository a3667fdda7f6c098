-- ===== src/Replication/Streaming.antt =====
-- The streaming at the end of a round of `ReplicaManager::worker_loop`: each committed record to each
-- follower's socket. The order of the followers in the program's hash map is that of the list.
use fell.Base.{
  ℕ, zero, suc, ap, ◌≡◌, ◌≢◌, refl, sym, ap₂, true, false, ◌∙◌, inl, inr, Bool-cases, List, [], ◌∷◌,
  ◌++◌, ◌==◌, if◌then◌else◌, arith, append_assoc,
}
use fell.Storage.{CommittedRecord}
use fell.Replication.Meta.{PartitionMeta}
use fell.Replication.Manager.{ReplicaManager, Response, worker_round}
use fell.Replication.Protocol.{sync_frame}
use fell.Replication.Server.{sync_frames}

-- The inner loop: what one follower's socket is given, record by record.
unfoldable pub stream_to : PartitionMeta → ℕ → List CommittedRecord → List (ℕ × List ℕ)
unfolding sync_frame
stream_to meta fd [] = []
stream_to meta fd (rec ∷ recs) =
    (fd, sync_frame meta.topic meta.partition_idx meta.epoch rec) ∷ stream_to meta fd recs

unfoldable pub stream_committed :
    PartitionMeta → List (ℕ × ℕ) → List CommittedRecord → List (ℕ × List ℕ)
unfolding stream_to
stream_committed meta [] recs = []
stream_committed meta ((follower_id, fd) ∷ fds) recs =
    stream_to meta fd recs ++ stream_committed meta fds recs

-- A whole round of `worker_loop`: the responses for producers, the bytes for followers, and the state.
unfoldable pub worker_step : ReplicaManager → List Response × List (ℕ × List ℕ) × ReplicaManager
unfolding worker_round stream_committed
worker_step s =
    let (to_send, t) = worker_round s in
    (
      to_send,
      elim s.commit_queue [
        | [] ↦ []
        | (base_offset, records) ∷ queue ↦ stream_committed t.partition t.follower_fds records
      ],
      t,
    )

-- The bytes that a socket is given, in order.
abbrev pub bytes_for : ℕ → List (ℕ × List ℕ) → List ℕ
bytes_for fd [] = []
bytes_for fd ((f, bytes) ∷ sends) =
    if f == fd then bytes ++ bytes_for fd sends else bytes_for fd sends

bytes_for-append :
    (fd : ℕ) (xs ys : List (ℕ × List ℕ))
    → bytes_for fd (xs ++ ys) ≡ bytes_for fd xs ++ bytes_for fd ys
bytes_for-append fd [] ys = refl
bytes_for-append fd ((f, bytes) ∷ xs) ys =
    let rest = bytes_for-append fd xs ys in
    elim (Bool-cases (f == fd)) [
      | inl here ↦ rw (here, rest) (sym (append_assoc bytes (bytes_for fd xs) (bytes_for fd ys)))
      | inr other ↦ rw (other, rest) refl
    ]

-- How many followers are registered with a socket.
abbrev pub registrations : ℕ → List (ℕ × ℕ) → ℕ
registrations fd [] = 0
registrations fd ((id, f) ∷ fds) =
    if f == fd then suc (registrations fd fds) else registrations fd fds

abbrev pub copies : ℕ → List ℕ → List ℕ
copies zero bytes = []
copies (suc n) bytes = bytes ++ copies n bytes

module _ (meta : PartitionMeta) (fd : ℕ) (recs : List CommittedRecord) where
  stream_to_here :
      (rs : List CommittedRecord)
      → bytes_for fd (stream_to meta fd rs)
        ≡ sync_frames (λ o. meta.epoch) meta.topic meta.partition_idx rs
  unfolding stream_to
  stream_to_here [] = refl
  stream_to_here (r ∷ rs) =
      let same : (fd == fd) ≡ true = ground arith in rw (same, stream_to_here rs) refl

  stream_to_other :
      (f : ℕ) (rs : List CommittedRecord) → f ≢ fd → bytes_for fd (stream_to meta f rs) ≡ []
  unfolding stream_to
  stream_to_other f [] other = refl
  stream_to_other f (r ∷ rs) other =
      let differs : (f == fd) ≡ false = ground (arith, other) in
      rw differs (stream_to_other f rs other)

  abbrev frames : List ℕ
  frames = sync_frames (λ o. meta.epoch) meta.topic meta.partition_idx recs

  -- A socket is given the frames of the committed records, in order, as often as it stands in the list of the
  -- followers: none where it does not, once where one follower has it, and the whole run again for each
  -- further follower that is registered with it.
  pub stream_committed-copies :
      (fds : List (ℕ × ℕ))
      → bytes_for fd (stream_committed meta fds recs) ≡ copies (registrations fd fds) frames
  unfolding stream_committed
  stream_committed-copies [] = refl
  stream_committed-copies ((id, f) ∷ fds) = elim (Bool-cases (f == fd)) [
    | inl here ↦ rw here (
        bytes_for-append fd (stream_to meta f recs) (stream_committed meta fds recs)
        ∙ ap₂ (◌++◌)
            (ap (λ k. bytes_for fd (stream_to meta k recs)) {x = f} {y = fd} (ground (arith, here))
              ∙ stream_to_here recs)
            (stream_committed-copies fds))
    | inr other ↦ rw other (
        bytes_for-append fd (stream_to meta f recs) (stream_committed meta fds recs)
        ∙ ap₂ (◌++◌) (stream_to_other f recs (λ e. absurd (ground (arith, e, other))))
            (stream_committed-copies fds))
  ]
