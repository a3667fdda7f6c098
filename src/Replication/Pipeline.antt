-- ===== src/Replication/Pipeline.antt =====
-- The bytes of a catch-up at the follower's frame loop, and a record that follows too soon.
use fell.Base.{
  ℕ, suc, ◌+◌, ◌^◌, ◌≤◌, ◌<◌, ◌≡◌, ◌≢◌, refl, sym, ap, ◌∙◌, inl, false, List, [], ◌∷◌, ◌++◌, All,
  some, length, append_assoc, append-nil, length-append, arith,
}
use fell.Storage.{StoredMessage}
use fell.Storage.Store.{PartitionStore}
use fell.Storage.Store.Inv.{accepted_store, command}
use fell.Replication.Protocol.{
  ReplicaSyncHeader, sync_header_bytes, sync_frame, replica_sync, replica_sync_end,
}
use fell.Replication.Stream.{
  Call, Handled, frame_loop, sent_frames, calls_of, handle_calls, loop_end, frame_loop-sent_frames,
}
use fell.Replication.Server.{sync_frames, sync_end_frame}
use fell.Replication.Client.{ReplicationClient, on_replica_sync, disconnect}
use fell.Replication.Follow.{
  header_of, length-sync_header_bytes, expecting, registered, on_replica_sync_takes,
  on_replica_sync_refuses,
}

module _ (epoch : ℕ → ℕ) (topic : List ℕ) (partition : ℕ) where
  -- The opcode and the body of each frame of a catch-up.
  abbrev pub record_frame : StoredMessage → ℕ × List ℕ
  record_frame m =
      (replica_sync, sync_header_bytes (header_of topic partition (epoch m.offset) m) ++ m.payload)

  abbrev pub end_frame : ℕ × List ℕ
  end_frame = (
    replica_sync_end,
    sync_header_bytes (record {
      topic = topic;
      partition = partition;
      epoch = 0;
      offset = 0;
      timestamp_ms = 0;
      payload_size = 0;
    }),
  )

  abbrev pub catch_up_frames : List StoredMessage → List (ℕ × List ℕ)
  catch_up_frames [] = end_frame ∷ []
  catch_up_frames (m ∷ ms) = record_frame m ∷ catch_up_frames ms

  sent-catch_up_frames :
      (ms : List StoredMessage)
      → sync_frames epoch topic partition ms ++ sync_end_frame topic partition
        ≡ sent_frames (catch_up_frames ms) ++ []
  unfolding sync_frame sync_end_frame
  sent-catch_up_frames [] = sym (ap (λ l. l ++ []) (append-nil _) ∙ append-nil _)
  sent-catch_up_frames (m ∷ ms) =
      append_assoc (sync_frame topic partition (epoch m.offset) m) _ _
      ∙ ap (◌++◌ (sync_frame topic partition (epoch m.offset) m)) (sent-catch_up_frames ms)
      ∙ sym (append_assoc (sync_frame topic partition (epoch m.offset) m) _ [])

  catch_up_small :
      (ms : List StoredMessage)
      → All (λ m. length m.payload + 287 < 2 ^ 32) ms
      → All (λ f. length f.1 + 5 < 2 ^ 32) (catch_up_frames ms)
  catch_up_small [] small = (omega (arith, length-sync_header_bytes _), tt)
  catch_up_small (m ∷ ms) (fits, small) = (
    omega (
      arith,
      fits,
      length-append (sync_header_bytes (header_of topic partition (epoch m.offset) m)) m.payload,
      length-sync_header_bytes (header_of topic partition (epoch m.offset) m),
    ),
    catch_up_small ms small,
  )

  length-catch_up_frames : (ms : List StoredMessage) → length (catch_up_frames ms) ≡ suc (length ms)
  length-catch_up_frames [] = refl
  length-catch_up_frames (m ∷ ms) = ap suc (length-catch_up_frames ms)

  -- The loop over the bytes of a catch-up calls the handler for each record, in order, and for the end, as long
  -- as the handler leaves the buffer alone.
  pub frame_loop-sync_frames {ℓ} :
      {S : Type ℓ}
      → (handle : Call → S → Handled S) (ms : List StoredMessage) (fuel : ℕ) (s : S)
      → All (λ m. length m.payload + 287 < 2 ^ 32) ms
      → length ms + 1 < fuel
      → frame_loop handle fuel
          (sync_frames epoch topic partition ms ++ sync_end_frame topic partition)
          s
        ≡ loop_end [] (handle_calls handle (calls_of (catch_up_frames ms) []) s)
  frame_loop-sync_frames handle ms fuel s small enough =
      ap (λ b. frame_loop handle fuel b s) (sent-catch_up_frames ms)
      ∙ frame_loop-sent_frames handle (catch_up_frames ms) [] fuel s (catch_up_small ms small)
          (inl (omega arith)) (omega (arith, enough, length-catch_up_frames ms))

module _ (now : ℕ) (h : ReplicaSyncHeader) (payload : List ℕ) (p : PartitionStore)
    (c : ReplicationClient) where
  -- A record that the follower takes is still queued when the frame of the next one is handled, since
  -- both were in one buffer: the second record is refused and the connection ended, although its offset
  -- is the next one.
  pub pipelined_refused :
      (then_ : ℕ) (next : ReplicaSyncHeader) (payload2 : List ℕ)
      → h.offset ≡ p.writer.next_offset
      → p.committed_offset ≡ p.writer.next_offset
      → h.payload_size ≡ length payload
      → p.shutdown ≡ false
      → length p.queue < p.options.queue_capacity
      → p.pending_bytes + length payload ≤ p.options.max_pending_bytes
      → next.offset ≡ h.offset + 1
      → (r : PartitionStore) × (d : ReplicationClient) × (on_replica_sync now h
            (payload ++ payload2)
            (some p)
            c
          ≡ some (some r, d))
        × (r.queue ≢ p.queue)
        × (d.fd ≡ c.fd)
        × (on_replica_sync then_ next payload2 (some r) d ≡ some (some r, disconnect d))
  pipelined_refused then_ next payload2 wanted committed size runs fits small follows = (
    accepted_store now payload (expecting now h payload payload2 p c),
    registered now h payload payload2 p c,
    on_replica_sync_takes now h payload payload2 p c wanted committed size runs fits small,
    λ e. absurd (
        omega (
          arith,
          ap length e,
          length-append p.queue (command now payload (expecting now h payload payload2 p c) ∷ []),
        )),
    refl,
    ap (λ b. on_replica_sync then_ next b _ _) (sym (append-nil payload2))
        ∙ on_replica_sync_refuses then_ next payload2 []
            (accepted_store now payload (expecting now h payload payload2 p c))
            (registered now h payload payload2 p c)
            (λ e. absurd (omega (arith, e, follows, wanted))),
  )
