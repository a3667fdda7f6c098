-- ===== src/Storage/Store/Fetch.antt =====
-- `fetch` on a segment that the invariant describes.
use fell.Base.{
  ℕ, zero, suc, ◌+◌, ◌-◌, ◌^◌, ◌≤◌, ◌<◌, ◌≡◌, refl, sym, ap, ap₂, ◌∙◌, ◌⊎◌, inl, inr, Bool-cases,
  List, [], ◌∷◌, ◌++◌, none, some, length, All, take, drop, leb, leb→le, subst, append-nil,
  length-append, arith, take_all,
}
use fell.Storage.{StoredMessage, IsStorable}
use fell.Storage.Format.{log_of, encode_record, length-encode_record, is_due, log_of-append}
use fell.Storage.Reader.{ok, read}
use fell.Storage.Reader.Read.{from_offset, read-log_of}
use fell.Storage.Index.{load}
use fell.Storage.Index.Load.{IsEntry, index_of, load-index_of}
use fell.Storage.Index.Lookup.{Consecutive, due_entries, Found, lookup-Found}
use fell.Storage.Store.{PartitionStore, Segment, fetch, find_segment_for, cached, cached_index}
use fell.Storage.Store.Inv.{Holds}

from_offset-below :
    (target : ℕ) (before after : List StoredMessage)
    → All (λ m. m.offset < target) before
    → from_offset target (before ++ after) ≡ from_offset target after
from_offset-below target [] after b = refl
from_offset-below target (m ∷ before) after (bm, b) =
    let rest = from_offset-below target before after b in ground (arith, rest)

from_offset_all :
    (n target : ℕ) (ms : List StoredMessage)
    → Consecutive n ms
    → target ≤ n
    → from_offset target ms ≡ ms
from_offset_all n target [] c h = refl
from_offset_all n target (m ∷ ms) (e, c) h =
    let rest = from_offset_all (suc n) target ms c (omega arith) in ground (arith, rest)

drop_nil : (k : ℕ) → drop {A = StoredMessage} k [] ≡ []
drop_nil zero = refl
drop_nil (suc k) = refl

-- Of consecutive records, those from an offset on are what is left after dropping the others.
pub from_offset-drop :
    (n target : ℕ) (ms : List StoredMessage)
    → Consecutive n ms
    → from_offset target ms ≡ drop (target - n) ms
from_offset-drop n target [] c = sym (drop_nil (target - n))
from_offset-drop n target (m ∷ ms) (e, c) = elim (Bool-cases (leb target m.offset)) [
  | inl start ↦
      from_offset_all n target (m ∷ ms) (e, c) (omega (arith, leb→le _ _ start, e))
      ∙ ap (λ k. drop k (m ∷ ms)) {x = 0} {y = target - n} (omega (arith, leb→le _ _ start, e))
  | inr later ↦ rw later (
      from_offset-drop (suc n) target ms c
      ∙ ap (λ k. drop k (m ∷ ms)) {x = suc (target - suc n)} {y = target - n}
          (ground (arith, e, later)))
]

All-back : (xs ys : List StoredMessage) → All IsStorable (xs ++ ys) → All IsStorable ys
All-back [] ys v = v
All-back (x ∷ xs) ys v = All-back xs ys v.1

entries-IsEntry :
    (base position : ℕ) (ms : List StoredMessage)
    → All IsStorable ms
    → position + length (log_of ms) < 2 ^ 64
    → All IsEntry (due_entries base position ms)
entries-IsEntry base position [] s h = tt
entries-IsEntry base position (m ∷ ms) (sm, s) h =
    let rest =
      entries-IsEntry base (position + (20 + length m.payload)) ms s
        (omega (arith, h, length-append (encode_record m) (log_of ms), length-encode_record m)) in
    elim (Bool-cases (is_due base m)) [
      | inl due ↦
          rw due (record { offset_u64 = sm.offset_u64; position_u64 = omega (arith, h) }, rest)
      | inr undue ↦ rw undue rest
    ]

-- The cache has nothing of the segment yet, or the entries that its index had at an earlier time.
abbrev pub IsCacheOf : Segment → List StoredMessage → PartitionStore → Type 0
IsCacheOf g recs s =
    (cached g.base_offset s.segment_cache ≡ none)
    ⊎ ((k : ℕ) × (cached g.base_offset s.segment_cache
          ≡ some (take k (due_entries g.base_offset 0 recs))))

module _ (offset max_count : ℕ) (s : PartitionStore) (g : Segment) (recs : List StoredMessage) where
  index_cases :
      Holds g recs
      → IsCacheOf g recs s
      → length g.log < 2 ^ 64
      → (k : ℕ) × ((cached_index g s).0 ≡ take k (due_entries g.base_offset 0 recs))
  unfolding cached_index
  index_cases h (inl fresh) small = (
    length (due_entries g.base_offset 0 recs),
    rw (cached_index, fresh)
        (ap (λ b. load (some b))
            (h.index ∙ sym (append-nil (index_of (due_entries g.base_offset 0 recs))))
          ∙ load-index_of (due_entries g.base_offset 0 recs) []
              (entries-IsEntry g.base_offset 0 recs h.storable
                (omega (arith, ap length h.log, small)))
              (omega arith)
          ∙ sym (take_all _ (due_entries g.base_offset 0 recs) (omega arith))),
  )
  index_cases h (inr (k, e)) small = (k, rw (cached_index, e) refl)

  read-Found :
      Holds g recs
      → (position : ℕ) → Found recs offset position
      → read (some g.log) position offset max_count ≡ ok (take max_count (from_offset offset recs))
  read-Found h position f =
      ap₂ (λ b p. read (some b) p offset max_count)
        (h.log
          ∙ ap log_of f.whole
          ∙ log_of-append f.before f.after
          ∙ ap (◌++◌ (log_of f.before)) (sym (append-nil (log_of f.after))))
        f.at
      ∙ read-log_of f.before f.after [] offset max_count
          (All-back f.before f.after (subst (All IsStorable) f.whole h.storable))
          (inl (omega arith))
      ∙ ap (λ l. ok (take max_count l))
          (sym
            (ap (from_offset offset) f.whole ∙ from_offset-below offset f.before f.after f.below))

  -- A fetch from a segment that holds consecutive records returns those from the requested offset
  -- on, at most `max_count` of them and none left out, whether its index is read now or was cached
  -- when the segment had fewer entries.
  pub fetch-Holds :
      find_segment_for offset s ≡ some g
      → Holds g recs
      → IsCacheOf g recs s
      → length g.log < 2 ^ 64
      → (fetch offset max_count s).0 ≡ ok (take max_count (drop (offset - g.base_offset) recs))
  unfolding fetch
  fetch-Holds found h cache small =
      let (k, e) = index_cases h cache small in
      rw (fetch, found, e)
        (read-Found h _ (lookup-Found g.base_offset offset g.base_offset k recs h.consecutive)
          ∙ ap (λ l. ok (take max_count l))
              (from_offset-drop g.base_offset offset recs h.consecutive))
