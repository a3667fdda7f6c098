-- ===== src/Storage/Store/Segments.antt =====
-- `find_segment_for` over the sealed segments of a store, and what a fetch finds through it.
use fell.Base.{
  ℕ, suc, ◌+◌, ◌-◌, ◌^◌, ◌≤◌, ◌<◌, ◌≡◌, refl, sym, ap, ◌∙◌, inl, inr, Bool-cases, List, [], ◌∷◌,
  ◌++◌, some, length, get_or, take, drop, min, leb, subst, drop_all, take_all, append-nil,
  take-append_le, take-nil, drop-append_le, length-drop, drop-append_self, drop-drop, arith,
}
use fell.Storage.{StoredMessage}
use fell.Storage.Reader.{ok}
use fell.Storage.Store.{PartitionStore, Segment, segments_upto, find_segment_for, fetch}
use fell.Storage.Store.Inv.{Holds}
use fell.Storage.Store.Fetch.{IsCacheOf, fetch-Holds}

take-length : (n : ℕ) (xs : List StoredMessage) → take n xs ≡ take (min n (length xs)) xs
take-length n xs = elim (Bool-cases (leb n (length xs))) [
  | inl short ↦ ap (λ k. take k xs) {x = n} {y = min n (length xs)} (ground (arith, short))
  | inr long ↦
      take_all n xs (ground (arith, long))
      ∙ sym (take_all (min n (length xs)) xs (ground (arith, long)))
]

take-append_min :
    (n : ℕ) (xs ys : List StoredMessage) → take n xs ≡ take (min n (length xs)) (xs ++ ys)
take-append_min n xs ys =
    take-length n xs ∙ sym (take-append_le (min n (length xs)) xs ys (omega arith))

-- A segment with the records that it holds.
abbrev pub Filled : Type 0
Filled = Segment × List StoredMessage

abbrev pub segments_of : List Filled → List Segment
segments_of [] = []
segments_of ((g, recs) ∷ gs) = g ∷ segments_of gs

abbrev pub records_of : List Filled → List StoredMessage
records_of [] = []
records_of ((g, recs) ∷ gs) = recs ++ records_of gs

-- Segments that follow one another without a gap, from one offset to another, with what a fetch may
-- have cached of each.
abbrev pub Chain : PartitionStore → ℕ → List Filled → ℕ → Type 0
Chain s from [] to = from ≡ to
Chain s from ((g, recs) ∷ gs) to =
    (g.base_offset ≡ from)
    × Holds g recs
    × IsCacheOf g recs s
    × (length g.log < 2 ^ 64)
    × Chain s (from + length recs) gs to

Chain-le :
    (s : PartitionStore) (from : ℕ) (gs : List Filled) (to : ℕ) → Chain s from gs to → from ≤ to
Chain-le s from [] to c = omega (arith, c)
Chain-le s from ((g, recs) ∷ gs) to (_, _, _, _, c) =
    omega (arith, Chain-le s (from + length recs) gs to c)

-- The search stops in front of a chain that begins later.
upto_before :
    (s : PartitionStore) (from : ℕ) (gs : List Filled) (to offset : ℕ)
    → Chain s from gs to
    → offset < from
    → segments_upto (segments_of gs) offset ≡ 0
unfolding segments_upto
upto_before s from [] to offset c h = refl
upto_before s from ((g, recs) ∷ gs) to offset (base, _, _, _, _) h = ground (arith, base, h)

-- The segment that the search ends at.
record Located (s : PartitionStore) (from : ℕ) (gs : List Filled) (to offset : ℕ) : Type 0 where
  segment : Segment
  recs : List StoredMessage
  later : List StoredMessage
  place : ℕ
  upto : segments_upto (segments_of gs) offset ≡ suc place
  there : (d : Segment) → get_or (segments_of gs) place d ≡ segment
  holds : Holds segment recs
  cached : IsCacheOf segment recs s
  small : length segment.log < 2 ^ 64
  below : segment.base_offset ≤ offset
  wanted : drop (offset - from) (records_of gs) ≡ drop (offset - segment.base_offset) recs ++ later
  inside : offset < to → offset < segment.base_offset + length recs
  past : to ≤ offset → segment.base_offset + length recs ≤ offset

module _ (s : PartitionStore) where
  here :
      (from : ℕ) (g : Segment) (recs : List StoredMessage) (gs : List Filled) (to offset : ℕ)
      → Chain s from ((g, recs) ∷ gs) to
      → from ≤ offset
      → segments_upto (segments_of gs) offset ≡ 0
      → (drop (offset - from) (recs ++ records_of gs) ≡ drop (offset - from) recs ++ records_of gs)
      → (offset < to → offset < from + length recs)
      → (to ≤ offset → from + length recs ≤ offset)
      → Located s from ((g, recs) ∷ gs) to offset
  unfolding segments_upto
  here from g recs gs to offset (base, holds, cached, small, c) low stops wanted inside past =
      record {
        segment = g;
        recs = recs;
        later = records_of gs;
        place = 0;
        upto = ground (arith, base, low, stops);
        there = λ d. refl;
        holds = holds;
        cached = cached;
        small = small;
        below = omega (arith, base, low);
        wanted = wanted ∙ ap (λ b. drop (offset - b) recs ++ records_of gs) (sym base);
        inside = λ h. omega (arith, base, inside h);
        past = λ h. omega (arith, base, past h);
      }

  locate :
      (from : ℕ) (g : Segment) (recs : List StoredMessage) (gs : List Filled) (to offset : ℕ)
      → Chain s from ((g, recs) ∷ gs) to
      → from ≤ offset
      → Located s from ((g, recs) ∷ gs) to offset
  unfolding segments_upto
  locate from g recs [] to offset c low =
      here from g recs [] to offset c low refl
        (ap (drop (offset - from)) (append-nil recs) ∙ sym (append-nil (drop (offset - from) recs)))
        (λ h. omega (arith, h, c.4)) (λ h. omega (arith, h, c.4))
  locate from g recs ((g2, recs2) ∷ gs) to offset c low =
      elim (Bool-cases (leb (from + length recs) offset)) [
        | inl later ↦
            let l = locate (from + length recs) g2 recs2 gs to offset c.4 (ground (arith, later)) in
            record {
              segment = l.segment;
              recs = l.recs;
              later = l.later;
              place = suc l.place;
              upto = ground (arith, c.0, low, l.upto);
              there = l.there;
              holds = l.holds;
              cached = l.cached;
              small = l.small;
              below = l.below;
              wanted =
                  ap (λ n. drop n (recs ++ records_of ((g2, recs2) ∷ gs))) {x = offset - from}
                    {y = length recs + (offset - (from + length recs))} (ground (arith, later))
                  ∙ sym (drop-drop (offset - (from + length recs)) (length recs) _)
                  ∙ ap (drop (offset - (from + length recs)))
                      (drop-append_self (length recs) recs _ refl)
                  ∙ l.wanted;
              inside = l.inside;
              past = l.past;
            }
        | inr first ↦
            let fits : offset < from + length recs = ground (arith, first) in
            here from g recs ((g2, recs2) ∷ gs) to offset c low
              (upto_before s (from + length recs) ((g2, recs2) ∷ gs) to offset c.4 fits)
              (drop-append_le (offset - from) recs _ (omega (arith, fits))) (λ h. fits)
              (λ h.
                absurd (
                  omega
                    (arith, h, fits, Chain-le s (from + length recs) ((g2, recs2) ∷ gs) to c.4)))
      ]

  find_segment_for-Located :
      (from to offset : ℕ) (gs : List Filled)
      → segments_of gs ≡ s.sealed_segments
      → (l : Located s from gs to offset) → find_segment_for offset s ≡ some l.segment
  unfolding find_segment_for
  find_segment_for-Located from to offset gs e l =
      let upto : segments_upto s.sealed_segments offset ≡ suc l.place =
        subst (λ gs. segments_upto gs offset ≡ suc l.place) e l.upto in
      let there : get_or s.sealed_segments l.place s.active ≡ l.segment =
        subst (λ gs. get_or gs l.place s.active ≡ l.segment) e (l.there s.active) in
      ground (
        arith,
        upto,
        there,
        ap (λ k. get_or s.sealed_segments k s.active)
            {x = segments_upto s.sealed_segments offset - 1} {y = l.place} (omega (arith, upto)),
      )

  -- A fetch of an offset that lies in a sealed segment returns records of the partition from that
  -- offset on, none left out: at least one where one was asked for, at most `max_count`, and those of
  -- later segments not.
  pub fetch-sealed :
      (from to offset max_count : ℕ) (gs : List Filled)
      → Chain s from gs to
      → segments_of gs ≡ s.sealed_segments
      → from ≤ offset
      → offset < to
      → (n : ℕ) × (n ≤ max_count)
        × (0 < max_count → 0 < n)
        × ((fetch offset max_count s).0 ≡ ok (take n (drop (offset - from) (records_of gs))))
  fetch-sealed from to offset max_count [] c e low high = absurd (omega (arith, c, low, high))
  fetch-sealed from to offset max_count ((g, recs) ∷ gs) c e low high =
      let l = locate from g recs gs to offset c low in
      let rest = drop (offset - l.segment.base_offset) l.recs in
      let inside = l.inside high in
      (
        min max_count (length rest),
        omega arith,
        λ h. omega (arith, h, inside, l.below, length-drop (offset - l.segment.base_offset) l.recs),
        fetch-Holds offset max_count s l.segment l.recs
              (find_segment_for-Located from to offset ((g, recs) ∷ gs) e l) l.holds l.cached
              l.small
            ∙ ap ok (
                take-append_min max_count rest l.later
                ∙ ap (take (min max_count (length rest))) (sym l.wanted)),
      )

  -- Where a segment was sealed, a fetch behind the sealed segments returns nothing, although the
  -- active segment may hold the record: the search ends at the last sealed segment.
  pub fetch_active_hidden :
      (from to offset max_count : ℕ) (f : Filled) (gs : List Filled)
      → Chain s from (f ∷ gs) to
      → segments_of (f ∷ gs) ≡ s.sealed_segments
      → to ≤ offset
      → (fetch offset max_count s).0 ≡ ok []
  fetch_active_hidden from to offset max_count (g, recs) gs c e past =
      let low = Chain-le s from ((g, recs) ∷ gs) to c in
      let l = locate from g recs gs to offset c (omega (arith, low, past)) in
      fetch-Holds offset max_count s l.segment l.recs
        (find_segment_for-Located from to offset ((g, recs) ∷ gs) e l) l.holds l.cached l.small
      ∙ ap (λ r. ok (take max_count r))
          (drop_all (offset - l.segment.base_offset) l.recs (omega (arith, l.past past, l.below)))
      ∙ ap ok (take-nil max_count)
