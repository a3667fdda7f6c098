-- ===== src/Frame/Payload.antt =====
-- `SmallPayload` of broker/include/broker/frame_decoder.hpp: bytes in the object or on the heap. The union
-- has the member that was written last; what the language leaves undefined is `none`: reading the other
-- member, or deleting what is not live.
use fell.Base.{
  ℕ, suc, ◌+◌, ◌<◌, ◌≡◌, ◌≢◌, refl, sym, ap, ◌∙◌, ◌⊎◌, inl, inr, Bool, true, false, Bool-cases,
  List, [], ◌∷◌, Option, none, some, length, take, take_all, leb, ◌==◌, if◌then◌else◌, arith,
}

-- The live blocks of the heap by address. New blocks get addresses that were never used.
pub record Heap : Type 0 where
  pub next : ℕ
  pub blocks : List (ℕ × List ℕ)

pub data Member : Type 0 where
  inline_data : List ℕ → Member
  heap_data : Option ℕ → Member

pub record SmallPayload : Type 0 where
  pub size : ℕ
  pub is_small : Bool
  pub storage : Member

abbrev pub block_at : ℕ → List (ℕ × List ℕ) → Option (List ℕ)
block_at a [] = none
block_at a ((b, bytes) ∷ blocks) = if b == a then some bytes else block_at a blocks

-- `delete[]`
abbrev pub delete : ℕ → List (ℕ × List ℕ) → Option (List (ℕ × List ℕ))
delete a [] = none
delete a ((b, bytes) ∷ blocks) =
    let rest = delete a blocks in
    if b == a then some blocks else elim rest [ none ↦ none | some left ↦ some ((b, bytes) ∷ left) ]

abbrev pub empty_payload : SmallPayload
empty_payload = record { size = 0; is_small = true; storage = inline_data [] }

unfoldable pub free_heap : Heap → SmallPayload → Option (Heap × SmallPayload)
free_heap h p = if p.is_small then some (h, p) else elim p.storage [
  | inline_data b ↦ none
  | heap_data none ↦ some (h, p)
  | heap_data (some a) ↦ elim (delete a h.blocks) [
    | none ↦ none
    | some blocks ↦ some (record h { blocks = blocks }, record p { storage = heap_data none })
  ]
]

-- `assign`, with the capacity of the inline array.
unfoldable pub assign : ℕ → List ℕ → Heap → SmallPayload → Option (Heap × SmallPayload)
unfolding free_heap
assign capacity bytes h p = elim (free_heap h p) [
  | none ↦ none
  | some (g, q) ↦
      if leb (length bytes) capacity
      then some (
        g,
        record {
          size = length bytes;
          is_small = true;
          storage = if length bytes == 0 then q.storage else inline_data bytes;
        },
      )
      else some (
        record { next = g.next + 1; blocks = (g.next, bytes) ∷ g.blocks },
        record { size = length bytes; is_small = false; storage = heap_data (some g.next) },
      )
]

-- What a payload that was moved from is.
abbrev pub moved_from : SmallPayload
moved_from = record { size = 0; is_small = true; storage = heap_data none }

-- The body of the move operations after the old block was freed: the two payloads.
abbrev pub take_over : SmallPayload → SmallPayload → Option (SmallPayload × SmallPayload)
take_over this other =
    if other.is_small
    then (if other.size == 0
        then some (record { size = 0; is_small = true; storage = this.storage }, other)
        else elim other.storage [
          | heap_data a ↦ none
          | inline_data b ↦ some (
            record {
              size = other.size;
              is_small = true;
              storage = inline_data (take other.size b);
            },
            other,
          )
        ])
    else elim other.storage [
      | inline_data b ↦ none
      | heap_data a ↦
          some (record { size = other.size; is_small = false; storage = heap_data a }, moved_from)
    ]

-- The move constructor.
abbrev pub move_construct : SmallPayload → Option (SmallPayload × SmallPayload)
move_construct other = take_over empty_payload other

-- `operator=(SmallPayload &&)` for two objects.
unfoldable pub move_assign :
    Heap → SmallPayload → SmallPayload → Option (Heap × (SmallPayload × SmallPayload))
unfolding free_heap
move_assign h this other = elim (free_heap h this) [
  | none ↦ none
  | some (g, freed) ↦ elim (take_over freed other) [ none ↦ none | some both ↦ some (g, both) ]
]

-- The bytes behind `data()`, `size()` of them.
unfoldable pub contents : Heap → SmallPayload → Option (List ℕ)
contents h p =
    if p.is_small
    then (if p.size == 0
        then some []
        else elim p.storage [ heap_data a ↦ none | inline_data b ↦ some (take p.size b) ])
    else elim p.storage [
      | inline_data b ↦ none
      | heap_data none ↦ none
      | heap_data (some a) ↦ block_at a h.blocks
    ]

-- The blocks that a payload has to free.
abbrev pub owned : SmallPayload → ℕ
owned p = if p.is_small then 0 else 1

-- A payload stands for bytes.
pub record Holds (h : Heap) (p : SmallPayload) (bytes : List ℕ) : Type 0 where
  pub counted : p.size ≡ length bytes
  pub kept :
      ((p.is_small ≡ true) × ((length bytes ≡ 0) ⊎ (p.storage ≡ inline_data bytes)))
      ⊎ ((p.is_small ≡ false)
          × ((a : ℕ) × ((p.storage ≡ heap_data (some a)) × (block_at a h.blocks ≡ some bytes))))

length0 : (bytes : List ℕ) → length bytes ≡ 0 → bytes ≡ []
length0 [] e = refl
length0 (b ∷ bytes) e = absurd (omega (arith, e))

-- `data()` and `size()` give the bytes that a payload stands for.
pub Holds-contents :
    (h : Heap) (p : SmallPayload) (bytes : List ℕ) → Holds h p bytes → contents h p ≡ some bytes
unfolding contents
Holds-contents h p bytes v = elim v.kept [
  | inr (large, (a, (at, live))) ↦ rw (large, at) live
  | inl (small, inl empty) ↦
      let size0 : (p.size == 0) ≡ true = ground (arith, v.counted, empty) in
      rw (small, size0) (ap some (sym (length0 bytes empty)))
  | inl (small, inr at) ↦ elim (Bool-cases (p.size == 0)) [
    | inl size0 ↦
        rw (small, size0) (ap some (sym (length0 bytes (ground (arith, size0, v.counted)))))
    | inr more ↦ rw (small, more, at) (ap some (take_all p.size bytes (omega (arith, v.counted))))
  ]
]

delete_live :
    (a : ℕ) (blocks : List (ℕ × List ℕ)) (bytes : List ℕ)
    → block_at a blocks ≡ some bytes
    → (left : List (ℕ × List ℕ)) × (delete a blocks ≡ some left)
      × (suc (length left) ≡ length blocks)
      × ((b : ℕ) → b ≢ a → block_at b left ≡ block_at b blocks)
delete_live a [] bytes e = absurd (ground (arith, e))
delete_live a ((c, x) ∷ blocks) bytes e = elim (Bool-cases (c == a)) [
  | inl here ↦ (blocks, rw here refl, refl, λ b other. ground (arith, other, here))
  | inr there ↦
      let (left, d, n, same) = delete_live a blocks bytes (ground (arith, there, e)) in
      (
        (c, x) ∷ left,
        rw (there, d) refl,
        ap suc n,
        λ b other. elim (Bool-cases (c == b)) [
          | inl this ↦ rw this refl
          | inr that ↦ rw that (same b other)
        ],
      )
]

module _ (h : Heap) (p : SmallPayload) (old : List ℕ) (v : Holds h p old) where
  -- Freeing what a payload owns is defined, and touches no other block.
  record Freed : Type 0 where
    heap : Heap
    payload : SmallPayload
    runs : free_heap h p ≡ some (heap, payload)
    fewer : length heap.blocks + owned p ≡ length h.blocks
    next : heap.next ≡ h.next
    others : (a : ℕ) → p.storage ≢ heap_data (some a) → block_at a heap.blocks ≡ block_at a h.blocks

  free_heap-Freed : Freed
  unfolding free_heap
  free_heap-Freed = elim v.kept [
    | inl (small, _) ↦ record {
      heap = h;
      payload = p;
      runs = rw (free_heap, small) refl;
      fewer = rw small (omega arith);
      next = refl;
      others = λ a other. refl;
    }
    | inr (large, (a, (at, live))) ↦
        let (left, d, n, same) = delete_live a h.blocks old live in
        record {
          heap = record h { blocks = left };
          payload = record p { storage = heap_data none };
          runs = simp (free_heap, large, at, d);
          fewer = rw large (omega (arith, n));
          next = refl;
          others = λ b other. same b (λ e. other (at ∙ ap (λ c. heap_data (some c)) (sym e)));
        }
  ]

  -- A payload that stands for some bytes is assigned others: that is defined, the payload then stands for
  -- the new bytes, the heap has one block more or less where the payload's own block came or went, and
  -- no block of another payload changes.
  pub assign-Holds :
      (capacity : ℕ) (bytes : List ℕ)
      → (g : Heap) × (q : SmallPayload) × (assign capacity bytes h p ≡ some (g, q))
        × Holds g q bytes
        × (length g.blocks + owned p ≡ length h.blocks + owned q)
        × ((a : ℕ)
            → a < h.next
            → p.storage ≢ heap_data (some a)
            → block_at a g.blocks ≡ block_at a h.blocks)
  unfolding assign
  assign-Holds capacity bytes =
      let f = free_heap-Freed in
      elim (Bool-cases (leb (length bytes) capacity)) [
        | inl fits ↦ (
          f.heap,
          record {
            size = length bytes;
            is_small = true;
            storage = if length bytes == 0 then f.payload.storage else inline_data bytes;
          },
          rw (assign, f.runs, fits) refl,
          record {
            counted = refl;
            kept = inl (
              refl,
              elim (Bool-cases (length bytes == 0)) [
                | inl empty ↦ inl (ground (arith, empty))
                | inr more ↦ inr (rw more refl)
              ],
            );
          },
          omega (arith, f.fewer),
          λ a below other. f.others a other,
        )
        | inr large ↦
            let same : (f.heap.next == f.heap.next) ≡ true = ground arith in
            let own : block_at f.heap.next ((f.heap.next, bytes) ∷ f.heap.blocks) ≡ some bytes =
              rw same refl in
            (
              record { next = f.heap.next + 1; blocks = (f.heap.next, bytes) ∷ f.heap.blocks },
              record {
                size = length bytes;
                is_small = false;
                storage = heap_data (some f.heap.next);
              },
              rw (assign, f.runs, large) refl,
              record { counted = refl; kept = inr (refl, (f.heap.next, (refl, own))) },
              omega (arith, f.fewer),
              λ a below other.
                  let apart : (f.heap.next == a) ≡ false = ground (arith, f.next, below) in
                  rw apart (f.others a other),
            )
      ]

  -- A payload is moved into another object, whose own bytes are given up: that is defined, the target then
  -- stands for the bytes, the source for them still, or for none where they were on the heap, and no block
  -- is lost or freed twice: the blocks that are left are as many more as the two payloads own more.
  pub move_assign-Holds :
      (other : SmallPayload) (bytes : List ℕ)
      → Holds h other bytes
      → ((a : ℕ) → other.storage ≡ heap_data (some a) → p.storage ≢ heap_data (some a))
      → (g : Heap) × (q o : SmallPayload) × (rest : List ℕ) × (move_assign h p other
          ≡ some (g, (q, o)))
        × Holds g q bytes
        × Holds g o rest
        × ((rest ≡ bytes) ⊎ (rest ≡ []))
        × (length g.blocks + (owned p + owned other) ≡ length h.blocks + (owned q + owned o))
  unfolding move_assign
  move_assign-Holds other bytes w apart =
      let f = free_heap-Freed in
      elim w.kept [
        | inr (large, (a, (at, live))) ↦ (
          f.heap,
          record { size = other.size; is_small = false; storage = heap_data (some a) },
          moved_from,
          [],
          simp (move_assign, f.runs, large, at),
          record {
            counted = w.counted;
            kept = inr (refl, (a, (refl, f.others a (apart a at) ∙ live)));
          },
          record { counted = refl; kept = inl (refl, inl refl) },
          inr refl,
          rw large (omega (arith, f.fewer)),
        )
        | inl (small, inl empty) ↦ (
          f.heap,
          record { size = 0; is_small = true; storage = f.payload.storage },
          other,
          bytes,
          (let size0 : (other.size == 0) ≡ true = ground (arith, w.counted, empty) in
              simp (move_assign, f.runs, small, size0)),
          record { counted = sym empty; kept = inl (refl, inl empty) },
          record { counted = w.counted; kept = inl (small, inl empty) },
          inl refl,
          rw small (omega (arith, f.fewer)),
        )
        | inl (small, inr at) ↦ elim (Bool-cases (other.size == 0)) [
          | inl size0 ↦
              let empty : length bytes ≡ 0 = ground (arith, size0, w.counted) in
              (
                f.heap,
                record { size = 0; is_small = true; storage = f.payload.storage },
                other,
                bytes,
                simp (move_assign, f.runs, small, size0),
                record { counted = sym empty; kept = inl (refl, inl empty) },
                record { counted = w.counted; kept = inl (small, inr at) },
                inl refl,
                rw small (omega (arith, f.fewer)),
              )
          | inr more ↦
              let whole : take other.size bytes ≡ bytes =
                take_all other.size bytes (omega (arith, w.counted)) in
              (
                f.heap,
                record {
                  size = other.size;
                  is_small = true;
                  storage = inline_data (take other.size bytes);
                },
                other,
                bytes,
                simp (move_assign, f.runs, small, more, at),
                record { counted = w.counted; kept = inl (refl, inr (ap inline_data whole)) },
                record { counted = w.counted; kept = inl (small, inr at) },
                inl refl,
                rw small (omega (arith, f.fewer)),
              )
        ]
      ]
