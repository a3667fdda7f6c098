-- ===== src/Storage/Index/Load.antt =====
-- Loading an index gives back the entries that were written.
use fell.Base.{
  ℕ, ◌*◌, ◌/◌, ◌^◌, ◌<◌, ◌≡◌, refl, sym, ap, ap₂, ◌∙◌, List, [], ◌∷◌, ◌++◌, some, length, All, take,
  drop, length-append, take-append_self, drop-append_self, append_assoc, arith,
}
use fell.Wire.{read_be64, write_be64}
use fell.Storage.{IndexEntry}
use fell.Storage.Format.{index_entry_bytes}
use fell.Storage.Index.{decode_entry, decode_entries, load}

pub record IsEntry (e : IndexEntry) : Type 0 where
  pub offset_u64 : e.offset < 2 ^ 64
  pub position_u64 : e.file_position < 2 ^ 64

-- The bytes of an index file that holds these entries.
abbrev pub index_of : List IndexEntry → List ℕ
index_of [] = []
index_of (e ∷ es) = index_entry_bytes e ++ index_of es

length-entry : (e : IndexEntry) → length (index_entry_bytes e) ≡ 16
unfolding index_entry_bytes write_be64
length-entry e = refl

length-index_of : (es : List IndexEntry) → length (index_of es) ≡ 16 * length es
length-index_of [] = refl
length-index_of (e ∷ es) =
    omega
      (arith, length-append (index_entry_bytes e) (index_of es), length-entry e, length-index_of es)

decode_entry-bytes : (e : IndexEntry) → IsEntry e → decode_entry (index_entry_bytes e) ≡ e
unfolding decode_entry index_entry_bytes read_be64 write_be64
decode_entry-bytes e v = ground (arith, v.offset_u64, v.position_u64)

decode_entries-index_of :
    (es : List IndexEntry) (t : List ℕ)
    → All IsEntry es
    → decode_entries (length es) (index_of es ++ t) ≡ es
unfolding decode_entries
decode_entries-index_of [] t v = refl
decode_entries-index_of (e ∷ es) t (ve, v) =
    ap₂ ◌∷◌
      (ap decode_entry
          (ap (take 16) whole ∙ take-append_self 16 _ (index_of es ++ t) (sym (length-entry e)))
        ∙ decode_entry-bytes e ve)
      (ap (decode_entries (length es))
          (ap (drop 16) whole ∙ drop-append_self 16 _ (index_of es ++ t) (sym (length-entry e)))
        ∙ decode_entries-index_of es t v)
  where
    whole : index_of (e ∷ es) ++ t ≡ index_entry_bytes e ++ (index_of es ++ t)
    whole = append_assoc (index_entry_bytes e) (index_of es) t

-- Entries written one after the other, with a torn entry of less than sixteen bytes behind them or
-- none, are loaded as they were written.
pub load-index_of :
    (es : List IndexEntry) (t : List ℕ)
    → All IsEntry es
    → length t < 16
    → load (some (index_of es ++ t)) ≡ es
unfolding load
load-index_of es t v short =
    ap (λ n. decode_entries n (index_of es ++ t)) {x = length (index_of es ++ t) / 16}
      {y = length es} (omega (arith, length-append (index_of es) t, length-index_of es))
    ∙ decode_entries-index_of es t v
