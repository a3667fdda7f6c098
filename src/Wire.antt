-- ===== src/Wire.antt =====
-- Big-endian integers in byte buffers: the read_be and write_be helpers of
-- broker/request_handler.cpp and the byte order conversions of platform/include/platform/endian.hpp.
-- A buffer is a list of bytes, a pointer into it is a position, and a shift of a byte into its own
-- field is a product, so that `|` of the disjoint fields is `+`.
use fell.Base.{
  ℕ, zero, suc, All, ◌+◌, ◌*◌, ◌/◌, ◌%◌, ◌^◌, ◌≤◌, ◌<◌, ◌≡◌, refl, List, [], ◌∷◌, ◌++◌, get_or,
  length, take, get_or-append_left, arith,
}

abbrev pub IsByte : ℕ → Type 0
IsByte b = b < 256

-- `p[i]`
abbrev pub byte_at : List ℕ → ℕ → ℕ
byte_at p i = get_or p i 0

pub byte_at-IsByte : (p : List ℕ) (i : ℕ) → All IsByte p → IsByte (byte_at p i)
byte_at-IsByte [] i h = omega arith
byte_at-IsByte (x ∷ p) zero h = h.0
byte_at-IsByte (x ∷ p) (suc i) h = byte_at-IsByte p i h.1

unfoldable pub read_be16 : List ℕ → ℕ
read_be16 p = byte_at p 0 * 2 ^ 8 + byte_at p 1

unfoldable pub read_be32 : List ℕ → ℕ
read_be32 p = byte_at p 0 * 2 ^ 24 + byte_at p 1 * 2 ^ 16 + byte_at p 2 * 2 ^ 8 + byte_at p 3

unfoldable pub read_be64 : List ℕ → ℕ
read_be64 p =
    byte_at p 0 * 2 ^ 56
    + byte_at p 1 * 2 ^ 48
    + byte_at p 2 * 2 ^ 40
    + byte_at p 3 * 2 ^ 32
    + byte_at p 4 * 2 ^ 24
    + byte_at p 5 * 2 ^ 16
    + byte_at p 6 * 2 ^ 8
    + byte_at p 7

unfoldable pub write_be16 : ℕ → List ℕ
write_be16 v = v / 2 ^ 8 % 256 ∷ v % 256 ∷ []

unfoldable pub write_be32 : ℕ → List ℕ
write_be32 v = (v / 2 ^ 24 % 256) ∷ (v / 2 ^ 16 % 256) ∷ (v / 2 ^ 8 % 256) ∷ (v % 256) ∷ []

unfoldable pub write_be64 : ℕ → List ℕ
write_be64 v =
    (v / 2 ^ 56 % 256)
    ∷ (v / 2 ^ 48 % 256)
    ∷ (v / 2 ^ 40 % 256)
    ∷ (v / 2 ^ 32 % 256)
    ∷ (v / 2 ^ 24 % 256)
    ∷ (v / 2 ^ 16 % 256)
    ∷ (v / 2 ^ 8 % 256)
    ∷ (v % 256)
    ∷ []

pub read_be16-write_be16 :
    (v : ℕ) (rest : List ℕ) → v < 2 ^ 16 → read_be16 (write_be16 v ++ rest) ≡ v
unfolding read_be16 write_be16
read_be16-write_be16 v rest h = omega arith

pub read_be32-write_be32 :
    (v : ℕ) (rest : List ℕ) → v < 2 ^ 32 → read_be32 (write_be32 v ++ rest) ≡ v
unfolding read_be32 write_be32
read_be32-write_be32 v rest h = omega arith

pub read_be64-write_be64 :
    (v : ℕ) (rest : List ℕ) → v < 2 ^ 64 → read_be64 (write_be64 v ++ rest) ≡ v
unfolding read_be64 write_be64
read_be64-write_be64 v rest h = omega arith

pub length-write_be32 : (v : ℕ) → length (write_be32 v) ≡ 4
unfolding write_be32
length-write_be32 v = refl

pub length-write_be64 : (v : ℕ) → length (write_be64 v) ≡ 8
unfolding write_be64
length-write_be64 v = refl

-- A read looks at its own bytes only.
pub read_be32-append : (p q : List ℕ) → 4 ≤ length p → read_be32 (p ++ q) ≡ read_be32 p
unfolding read_be32
read_be32-append p q h = rw (
  get_or-append_left p q 0 0 (omega arith),
  get_or-append_left p q 1 0 (omega arith),
  get_or-append_left p q 2 0 (omega arith),
  get_or-append_left p q 3 0 (omega arith),
)

pub read_be64-append : (p q : List ℕ) → 8 ≤ length p → read_be64 (p ++ q) ≡ read_be64 p
unfolding read_be64
read_be64-append p q h = rw (
  get_or-append_left p q 0 0 (omega arith),
  get_or-append_left p q 1 0 (omega arith),
  get_or-append_left p q 2 0 (omega arith),
  get_or-append_left p q 3 0 (omega arith),
  get_or-append_left p q 4 0 (omega arith),
  get_or-append_left p q 5 0 (omega arith),
  get_or-append_left p q 6 0 (omega arith),
  get_or-append_left p q 7 0 (omega arith),
)

pub write_be32-read_be32 :
    (a b c d : ℕ) (rest : List ℕ)
    → IsByte a
    → IsByte b
    → IsByte c
    → IsByte d
    → write_be32 (read_be32 (a ∷ b ∷ c ∷ d ∷ rest)) ≡ a ∷ b ∷ c ∷ d ∷ []
unfolding read_be32 write_be32
write_be32-read_be32 a b c d rest ha hb hc hd = ground arith

pub read_be32-lt : (p : List ℕ) → All IsByte p → read_be32 p < 2 ^ 32
unfolding read_be32
read_be32-lt p h =
    omega (
      arith,
      byte_at-IsByte p 0 h,
      byte_at-IsByte p 1 h,
      byte_at-IsByte p 2 h,
      byte_at-IsByte p 3 h,
    )

pub write_be32-read_be32-take :
    (p : List ℕ) → 4 ≤ length p → All IsByte p → write_be32 (read_be32 p) ≡ take 4 p
write_be32-read_be32-take [] h b = absurd (omega arith)
write_be32-read_be32-take (x ∷ []) h b = absurd (omega arith)
write_be32-read_be32-take (x ∷ y ∷ []) h b = absurd (omega arith)
write_be32-read_be32-take (x ∷ y ∷ z ∷ []) h b = absurd (omega arith)
write_be32-read_be32-take (x ∷ y ∷ z ∷ w ∷ p) h (hx, (hy, (hz, (hw, hp)))) =
    write_be32-read_be32 x y z w p hx hy hz hw

pub write_be64-read_be64-take :
    (p : List ℕ) → 8 ≤ length p → All IsByte p → write_be64 (read_be64 p) ≡ take 8 p
unfolding read_be64 write_be64
write_be64-read_be64-take [] h b = absurd (omega arith)
write_be64-read_be64-take (x₀ ∷ []) h b = absurd (omega arith)
write_be64-read_be64-take (x₀ ∷ x₁ ∷ []) h b = absurd (omega arith)
write_be64-read_be64-take (x₀ ∷ x₁ ∷ x₂ ∷ []) h b = absurd (omega arith)
write_be64-read_be64-take (x₀ ∷ x₁ ∷ x₂ ∷ x₃ ∷ []) h b = absurd (omega arith)
write_be64-read_be64-take (x₀ ∷ x₁ ∷ x₂ ∷ x₃ ∷ x₄ ∷ []) h b = absurd (omega arith)
write_be64-read_be64-take (x₀ ∷ x₁ ∷ x₂ ∷ x₃ ∷ x₄ ∷ x₅ ∷ []) h b = absurd (omega arith)
write_be64-read_be64-take (x₀ ∷ x₁ ∷ x₂ ∷ x₃ ∷ x₄ ∷ x₅ ∷ x₆ ∷ []) h b = absurd (omega arith)
write_be64-read_be64-take (x₀ ∷ x₁ ∷ x₂ ∷ x₃ ∷ x₄ ∷ x₅ ∷ x₆ ∷ x₇ ∷ p) h
      (h₀, (h₁, (h₂, (h₃, (h₄, (h₅, (h₆, (h₇, hp)))))))) =
    ground arith

pub read_be64-lt : (p : List ℕ) → All IsByte p → read_be64 p < 2 ^ 64
unfolding read_be64
read_be64-lt p h = omega (
  arith,
  byte_at-IsByte p 0 h,
  byte_at-IsByte p 1 h,
  byte_at-IsByte p 2 h,
  byte_at-IsByte p 3 h,
  byte_at-IsByte p 4 h,
  byte_at-IsByte p 5 h,
  byte_at-IsByte p 6 h,
  byte_at-IsByte p 7 h,
)
