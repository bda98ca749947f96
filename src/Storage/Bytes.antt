-- ===== src/Storage/Bytes.antt =====
-- What the code takes from Rust's standard library about bytes: slices, little-endian words, the
-- order of byte vectors and the validity of UTF-8. `Key` and `Value` of src/storage/mod.rs are byte
-- vectors.
pub mod Words
pub mod Order
pub mod Utf8
use little_key_value_db.Prelude.{
  ℕ, zero, suc, ◌+◌, ◌*◌, ◌-◌, ◌/◌, ◌%◌, ◌<◌, compare, Ordering, lt, eq, gt, Bool, true, false,
  ◌&&◌, List, [], ◌∷◌, Option, none, some, ◌==◌, leb, ltb, if◌then◌else◌, take, drop, All,
}

abbrev pub Bytes : Type 0
Bytes = List ℕ

-- `pub type Key = Vec<u8>`
abbrev pub Key : Type 0
Key = Bytes

-- `pub type Value = Vec<u8>`
abbrev pub Value : Type 0
Value = Bytes

abbrev pub IsByte : ℕ → Type 0
IsByte b = b < 256

abbrev pub AreBytes : Bytes → Type 0
AreBytes bs = All IsByte bs

-- `&v[start..end]`
abbrev pub slice : Bytes → ℕ → ℕ → Bytes
slice v start end = take (end - start) (drop start v)

-- `to_le_bytes` of a word of that many bytes, and back
unfoldable pub to_le_bytes : ℕ → ℕ → Bytes
to_le_bytes zero v = []
to_le_bytes (suc n) v = (v % 256) ∷ to_le_bytes n (v / 256)

unfoldable pub from_le_bytes : Bytes → ℕ
from_le_bytes [] = 0
from_le_bytes (b ∷ bs) = b + 256 * from_le_bytes bs

-- `==` of byte vectors
unfoldable pub bytes_eq : Bytes → Bytes → Bool
bytes_eq [] [] = true
bytes_eq [] (y ∷ ys) = false
bytes_eq (x ∷ xs) [] = false
bytes_eq (x ∷ xs) (y ∷ ys) = x == y && bytes_eq xs ys

-- `cmp` of byte vectors
unfoldable pub bytes_cmp : Bytes → Bytes → Ordering
bytes_cmp [] [] = eq
bytes_cmp [] (y ∷ ys) = lt
bytes_cmp (x ∷ xs) [] = gt
bytes_cmp (x ∷ xs) (y ∷ ys) = elim (compare x y) [ lt ↦ lt | gt ↦ gt | eq ↦ bytes_cmp xs ys ]

-- `<` on keys
abbrev pub is_less : Key → Key → Bool
is_less a b = elim (bytes_cmp a b) [ lt ↦ true | eq ↦ false | gt ↦ false ]

-- The ranges of the bytes that must follow a leading byte of UTF-8, or `none`.
unfoldable pub utf8_lead : ℕ → Option (List (ℕ × ℕ))
utf8_lead b =
    if ltb b 0x80
    then some []
    else if ltb b 0xc2
    then none
    else if ltb b 0xe0
    then some ((0x80, 0xbf) ∷ [])
    else if b == 0xe0
    then some ((0xa0, 0xbf) ∷ (0x80, 0xbf) ∷ [])
    else if b == 0xed
    then some ((0x80, 0x9f) ∷ (0x80, 0xbf) ∷ [])
    else if ltb b 0xf0
    then some ((0x80, 0xbf) ∷ (0x80, 0xbf) ∷ [])
    else if b == 0xf0
    then some ((0x90, 0xbf) ∷ (0x80, 0xbf) ∷ (0x80, 0xbf) ∷ [])
    else if ltb b 0xf4
    then some ((0x80, 0xbf) ∷ (0x80, 0xbf) ∷ (0x80, 0xbf) ∷ [])
    else if b == 0xf4
    then some ((0x80, 0x8f) ∷ (0x80, 0xbf) ∷ (0x80, 0xbf) ∷ [])
    else none

-- Whether `String::from_utf8` accepts the bytes, given the ranges of the bytes that must come next.
unfoldable pub utf8_continues : List (ℕ × ℕ) → Bytes → Bool
utf8_continues [] [] = true
utf8_continues (p ∷ ps) [] = false
utf8_continues [] (b ∷ bs) = elim (utf8_lead b) [ none ↦ false | some ps ↦ utf8_continues ps bs ]
utf8_continues ((lo, hi) ∷ ps) (b ∷ bs) = leb lo b && leb b hi && utf8_continues ps bs

unfoldable pub is_utf8 : Bytes → Bool
is_utf8 bs = utf8_continues [] bs
