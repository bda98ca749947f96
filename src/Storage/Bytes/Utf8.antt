-- ===== src/Storage/Bytes/Utf8.antt =====
-- When bytes are valid UTF-8.
use little_key_value_db.Prelude.{
  ℕ, ◌≤◌, ◌<◌, ◌≡◌, refl, [], ◌∷◌, ◌++◌, true, false, arith, All, none, some,
}
use little_key_value_db.Storage.Bytes.{Bytes, utf8_lead, utf8_continues, is_utf8}

abbrev pub IsAscii : Bytes → Type 0
IsAscii bs = All (λ b. b < 128) bs

lead_ascii : (b : ℕ) → b < 128 → utf8_lead b ≡ some []
unfolding utf8_lead
lead_ascii b h = ground arith

lead_stray : (b : ℕ) → 128 ≤ b → b < 0xc2 → utf8_lead b ≡ none
unfolding utf8_lead
lead_stray b h k = ground arith

continues-append :
    (xs ys : Bytes) → IsAscii xs → utf8_continues [] (xs ++ ys) ≡ utf8_continues [] ys
unfolding utf8_continues
continues-append [] ys a = refl
continues-append (x ∷ xs) ys a = rw (lead_ascii x a.0, utf8_continues) (continues-append xs ys a.1)

-- Bytes below 128 leave the validity of what follows unchanged.
pub is_utf8-append : (xs ys : Bytes) → IsAscii xs → is_utf8 (xs ++ ys) ≡ is_utf8 ys
unfolding is_utf8
is_utf8-append xs ys a = continues-append xs ys a

pub is_utf8_ascii : (xs : Bytes) → IsAscii xs → is_utf8 xs ≡ true
unfolding is_utf8 utf8_continues
is_utf8_ascii [] a = refl
is_utf8_ascii (x ∷ xs) a = rw (lead_ascii x a.0, utf8_continues) (is_utf8_ascii xs a.1)

-- A byte from 0x80 to 0xc1 cannot start a character.
pub is_utf8_stray : (b : ℕ) (ys : Bytes) → 128 ≤ b → b < 0xc2 → is_utf8 (b ∷ ys) ≡ false
unfolding is_utf8 utf8_continues
is_utf8_stray b ys h k = rw (lead_stray b h k, utf8_continues)

-- A byte from 0x80 on does not stand alone before a byte below 0x80.
pub is_utf8_cut : (b c : ℕ) (ys : Bytes) → 128 ≤ b → c < 128 → is_utf8 (b ∷ c ∷ ys) ≡ false
unfolding is_utf8 utf8_continues utf8_lead
is_utf8_cut b c ys h k = ground arith
