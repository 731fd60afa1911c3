-- ===== src/Comparators/IndexedRecords/Canonical.antt =====
-- `canonical_records` of engine/comparators/indexed_records.py: the text in which the records of both
-- sides are compared.
use cobol_java_transformatio.Common.{
  ℕ, ◌+◌, ◌/◌, ◌%◌, ◌<◌, ◌≡◌, ◌≢◌, refl, sym, ap, ◌∙◌, ◌&&◌, List, [], ◌∷◌, ◌++◌, map, arith,
  if◌then◌else◌, ltb, leb, append_assoc, All,
}
use cobol_java_transformatio.Common.Bytes.{Bytes}

-- a digit of `bytes.hex`
unfoldable pub hex_digit : ℕ → ℕ
hex_digit n = if ltb n 10 then 48 + n else 87 + n

unfoldable pub hex : Bytes → Bytes
hex [] = []
hex (b ∷ record_) = hex_digit (b / 16) ∷ hex_digit (b % 16) ∷ hex record_

-- `chr(b) if 32 <= b < 127 else "."`
unfoldable pub shown : ℕ → ℕ
shown b = if leb 32 b && ltb b 127 then b else 46

-- hex bytes, a tab, the readable bytes, a line break
unfoldable pub canonical_line : Bytes → Bytes
canonical_line record_ = hex record_ ++ 9 ∷ (map shown record_ ++ 10 ∷ [])

unfoldable pub canonical_records : List Bytes → Bytes
canonical_records [] = []
canonical_records (record_ ∷ records) = canonical_line record_ ++ canonical_records records

abbrev pub IsByte : ℕ → Type 0
IsByte b = b < 256

hex_digit-ne-tab : (n : ℕ) → hex_digit n ≢ 9
unfolding hex_digit
hex_digit-ne-tab n = ground arith

hex_digit_injective : (n m : ℕ) → n < 16 → m < 16 → hex_digit n ≡ hex_digit m → n ≡ m
unfolding hex_digit
hex_digit_injective n m h k e = ground arith

byte_injective :
    (b c : ℕ)
    → IsByte b
    → IsByte c
    → hex_digit (b / 16) ≡ hex_digit (c / 16)
    → hex_digit (b % 16) ≡ hex_digit (c % 16)
    → b ≡ c
byte_injective b c h k e f = omega (
  arith,
  hex_digit_injective (b / 16) (c / 16) (omega arith) (omega arith) e,
  hex_digit_injective (b % 16) (c % 16) (omega arith) (omega arith) f,
)

-- Where two such texts agree, so do the bytes and what stands behind the tab.
hex_injective :
    (r s x y : Bytes)
    → All IsByte r
    → All IsByte s
    → hex r ++ 9 ∷ x ≡ hex s ++ 9 ∷ y
    → (r ≡ s) × (x ≡ y)
unfolding hex
hex_injective [] [] x y h k e = (refl, ground arith)
hex_injective [] (c ∷ s) x y h k e = absurd (ground (arith, hex_digit-ne-tab (c / 16)))
hex_injective (b ∷ r) [] x y h k e = absurd (ground (arith, hex_digit-ne-tab (b / 16)))
hex_injective (b ∷ r) (c ∷ s) x y h k e =
    let rest = hex_injective r s x y h.1 k.1 (ground arith) in
    let same = byte_injective b c h.0 k.0 (ground arith) (ground arith) in (ground arith, rest.1)

append_cancel : (p x y : Bytes) → p ++ x ≡ p ++ y → x ≡ y
append_cancel [] x y e = e
append_cancel (a ∷ p) x y e = append_cancel p x y (ground arith)

line_append :
    (r : Bytes) (rest : Bytes) → canonical_line r ++ rest ≡ hex r ++ 9 ∷ (map shown r ++ 10 ∷ rest)
unfolding canonical_line
line_append r rest =
    append_assoc (hex r) (9 ∷ (map shown r ++ 10 ∷ [])) rest
    ∙ ap (λ (t : Bytes). hex r ++ 9 ∷ t) (append_assoc (map shown r) (10 ∷ []) rest)

line_ne_nil : (r rest : Bytes) → canonical_line r ++ rest ≢ []
unfolding canonical_line hex
line_ne_nil [] rest = λ e. cc
line_ne_nil (b ∷ r) rest = λ e. cc

-- Equal text means equal records: two lists of records, each a string of bytes, have the same
-- canonical text only where they are the same list.
pub canonical_records_injective :
    (rs ss : List Bytes)
    → All (All IsByte) rs
    → All (All IsByte) ss
    → canonical_records rs ≡ canonical_records ss
    → rs ≡ ss
unfolding canonical_records
canonical_records_injective [] [] h k e = refl
canonical_records_injective [] (s ∷ ss) h k e =
    absurd (line_ne_nil s (canonical_records ss) (sym e))
canonical_records_injective (r ∷ rs) [] h k e = absurd (line_ne_nil r (canonical_records rs) e)
canonical_records_injective (r ∷ rs) (s ∷ ss) h k e =
    let first =
      hex_injective r s (map shown r ++ 10 ∷ canonical_records rs)
        (map shown s ++ 10 ∷ canonical_records ss) h.0 k.0
        (sym (line_append r (canonical_records rs)) ∙ e ∙ line_append s (canonical_records ss)) in
    let rest : 10 ∷ canonical_records rs ≡ 10 ∷ canonical_records ss =
      append_cancel (map shown r) _ _
        (first.1 ∙ ap (λ (t : Bytes). map shown t ++ 10 ∷ canonical_records ss) (sym first.0)) in
    ground (arith, first.0, canonical_records_injective rs ss h.1 k.1 (ground arith))
