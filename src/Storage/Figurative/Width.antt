-- ===== src/Storage/Figurative/Width.antt =====
-- The characters that a figurative constant of engine/transformation/figurative.py supplies.
use cobol_java_transformatio.Common.{
  ℕ, zero, suc, ◌+◌, ◌*◌, ◌/◌, ◌≤◌, ◌<◌, ◌≡◌, refl, inl, inr, Option, some, [], ◌∷◌, ◌++◌, arith,
  length, ◌==◌, Bool-cases,
}
use native.Mathlib.Nat.{div-add-mod', mod-lt}
use cobol_java_transformatio.Common.Bytes.{Bytes, take}
use cobol_java_transformatio.Storage.Figurative.{
  Kind, zero_constant, spaces, quotes, low_value, high_value, all, repeat, fill_of, repeated_to,
  characters, figurative_fill_char, figurative_to_width,
}

length-append : (xs ys : Bytes) → length (xs ++ ys) ≡ length xs + length ys
length-append [] ys = omega arith
length-append (x ∷ xs) ys = omega (arith, length-append xs ys)

length-repeat : (n : ℕ) (s : Bytes) → length (repeat n s) ≡ n * length s
unfolding repeat
length-repeat zero s = grind arith
length-repeat (suc n) s = grind (arith, length-repeat n s, length-append s (repeat n s))

pub length-take : (n : ℕ) (s : Bytes) → n ≤ length s → length (take n s) ≡ n
length-take zero s h = refl
length-take (suc n) [] h = absurd (omega arith)
length-take (suc n) (c ∷ s) h = omega (arith, length-take n s (omega arith))

enough_copies : (w l : ℕ) → 0 < l → w ≤ (w / l + 1) * l
enough_copies w l h = grind (arith, div-add-mod' w l, mod-lt w h)

repeated_to-length : (w : ℕ) (p : Bytes) {s : Bytes} → repeated_to w p ≡ some s → length s ≡ w
unfolding repeated_to
repeated_to-length w [] e = cc
repeated_to-length w (c ∷ p) e = ground (
  arith,
  length-take w (repeat (w / length (c ∷ p) + 1) (c ∷ p)),
  length-repeat (w / length (c ∷ p) + 1) (c ∷ p),
  enough_copies w (length (c ∷ p)) (omega arith),
)

filled :
    (w c : ℕ) {s : Bytes}
    → ◌≡◌ {A = Option Bytes} (some (repeat w (c ∷ []))) (some s)
    → length s ≡ w
filled w c e = ground (arith, length-repeat w (c ∷ []))

-- A figurative constant fills its receiver: whatever text it supplies for a width has exactly that
-- many characters.
pub figurative_to_width-length :
    (kind : Kind) (fill : Option Bytes) (width : ℕ) {s : Bytes}
    → figurative_to_width kind fill width ≡ some s
    → length s ≡ width
unfolding figurative_to_width characters figurative_fill_char
figurative_to_width-length kind fill width {s} e = elim (Bool-cases (width == 0)) [
  | inl z ↦ absurd (ground arith)
  | inr n ↦ by_kind kind (rw n at e)
]
  where
    by_kind : (k : Kind) → characters k fill width ≡ some s → length s ≡ width
    by_kind all h = repeated_to-length width (fill_of fill) h
    by_kind zero_constant h = filled width 48 h
    by_kind spaces h = filled width 32 h
    by_kind quotes h = filled width 34 h
    by_kind low_value h = filled width 0 h
    by_kind high_value h = filled width 255 h
