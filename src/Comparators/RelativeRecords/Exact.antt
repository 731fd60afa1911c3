-- ===== src/Comparators/RelativeRecords/Exact.antt =====
-- Reading the image of a RELATIVE file against the file's slots.
use native.Mathlib.Nat.{mul-div_cancel, mul-mod_left}
use cobol_java_transformatio.Common.{
  ℕ, suc, ◌+◌, ◌-◌, ◌*◌, ◌<◌, ◌≡◌, refl, ap, sym, subst, inl, inr, ◌⊎◌, true, false, List, [], ◌∷◌,
  ◌++◌, map, any, arith, length, is_empty, ◌==◌, ==_iff, Bool-cases, ok, err, append_assoc, All,
  Any,
}
use cobol_java_transformatio.Common.Bytes.{Bytes, take, drop, length-append}
use cobol_java_transformatio.Comparators.IndexedRecords.{little_endian}
use cobol_java_transformatio.Comparators.RelativeRecords.{
  several_layouts, read_sizes, all_sizes, is_layout, Layout, layout_of_length, live_slots,
  by_layout, gnucobol_relative_records,
}
use cobol_java_transformatio.Comparators.RelativeRecords.Slots.{
  Slot, live, empty, area, size_of, le_bytes, capacity, encode, records_of, little_endian-le_bytes,
  length-le_bytes, drop-append, take-append, layouts_from-total,
}

abbrev pub IsLive : Slot → Type 0
IsLive (live b) = Unit
IsLive (empty b) = ⊥

module _ (len : ℕ) (positive : 0 < len) (small : len < capacity 8) where
  abbrev HasLength : Slot → Type 0
  HasLength s = length (area s) ≡ len

  size_cases : (s : Slot) → HasLength s → (size_of s ≡ 0) ⊎ (size_of s ≡ len)
  size_cases (live b) h = inr h
  size_cases (empty b) h = inl refl

  size_small : (s : Slot) → HasLength s → size_of s < capacity 8
  size_small s h = elim (size_cases s h) [
    | inl e ↦ omega (arith, e, positive, small)
    | inr e ↦ omega (arith, e, small)
  ]

  slot_length : (s : Slot) → HasLength s → length (le_bytes 8 (size_of s) ++ area s) ≡ 8 + len
  slot_length s h =
      omega
        (arith, length-append (le_bytes 8 (size_of s)) (area s), length-le_bytes 8 (size_of s), h)

  drop_slot :
      (s : Slot) (rest : Bytes)
      → HasLength s
      → drop (8 + len) (le_bytes 8 (size_of s) ++ area s ++ rest) ≡ rest
  drop_slot s rest h =
      drop-append (8 + len) (le_bytes 8 (size_of s) ++ area s) rest (slot_length s h)

  length-encode :
      (slots : List Slot) → All HasLength slots → length (encode slots) ≡ length slots * (8 + len)
  unfolding encode
  length-encode [] h = grind arith
  length-encode (s ∷ slots) h = grind (
    arith,
    slot_length s h.0,
    length-append (le_bytes 8 (size_of s) ++ area s) (encode slots),
    length-encode slots h.1,
  )

  first_size :
      (s : Slot) (rest : Bytes)
      → HasLength s
      → little_endian 8 (le_bytes 8 (size_of s) ++ area s ++ rest) ≡ ok (size_of s)
  first_size s rest h =
      rw (append_assoc (le_bytes 8 (size_of s)) (area s) rest)
        (little_endian-le_bytes 8 (size_of s) (area s ++ rest) (size_small s h))

  read_sizes-encode :
      (slots : List Slot)
      → All HasLength slots
      → read_sizes (length slots) (8 + len) (encode slots) ≡ ok (map size_of slots)
  unfolding read_sizes encode
  read_sizes-encode [] h = refl
  read_sizes-encode (s ∷ slots) h =
      rw (first_size s (encode slots) h.0)
        (rw (drop_slot s (encode slots) h.0) (rw (read_sizes-encode slots h.1) refl))

  first_area :
      (s : Slot) (rest : Bytes)
      → HasLength s
      → take len (drop 8 (le_bytes 8 (size_of s) ++ area s ++ rest)) ≡ area s
  first_area s rest h = rw (append_assoc (le_bytes 8 (size_of s)) (area s) rest) (
      rw (drop-append 8 (le_bytes 8 (size_of s)) (area s ++ rest) (length-le_bytes 8 (size_of s)))
        (take-append len (area s) rest h))

  live_size : (b : Bytes) → HasLength (live b) → (length b == 0) ≡ false
  live_size b h = elim (Bool-cases (length b == 0)) [
    | inl e ↦
        let z : length b ≡ 0 = (==_iff (length b) 0).0 e in absurd (omega (arith, z, h, positive))
    | inr e ↦ e
  ]

  live_slots-encode :
      (rrn : ℕ) (slots : List Slot)
      → All HasLength slots
      → live_slots (8 + len) rrn (map size_of slots) (encode slots) ≡ records_of rrn slots
  unfolding live_slots encode records_of
  live_slots-encode rrn [] h = refl
  live_slots-encode rrn (live b ∷ slots) h = rw (live_size b h.0) (
      rw (drop_slot (live b) (encode slots) h.0) (
        rw (live_slots-encode (suc rrn) slots h.1) (
          ap (λ c. (rrn, c) ∷ records_of (suc rrn) slots)
            (subst (λ n. take n (drop 8 (le_bytes 8 (length b) ++ b ++ encode slots)) ≡ b) (sym h.0)
              (first_area (live b) (encode slots) h.0)))))
  live_slots-encode rrn (empty b ∷ slots) h =
      rw (drop_slot (empty b) (encode slots) h.0) (live_slots-encode (suc rrn) slots h.1)

  all_sizes-size_of :
      (slots : List Slot) → All HasLength slots → all_sizes len (map size_of slots) ≡ true
  unfolding all_sizes
  all_sizes-size_of [] h = refl
  all_sizes-size_of (live b ∷ slots) h =
      ground (arith, all_sizes-size_of slots h.1, (==_iff (length b) len).1 h.0)
  all_sizes-size_of (empty b ∷ slots) h = all_sizes-size_of slots h.1

  any-size_of :
      (slots : List Slot)
      → All HasLength slots
      → Any IsLive slots
      → any (λ size. size == len) (map size_of slots) ≡ true
  any-size_of [] h m = absurd m
  any-size_of (s ∷ slots) h (inr m) = ground (arith, any-size_of slots h.1 m)
  any-size_of (live b ∷ slots) h (inl m) = ground (arith, (==_iff (length b) len).1 h.0)
  any-size_of (empty b ∷ slots) h (inl m) = absurd m

  is_layout-size_of :
      (slots : List Slot)
      → All HasLength slots
      → Any IsLive slots
      → is_layout len (map size_of slots) ≡ true
  unfolding is_layout
  is_layout-size_of slots h m = rw (all_sizes-size_of slots h) (any-size_of slots h m)

  layout_of_length-encode :
      (slots : List Slot)
      → All HasLength slots
      → Any IsLive slots
      → layout_of_length (encode slots) len ≡ ok ((8 + len, map size_of slots) ∷ [])
  unfolding layout_of_length
  layout_of_length-encode slots h m = rw (length-encode slots h) (
      rw (mul-mod_left (length slots) (8 + len)) (
        rw (let some : 0 < 8 + len = omega arith in mul-div_cancel (length slots) some)
          (rw (read_sizes-encode slots h) (rw (is_layout-size_of slots h m) refl))))

  chosen :
      (slots : List Slot) (ls : List Layout)
      → All HasLength slots
      → Any (λ y. (8 + len, map size_of slots) ≡ y) ls
      → (by_layout (encode slots) ls ≡ ok (records_of 1 slots))
        ⊎ (by_layout (encode slots) ls ≡ err several_layouts)
  unfolding by_layout
  chosen slots [] h m = absurd m
  chosen slots (x ∷ y ∷ ls) h m = inr refl
  chosen slots (x ∷ []) h (inr m) = absurd m
  chosen slots (x ∷ []) h (inl e) = inl (
      subst (λ (z : Layout). by_layout (encode slots) (z ∷ []) ≡ ok (records_of 1 slots)) e
        (ap (λ (r : List (ℕ × Bytes)). ok r) (live_slots-encode 1 slots h)))

  is_empty-encode : (slots : List Slot) → Any IsLive slots → is_empty (encode slots) ≡ false
  unfolding encode le_bytes
  is_empty-encode [] m = absurd m
  is_empty-encode (s ∷ slots) m = refl

  slot_count : (slots : List Slot) → Any IsLive slots → 0 < length slots
  slot_count [] m = absurd m
  slot_count (s ∷ slots) m = omega arith

  within_range :
      (slots : List Slot)
      → All HasLength slots
      → Any IsLive slots
      → len < 1 + (length (encode slots) - 8)
  within_range slots h m = grind (arith, length-encode slots h, slot_count slots m)

  -- Of a file whose record areas all have one length, from 1 up to what eight bytes count, and that
  -- has a live slot, the reader returns the live records under their relative record numbers, or it
  -- refuses the image because several layouts fit it: it never returns other records.
  pub gnucobol_relative_records-encode :
      (slots : List Slot)
      → All HasLength slots
      → Any IsLive slots
      → (gnucobol_relative_records (encode slots) ≡ ok (records_of 1 slots))
        ⊎ (gnucobol_relative_records (encode slots) ≡ err several_layouts)
  unfolding gnucobol_relative_records
  gnucobol_relative_records-encode slots h m =
      let (ls, e, within) = layouts_from-total (encode slots) (length (encode slots) - 8) 1 in
      let found =
        within len (8 + len, map size_of slots) positive (within_range slots h m)
          (layout_of_length-encode slots h m) in
      rw (is_empty-encode slots m) (rw e (chosen slots ls h found))
