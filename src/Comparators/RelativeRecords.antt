-- ===== src/Comparators/RelativeRecords.antt =====
-- `gnucobol_relative_records` of engine/comparators/indexed_records.py: the live slots of a RELATIVE
-- file, whose record length is inferred from the image.
pub mod Slots
pub mod Exact
use cobol_java_transformatio.Common.{
  ℕ, zero, suc, ◌+◌, ◌-◌, ◌/◌, ◌%◌, Bool, true, false, not, ◌&&◌, ◌||◌, List, [], ◌∷◌, ◌++◌, any,
  length, is_empty, ◌==◌, if◌then◌else◌, Result, ok, err, ◌>>=◌,
}
use cobol_java_transformatio.Common.Bytes.{Bytes, take, drop}
use cobol_java_transformatio.Comparators.IndexedRecords.{Failure, little_endian}

-- What inferring the length can raise.
pub data Refusal : Type 0 where
  reading : Failure → Refusal
  no_layout several_layouts : Refusal

-- The sizes of so many slots: `[struct.unpack_from("<Q", image, at)[0] for at in range(0, len(image), slot)]`
unfoldable pub read_sizes : ℕ → ℕ → Bytes → Result Failure (List ℕ)
read_sizes zero slot image = ok []
read_sizes (suc n) slot image = do
  size ← little_endian 8 image
  rest ← read_sizes n slot (drop slot image)
  ok (size ∷ rest)

-- `all(size in (0, length) for size in sizes) and length in sizes`
unfoldable pub all_sizes : ℕ → List ℕ → Bool
all_sizes len [] = true
all_sizes len (size ∷ sizes) = (size == 0 || size == len) && all_sizes len sizes

unfoldable pub is_layout : ℕ → List ℕ → Bool
is_layout len sizes = all_sizes len sizes && any (λ size. size == len) sizes

abbrev pub Layout : Type 0
Layout = ℕ × List ℕ

unfoldable pub layout_of_length : Bytes → ℕ → Result Failure (List Layout)
layout_of_length image len =
    if not (length image % (8 + len) == 0)
    then ok []
    else (read_sizes (length image / (8 + len)) (8 + len) image >>= λ sizes.
        ok (if is_layout len sizes then (8 + len, sizes) ∷ [] else []))

-- `for length in range(len, len + n)`
unfoldable pub layouts_from : Bytes → ℕ → ℕ → Result Failure (List Layout)
layouts_from image zero len = ok []
layouts_from image (suc n) len = do
  found ← layout_of_length image len
  rest ← layouts_from image n (suc len)
  ok (found ++ rest)

-- The live slots, numbered from `rrn`.
unfoldable pub live_slots : ℕ → ℕ → List ℕ → Bytes → List (ℕ × Bytes)
live_slots slot rrn [] image = []
live_slots slot rrn (size ∷ sizes) image =
    let rest = live_slots slot (suc rrn) sizes (drop slot image) in
    if size == 0 then rest else (rrn, take size (drop 8 image)) ∷ rest

unfoldable pub by_layout : Bytes → List Layout → Result Refusal (List (ℕ × Bytes))
by_layout image [] = err no_layout
by_layout image ((slot, sizes) ∷ []) = ok (live_slots slot 1 sizes image)
by_layout image (x ∷ y ∷ layouts) = err several_layouts

abbrev pub refused : {A : Type 0} → Result Failure A → Result Refusal A
refused (ok a) = ok a
refused (err e) = err (reading e)

unfoldable pub gnucobol_relative_records : Bytes → Result Refusal (List (ℕ × Bytes))
gnucobol_relative_records image =
    if is_empty image
    then ok []
    else (refused (layouts_from image (length image - 8) 1) >>= λ layouts. by_layout image layouts)
