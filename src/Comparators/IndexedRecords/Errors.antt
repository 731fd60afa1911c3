-- ===== src/Comparators/IndexedRecords/Errors.antt =====
-- The calls below `walk` in engine/comparators/indexed_records.py raise what the code raises, and need
-- no fuel.
use cobol_java_transformatio.Common.{
  ℕ, zero, suc, ◌+◌, ◌≡◌, ◌≢◌, refl, inl, inr, Bool, true, false, List, [], ◌∷◌, arith, Bool-cases,
  Result, ok, err, ◌>>=◌, ◌>>◌, raise_if,
}
use cobol_java_transformatio.Common.Bytes.{Bytes}
use cobol_java_transformatio.Comparators.IndexedRecords.{
  Failure, Unreadable, unreadable, out_of_fuel, little_endian, u16, u32, byte_at,
  certified_page_size, page, read_offsets, items, plain_item, leaf_item, leaf_records, is_deleted,
}

abbrev pub Stops : {A : Type 0} → Result Failure A → Type 0
Stops r = r ≢ err out_of_fuel

pub >>=-Stops :
    {A B : Type 0} (m : Result Failure A) (f : A → Result Failure B)
    → Stops m
    → ((a : A) → m ≡ ok a → Stops (f a))
    → Stops (m >>= f)
>>=-Stops (ok a) f h k = k a refl
>>=-Stops (err e) f h k = λ q. h (ground arith)

pub ok-Stops : {A : Type 0} (a : A) → Stops (ok a)
ok-Stops a q = absurd (ground arith)

-- `if c: raise UnreadableImage(u)` before the rest
pub guarded :
    {A : Type 0} (c : Bool) (u : Unreadable) (r : Result Failure A)
    → Stops r
    → Stops (raise_if c (unreadable u) >> r)
guarded true u r h = λ q. absurd (ground arith)
guarded false u r h = h

pub little_endian-Stops : (n : ℕ) (b : Bytes) → Stops (little_endian n b)
unfolding little_endian
little_endian-Stops zero b = ok-Stops _
little_endian-Stops (suc n) [] = λ q. absurd (ground arith)
little_endian-Stops (suc n) (x ∷ b) =
    >>=-Stops (little_endian n b) _ (little_endian-Stops n b) (λ a e. ok-Stops _)

pub byte_at-Stops : (b : Bytes) (n : ℕ) → Stops (byte_at b n)
unfolding byte_at
byte_at-Stops b n = ground arith

read_offsets-Stops : (content : Bytes) (n i : ℕ) → Stops (read_offsets content n i)
unfolding read_offsets u16
read_offsets-Stops content zero i = ok-Stops _
read_offsets-Stops content (suc n) i =
    >>=-Stops _ _ (little_endian-Stops 2 _)
      (λ a e. >>=-Stops _ _ (read_offsets-Stops content n (suc i)) (λ b e'. ok-Stops _))

pub items-Stops : (size : ℕ) (content : Bytes) → Stops (items size content)
unfolding items u16
items-Stops size content =
    >>=-Stops _ _ (little_endian-Stops 2 _)
      (λ a e. >>=-Stops _ _ (read_offsets-Stops content a 0) (λ b e'. guarded _ _ _ (ok-Stops _)))

plain_item-Stops :
    (size : ℕ) (content : Bytes) (k d at : ℕ) → Stops (plain_item size content k d at)
unfolding plain_item u16
plain_item-Stops size content k d at =
    guarded _ _ _ (>>=-Stops _ _ (little_endian-Stops 2 _) (λ a e'. guarded _ _ _ (ok-Stops _)))

leaf_item-Stops : (size : ℕ) (content : Bytes) (k d : ℕ) → Stops (leaf_item size content k d)
unfolding leaf_item
leaf_item-Stops size content k d = >>=-Stops _ _ (byte_at-Stops content (k + 2)) (λ a e.
    >>=-Stops _ _ (byte_at-Stops content (d + 2)) (λ b e'. elim (Bool-cases (is_deleted a b)) [
      | inl h ↦ rw h (ok-Stops _)
      | inr h ↦ rw h (plain_item-Stops size content a b d)
    ]))

pub leaf_records-Stops :
    (size : ℕ) (content : Bytes) (offsets : List ℕ) → Stops (leaf_records size content offsets)
unfolding leaf_records
leaf_records-Stops size content [] = ok-Stops _
leaf_records-Stops size content (k ∷ []) = ok-Stops _
leaf_records-Stops size content (k ∷ d ∷ offsets) =
    >>=-Stops _ _ (leaf_item-Stops size content k d)
      (λ a e. >>=-Stops _ _ (leaf_records-Stops size content offsets) (λ b e'. ok-Stops _))

pub page-Stops : (image : Bytes) (size n : ℕ) → Stops (page image size n)
unfolding page u32
page-Stops image size n =
    guarded _ _ _ (>>=-Stops _ _ (little_endian-Stops 4 _) (λ a e'. guarded _ _ _ (ok-Stops _)))

pub certified_page_size-Stops : (image : Bytes) → Stops (certified_page_size image)
unfolding certified_page_size u32
certified_page_size-Stops image = guarded _ _ _ (
    >>=-Stops _ _ (little_endian-Stops 4 _) (λ magic e. guarded _ _ _ (
      >>=-Stops _ _ (little_endian-Stops 4 _) (λ version e. guarded _ _ _ (
        >>=-Stops _ _ (little_endian-Stops 4 _) (λ size e. guarded _ _ _ (
          >>=-Stops _ _ (byte_at-Stops image 24) (λ a e.
            guarded _ _ _
              (>>=-Stops _ _ (byte_at-Stops image 25) (λ a e. guarded _ _ _ (ok-Stops _)))))))))))
