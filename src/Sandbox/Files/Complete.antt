-- ===== src/Sandbox/Files/Complete.antt =====
-- Which of the files that a program left the result holds.
use cobol_java_transformatio.Common.{
  ◌+◌, ◌≡◌, ◌≢◌, ◌⊎◌, refl, ap, sym, ◌∙◌, subst, inl, inr, Bool, true, false, Option, none, some,
  List, [], ◌∷◌, length, ltb, Bool-cases, ok, ◌>>=◌, ◌>>◌, >>=-ok, raise_if, All,
}
use cobol_java_transformatio.Common.Bytes.{Bytes}
use cobol_java_transformatio.Common.Dict.{put, get?, get?-put_self, get?-put_other}
use cobol_java_transformatio.Sandbox.Files.{
  FilePath, max_file_bytes, max_total_bytes, Probe, total_exceeds, read_sandbox_file, Directory,
  walk_regular_files, Collected, take_file, as_posix, is_mounted, workspace_key, take_files, Place,
  take_place, collect_generated_files,
}
use cobol_java_transformatio.Sandbox.Files.Bounds.{IsReadable, read_sandbox_file-IsReadable}

-- A path of the list is skipped, or what was read of it is the entry of its key.
abbrev pub IsHeld :
    (FilePath → Bytes)
    → (FilePath → Bool)
    → (FilePath → Probe)
    → List (Bytes × Bytes)
    → FilePath
    → Type 0
IsHeld key skipped probe files p =
    (skipped p ≡ true)
    ⊎ ((content : Bytes) × IsReadable (probe p) max_file_bytes content
        × (get? (key p) files ≡ some content))

abbrev pub AreDistinct : (FilePath → Bytes) → List FilePath → Type 0
AreDistinct key [] = Unit
AreDistinct key (p ∷ ps) = All (λ q. key q ≢ key p) ps × AreDistinct key ps

take_file-get? :
    (key : Bytes) (probe : Probe) (c d : Collected)
    → take_file key probe c ≡ ok d
    → (content : Bytes) × IsReadable probe max_file_bytes content
      × (d.files ≡ put key content c.files)
unfolding take_file
take_file-get? key probe c d h =
    let (content, read, h1) =
      >>=-ok (read_sandbox_file probe max_file_bytes)
        (λ b.
          raise_if (ltb max_total_bytes (c.total + length b)) total_exceeds
          >> ok (record { total = c.total + length b; files = put key b c.files }))
        h in
    let (_, fits, h2) =
      >>=-ok (raise_if (ltb max_total_bytes (c.total + length content)) total_exceeds)
        (λ _. ok (record { total = c.total + length content; files = put key content c.files }))
        h1 in
    let e : (record { total = c.total + length content; files = put key content c.files }) ≡ d =
      cc h2 in
    (
      content,
      (read_sandbox_file-IsReadable probe max_file_bytes content).0 read,
      ap (λ (x : Collected). x.files) (sym e),
    )

module _ (key : FilePath → Bytes) (skipped : FilePath → Bool) (probe : FilePath → Probe) where
  -- An entry stays where no file of the list goes under its key.
  take_files-get? :
      (ps : List FilePath) (c d : Collected) (j : Bytes)
      → All (λ q. key q ≢ j) ps
      → take_files key skipped probe ps c ≡ ok d
      → get? j d.files ≡ get? j c.files
  unfolding take_files
  take_files-get? [] c d j other h =
      ap (λ (x : Collected). get? j x.files) (let e : c ≡ d = cc h in sym e)
  take_files-get? (p ∷ ps) c d j other h = elim (Bool-cases (skipped p)) [
    | inl e ↦ take_files-get? ps c d j other.1 (rw e at h)
    | inr e ↦
        let (m, first, rest) =
          >>=-ok (take_file (key p) (probe p) c) (λ m. take_files key skipped probe ps m)
            (rw e at h) in
        let (content, _, put_there) = take_file-get? (key p) (probe p) c m first in
        take_files-get? ps m d j other.1 rest
        ∙ ap (get? j) put_there
        ∙ get?-put_other (key p) j content c.files other.0
  ]

  take_files-IsHeld :
      (ps : List FilePath) (c d : Collected)
      → AreDistinct key ps
      → take_files key skipped probe ps c ≡ ok d
      → All (IsHeld key skipped probe d.files) ps
  unfolding take_files
  take_files-IsHeld [] c d distinct h = tt
  take_files-IsHeld (p ∷ ps) c d distinct h = elim (Bool-cases (skipped p)) [
    | inl e ↦ (inl e, take_files-IsHeld ps c d distinct.1 (rw e at h))
    | inr e ↦
        let (m, first, rest) =
          >>=-ok (take_file (key p) (probe p) c) (λ m. take_files key skipped probe ps m)
            (rw e at h) in
        let (content, readable, put_there) = take_file-get? (key p) (probe p) c m first in
        (
          inr (
            content,
            readable,
            take_files-get? ps m d (key p) distinct.0 rest
                ∙ ap (get? (key p)) put_there
                ∙ get?-put_self (key p) content c.files,
          ),
          take_files-IsHeld ps m d distinct.1 rest,
        )
  ]

-- The files of a place, in the order of their paths; none where it is not read.
abbrev pub Lists : Option (List Directory) → List FilePath → Type 0
Lists none found = found ≡ []
Lists (some directories) found = walk_regular_files directories ≡ ok found

module _ (key : FilePath → Bytes) (skipped : FilePath → Bool) (probe : FilePath → Probe) where
  listed :
      (walk : Option (List Directory)) (c d : Collected)
      → take_place key skipped (record { walk = walk; probe = probe }) c ≡ ok d
      → (found : List FilePath) × Lists walk found × (take_files key skipped probe found c ≡ ok d)
  unfolding take_place take_files
  listed none c d h = ([], refl, h)
  listed (some directories) c d h =
      >>=-ok (walk_regular_files directories) (λ found. take_files key skipped probe found c) h

abbrev pub nothing_skipped : FilePath → Bool
nothing_skipped p = false

same_list :
    (walk : Option (List Directory)) (ps found : List FilePath)
    → Lists walk ps
    → Lists walk found
    → found ≡ ps
same_list none ps found h k = k ∙ sym h
same_list (some directories) ps found h k = cc (h, k)

kept :
    (found : List FilePath) (key : FilePath → Bytes) (skipped : FilePath → Bool)
    (probe : FilePath → Probe) (qs : List FilePath) (key' : FilePath → Bytes)
    (skipped' : FilePath → Bool) (probe' : FilePath → Probe) (c d : Collected)
    → take_files key' skipped' probe' qs c ≡ ok d
    → All (λ p. All (λ q. key' q ≢ key p) qs) found
    → All (IsHeld key skipped probe c.files) found
    → All (IsHeld key skipped probe d.files) found
kept [] key skipped probe qs key' skipped' probe' c d h other held = tt
kept (p ∷ ps) key skipped probe qs key' skipped' probe' c d h other held = (
  elim (held.0) [
    | inl e ↦ inl e
    | inr (content, readable, there) ↦
        inr
          (content, readable, take_files-get? key' skipped' probe' qs c d (key p) other.0 h ∙ there)
  ],
  kept ps key skipped probe qs key' skipped' probe' c d h other.1 held.1,
)

module _ (output workspace : Place) (mount_points : List Bytes) (files : List (Bytes × Bytes)) where
  pub collected-IsHeld :
      (ps qs : List FilePath)
      → Lists output.walk ps
      → Lists workspace.walk qs
      → AreDistinct as_posix ps
      → AreDistinct workspace_key qs
      → All (λ p. All (λ q. workspace_key q ≢ as_posix p) qs) ps
      → collect_generated_files output workspace mount_points ≡ ok files
      → All (IsHeld as_posix nothing_skipped output.probe files) ps
        × All (IsHeld workspace_key (λ q. is_mounted mount_points q) workspace.probe files) qs
  unfolding collect_generated_files
  collected-IsHeld ps qs lp lq dp dq other h =
      let start : Collected = record { total = 0; files = [] } in
      let skipped = λ (q : FilePath). is_mounted mount_points q in
      let (c, first, h1) =
        >>=-ok (take_place as_posix nothing_skipped output start)
          (λ c. take_place workspace_key skipped workspace c >>= λ d. ok d.files) h in
      let (d, second, h2) =
        >>=-ok (take_place workspace_key skipped workspace c) (λ d. ok d.files) h1 in
      let (ps', lp', took) =
        listed as_posix nothing_skipped output.probe output.walk start c first in
      let (qs', lq', took') =
        listed workspace_key skipped workspace.probe workspace.walk c d second in
      let tp =
        subst
          (λ (l : List FilePath). take_files as_posix nothing_skipped output.probe l start ≡ ok c)
          (same_list output.walk ps ps' lp lp') took in
      let tq =
        subst (λ (l : List FilePath). take_files workspace_key skipped workspace.probe l c ≡ ok d)
          (same_list workspace.walk qs qs' lq lq') took' in
      let held = take_files-IsHeld as_posix nothing_skipped output.probe ps start c dp tp in
      let e : d.files ≡ files = cc h2 in
      subst
        (λ (fs : List (Bytes × Bytes)).
          All (IsHeld as_posix nothing_skipped output.probe fs) ps
          × All (IsHeld workspace_key skipped workspace.probe fs) qs)
        e
        (
          kept ps as_posix nothing_skipped output.probe qs workspace_key skipped workspace.probe c d
              tq other held,
          take_files-IsHeld workspace_key skipped workspace.probe qs c d dq tq,
        )
