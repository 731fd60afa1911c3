-- ===== src/Sandbox/Files.antt =====
-- engine/execution/workspace_files.py: the files that a program left in its sandbox. What the
-- operating system answers is an argument: the directories that `os.walk` yields, and for each path a
-- `Probe` with the answers to the calls that read it. A path is the list of its parts below the root.
pub mod Bounds
pub mod Complete
pub mod Collision
use cobol_java_transformatio.Common.{
  ℕ, zero, suc, ◌+◌, ◌*◌, Bool, true, false, not, ◌&&◌, ◌||◌, Option, none, some, List, [], ◌∷◌,
  ◌++◌, map, any, length, ltb, ◌==◌, if◌then◌else◌, Result, ok, err, ◌>>=◌, ◌>>◌, raise_if,
}
use cobol_java_transformatio.Common.Bytes.{Bytes, codes, bytes_eq, bytes_le, take}
use cobol_java_transformatio.Common.Dict.{put}

abbrev pub FilePath : Type 0
FilePath = List Bytes

-- `WORKSPACE_PREFIX`, `MAX_SANDBOX_FILE_BYTES` and `MAX_SANDBOX_TOTAL_BYTES`
abbrev pub workspace_prefix : Bytes
workspace_prefix = codes "workspace/"

abbrev pub max_file_bytes : ℕ
max_file_bytes = 64 * 1024 * 1024

abbrev pub max_total_bytes : ℕ
max_total_bytes = 256 * 1024 * 1024

pub data FileKind : Type 0 where
  regular symbolic_link special : FileKind

-- the fields of an `os.stat_result` that are read
pub record FileStatus : Type 0 where
  pub kind : FileKind
  pub inode : ℕ
  pub device : ℕ
  pub size : ℕ

-- `none` is an `OSError`; `content` is what a read to the end gives.
pub record Probe : Type 0 where
  pub lstat : Option FileStatus
  pub fstat : Option FileStatus
  pub content : Bytes

pub data UnsafeOutput : Type 0 where
  not_inspected is_symbolic_link is_special not_opened has_changed size_exceeds content_exceeds :
      UnsafeOutput
  linked_directory total_exceeds : UnsafeOutput

abbrev pub check_regular : FileKind → Result UnsafeOutput (Unit {0})
check_regular regular = ok tt
check_regular symbolic_link = err is_symbolic_link
check_regular special = err is_special

abbrev pub is_regular : FileKind → Bool
is_regular regular = true
is_regular symbolic_link = false
is_regular special = false

abbrev pub or_raise : {A : Type 0} {E : Type 0} → Option A → E → Result E A
or_raise none e = err e
or_raise (some a) e = ok a

-- the block under `os.fdopen`
unfoldable pub read_opened : FileStatus → FileStatus → Bytes → ℕ → Result UnsafeOutput Bytes
read_opened info opened content limit = do
  raise_if
      (not (is_regular opened.kind)
        || not (opened.inode == info.inode && opened.device == info.device))
      has_changed
  raise_if (ltb limit opened.size) size_exceeds
  raise_if (ltb limit (length (take (suc limit) content))) content_exceeds
  ok (take (suc limit) content)

unfoldable pub read_sandbox_file : Probe → ℕ → Result UnsafeOutput Bytes
read_sandbox_file probe limit = do
  info ← or_raise probe.lstat not_inspected
  check_regular info.kind
  opened ← or_raise probe.fstat not_opened
  read_opened info opened probe.content limit

-- what `os.walk` yields of a directory: for each directory in it, whether that is a link
pub record Directory : Type 0 where
  pub path : FilePath
  pub directories : List (Bytes × Bool)
  pub files : List Bytes

-- The order of paths: that of their parts, from the left.
unfoldable pub path_le : FilePath → FilePath → Bool
path_le [] q = true
path_le (a ∷ p) [] = false
path_le (a ∷ p) (b ∷ q) = if bytes_eq a b then path_le p q else bytes_le a b

unfoldable pub insert_path : FilePath → List FilePath → List FilePath
insert_path p [] = p ∷ []
insert_path p (q ∷ qs) = if path_le p q then p ∷ q ∷ qs else q ∷ insert_path p qs

-- `sorted(found)`
unfoldable pub sorted_paths : List FilePath → List FilePath
sorted_paths [] = []
sorted_paths (p ∷ ps) = insert_path p (sorted_paths ps)

abbrev pub below : FilePath → Bytes → FilePath
below path name = path ++ name ∷ []

unfoldable pub walked : List Directory → Result UnsafeOutput (List FilePath)
walked [] = ok []
walked (here ∷ rest) = do
  raise_if (any (λ d. d.1) here.directories) linked_directory
  found ← walked rest
  ok (map (λ name. below here.path name) here.files ++ found)

-- `_walk_regular_files`
unfoldable pub walk_regular_files : List Directory → Result UnsafeOutput (List FilePath)
walk_regular_files directories = do found ← walked directories; ok (sorted_paths found)

-- the variables `total` and `files`
pub record Collected : Type 0 where
  pub total : ℕ
  pub files : List (Bytes × Bytes)

-- `_take`
unfoldable pub take_file : Bytes → Probe → Collected → Result UnsafeOutput Collected
take_file key probe c = do
  content ← read_sandbox_file probe max_file_bytes
  raise_if (ltb max_total_bytes (c.total + length content)) total_exceeds
  ok (record { total = c.total + length content; files = put key content c.files })

-- `path.as_posix()`
unfoldable pub as_posix : FilePath → Bytes
as_posix [] = []
as_posix (a ∷ []) = a
as_posix (a ∷ b ∷ p) = a ++ 47 ∷ as_posix (b ∷ p)

abbrev pub is_mounted : List Bytes → FilePath → Bool
is_mounted mount_points [] = false
is_mounted mount_points (a ∷ p) = any (λ m. bytes_eq m a) mount_points

abbrev pub workspace_key : FilePath → Bytes
workspace_key p = workspace_prefix ++ as_posix p

-- The files of one place, each under its key; those that a mount occupies are skipped.
unfoldable pub take_files :
    (FilePath → Bytes)
    → (FilePath → Bool)
    → (FilePath → Probe)
    → List FilePath
    → Collected
    → Result UnsafeOutput Collected
take_files key skipped probe [] c = ok c
take_files key skipped probe (p ∷ ps) c =
    let rest = take_files key skipped probe ps c in
    if skipped p
    then rest
    else (take_file (key p) (probe p) c >>= λ d. take_files key skipped probe ps d)

-- A place: what the walk yields where it is a directory that may be read, and its files.
pub record Place : Type 0 where
  pub walk : Option (List Directory)
  pub probe : FilePath → Probe

unfoldable pub take_place :
    (FilePath → Bytes) → (FilePath → Bool) → Place → Collected → Result UnsafeOutput Collected
take_place key skipped place c = elim (place.walk) [
  | none ↦ ok c
  | some directories ↦ do
    found ← walk_regular_files directories
    take_files key skipped place.probe found c
]

unfoldable pub collect_generated_files :
    Place → Place → List Bytes → Result UnsafeOutput (List (Bytes × Bytes))
collect_generated_files output workspace mount_points = do
  c ← take_place as_posix (λ p. false) output (record { total = 0; files = [] })
  d ← take_place workspace_key (λ p. is_mounted mount_points p) workspace c
  ok d.files
