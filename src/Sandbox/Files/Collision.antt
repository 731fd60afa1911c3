-- ===== src/Sandbox/Files/Collision.antt =====
-- When the keys of two files are the same.
use cobol_java_transformatio.Common.{
  ◌+◌, ◌≡◌, ◌≢◌, refl, Bool, true, false, some, List, [], ◌∷◌, ◌++◌, any, length, ltb, ◌==◌,
  if◌then◌else◌, ok, All, arith,
}
use cobol_java_transformatio.Common.Bytes.{Bytes, codes, bytes_eq, bytes_eq_iff}
use cobol_java_transformatio.Common.Dict.{put}
use cobol_java_transformatio.Sandbox.Files.{
  FilePath, max_file_bytes, max_total_bytes, workspace_prefix, Probe, walked, walk_regular_files,
  sorted_paths, insert_path, take_file, as_posix, take_files, Place, take_place,
  collect_generated_files,
}
use cobol_java_transformatio.Sandbox.Files.Bounds.{IsReadable, read_sandbox_file-IsReadable}

abbrev has_slash : Bytes → Bool
has_slash s = any (λ c. c == 47) s

-- A path of at least one name; no name has a slash.
abbrev pub IsFilePath : FilePath → Type 0
IsFilePath [] = ⊥
IsFilePath (a ∷ []) = has_slash a ≡ false
IsFilePath (a ∷ b ∷ p) = (has_slash a ≡ false) × IsFilePath (b ∷ p)

before_slash : Bytes → Bytes
before_slash [] = []
before_slash (c ∷ s) = if c == 47 then [] else c ∷ before_slash s

after_slash : Bytes → Bytes
after_slash [] = []
after_slash (c ∷ s) = if c == 47 then s else after_slash s

-- the first name of a path
abbrev pub first_name : FilePath → Bytes
first_name [] = []
first_name (a ∷ p) = a

abbrev pub workspace_name : Bytes
workspace_name = codes "workspace"

abbrev IsOutput : FilePath → Type 0
IsOutput p = IsFilePath p × (first_name p ≢ workspace_name)

-- No path stands twice.
abbrev pub AreUnlike : List FilePath → Type 0
AreUnlike [] = Unit
AreUnlike (p ∷ ps) = All (λ q. q ≢ p) ps × AreUnlike ps

-- a place with one file
abbrev pub one_file : FilePath → Bytes → Probe → Place
one_file folder name probe = record {
  walk = some (record { path = folder; directories = []; files = name ∷ [] } ∷ []);
  probe = λ p. probe;
}

-- A file named X in the directory `workspace` of the output directory and a file X of the working
-- directory go under one key: where both can be read, the result has one entry, the content of the
-- latter, and the other file is gone without an error.
pub collect_generated_files_lost :
    (name : Bytes) (o w : Probe) (a b : Bytes)
    → IsReadable o max_file_bytes a
    → IsReadable w max_file_bytes b
    → collect_generated_files (one_file (workspace_name ∷ []) name o) (one_file [] name w) []
      ≡ ok ((workspace_prefix ++ name, b) ∷ [])
unfolding collect_generated_files take_place take_files take_file walk_regular_files walked
    sorted_paths insert_path put as_posix
collect_generated_files_lost name o w a b h k =
    let small : ltb max_total_bytes (0 + length a) ≡ false = (let r = h.within in ground arith) in
    let fits : ltb max_total_bytes (0 + length a + length b) ≡ false =
      (let r = h.within in let s = k.within in ground arith) in
    let same : bytes_eq (codes "workspace/" ++ name) (codes "workspace/" ++ name) ≡ true =
      (bytes_eq_iff _ _).1 refl in
    rw ((read_sandbox_file-IsReadable o max_file_bytes a).1 h) (
      rw small
        (rw ((read_sandbox_file-IsReadable w max_file_bytes b).1 k) (rw fits (rw same refl))))
