-- ===== src/Examples/Outputs.antt =====
-- A run that left two files, and the theorems on collecting them.
use cobol_java_transformatio.Common.{
  ℕ, ◌≤◌, ◌≡◌, ◌↔◌, refl, some, List, [], ◌∷◌, ◌++◌, ok, All, length, arith,
}
use cobol_java_transformatio.Common.Bytes.{Bytes, codes, bytes_eq}
use cobol_java_transformatio.Common.Dict.{put}
use cobol_java_transformatio.Sandbox.Files.{
  workspace_prefix, max_file_bytes, max_total_bytes, regular, FileStatus, Probe, read_opened,
  read_sandbox_file, insert_path, sorted_paths, walked, walk_regular_files, take_file, as_posix,
  take_files, Place, take_place, collect_generated_files,
}
use cobol_java_transformatio.Sandbox.Files.Bounds.{
  IsReadable, read_sandbox_file-IsReadable, sum_of, collect_generated_files_bounds,
}
use cobol_java_transformatio.Sandbox.Files.Collision.{
  workspace_name, one_file, collect_generated_files_lost,
}

abbrev status : ℕ → FileStatus
status size = record { kind = regular; inode = 7; device = 1; size = size }

abbrev file_of : Bytes → ℕ → Probe
file_of content size = record {
  lstat = some (status size);
  fstat = some (status size);
  content = content;
}

abbrev result_file : Probe
result_file = file_of (codes "OK") 2

abbrev index_file : Probe
index_file = file_of (codes "IDX") 3

abbrev collected : List (Bytes × Bytes)
collected = (codes "OUT.TXT", codes "OK") ∷ (codes "workspace/IDX.DAT", codes "IDX") ∷ []

abbrev output_place : Place
output_place = one_file [] (codes "OUT.TXT") result_file

abbrev working_place : Place
working_place = one_file [] (codes "IDX.DAT") index_file

both_collected : collect_generated_files output_place working_place [] ≡ ok collected
unfolding collect_generated_files take_place walk_regular_files walked sorted_paths insert_path
    take_files take_file read_sandbox_file read_opened put as_posix bytes_eq
both_collected = refl

result_IsReadable : IsReadable result_file max_file_bytes (codes "OK")
result_IsReadable = record {
  info = status 2;
  opened = status 2;
  inspected = refl;
  was_regular = refl;
  opens = refl;
  is_regular = refl;
  same_inode = refl;
  same_device = refl;
  size_within = omega arith;
  all_read = refl;
  within = omega arith;
}

index_IsReadable : IsReadable index_file max_file_bytes (codes "IDX")
index_IsReadable = record {
  info = status 3;
  opened = status 3;
  inspected = refl;
  was_regular = refl;
  opens = refl;
  is_regular = refl;
  same_inode = refl;
  same_device = refl;
  size_within = omega arith;
  all_read = refl;
  within = omega arith;
}

read_sandbox_file-IsReadable_example :
    (read_sandbox_file result_file 2 ≡ ok (codes "OK")) ↔ IsReadable result_file 2 (codes "OK")
read_sandbox_file-IsReadable_example = read_sandbox_file-IsReadable result_file 2 (codes "OK")

abbrev IsSmallEntry : Bytes × Bytes → Type 0
IsSmallEntry (k, c) = length c ≤ max_file_bytes

collect_generated_files_bounds_example :
    (sum_of collected ≤ max_total_bytes) × All IsSmallEntry collected
collect_generated_files_bounds_example =
    collect_generated_files_bounds output_place working_place [] collected both_collected

collect_generated_files_lost_example :
    collect_generated_files
      (one_file (workspace_name ∷ []) (codes "X") result_file)
      (one_file [] (codes "X") index_file)
      []
    ≡ ok ((workspace_prefix ++ codes "X", codes "IDX") ∷ [])
collect_generated_files_lost_example =
    collect_generated_files_lost (codes "X") result_file index_file (codes "OK") (codes "IDX")
      result_IsReadable index_IsReadable
