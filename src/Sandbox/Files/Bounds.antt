-- ===== src/Sandbox/Files/Bounds.antt =====
-- What is read out of a sandbox is safe to read and bounded in size.
use cobol_java_transformatio.Common.{
  ℕ, zero, suc, ◌+◌, ◌≤◌, ◌≡◌, ◌↔◌, refl, ap, sym, ◌∙◌, subst, inl, inr, Bool, true, false, not,
  ◌&&◌, ◌||◌, Option, none, some, List, [], ◌∷◌, length, ltb, ◌==◌, ==_iff, Bool-cases, ok, ◌>>=◌,
  ◌>>◌, >>=-ok, raise_if, raise_if-ok, All, arith,
}
use cobol_java_transformatio.Common.Bytes.{Bytes, bytes_eq, take}
use cobol_java_transformatio.Common.Dict.{put, All-put}
use cobol_java_transformatio.Sandbox.Files.{
  FilePath, max_file_bytes, max_total_bytes, FileKind, regular, symbolic_link, special, FileStatus,
  Probe, not_inspected, not_opened, has_changed, size_exceeds, content_exceeds, total_exceeds,
  check_regular, is_regular as test, or_raise, read_opened, read_sandbox_file, Directory,
  walk_regular_files, Collected, take_file, as_posix, is_mounted, workspace_key, take_files, Place,
  take_place, collect_generated_files,
}

-- The path was a regular file when it was looked at and when it was opened, the same one, and its
-- size and content are within the limit.
pub record IsReadable (probe : Probe) (limit : ℕ) (content : Bytes) : Type 0 where
  pub info : FileStatus
  pub opened : FileStatus
  pub inspected : probe.lstat ≡ some info
  pub was_regular : info.kind ≡ regular
  pub opens : probe.fstat ≡ some opened
  pub is_regular : opened.kind ≡ regular
  pub same_inode : opened.inode ≡ info.inode
  pub same_device : opened.device ≡ info.device
  pub size_within : opened.size ≤ limit
  pub all_read : content ≡ probe.content
  pub within : length content ≤ limit

take_short : (n : ℕ) (s : Bytes) → length (take (suc n) s) ≤ n → take (suc n) s ≡ s
take_short n [] h = refl
take_short zero (c ∷ s) h = absurd (omega arith)
take_short (suc n) (c ∷ s) h = ap (◌∷◌ c) (take_short n s (omega arith))

take_whole : (n : ℕ) (s : Bytes) → length s ≤ n → take (suc n) s ≡ s
take_whole n [] h = refl
take_whole zero (c ∷ s) h = absurd (omega arith)
take_whole (suc n) (c ∷ s) h = ap (◌∷◌ c) (take_whole n s (omega arith))

check_regular-ok : (k : FileKind) {u : Unit} → check_regular k ≡ ok u → k ≡ regular
check_regular-ok regular h = refl
check_regular-ok symbolic_link h = cc
check_regular-ok special h = cc

is_regular-true : (k : FileKind) → test k ≡ true → k ≡ regular
is_regular-true regular h = refl
is_regular-true symbolic_link h = cc
is_regular-true special h = cc

or_raise-ok : {A E : Type 0} (o : Option A) (e : E) {a : A} → or_raise o e ≡ ok a → o ≡ some a
or_raise-ok none e h = cc
or_raise-ok (some a) e h = cc

-- the checks on the open file
abbrev IsUnchanged : FileStatus → FileStatus → Type 0
IsUnchanged info opened =
    (opened.kind ≡ regular) × (opened.inode ≡ info.inode) × (opened.device ≡ info.device)

same_file :
    (info opened : FileStatus)
    → (not (test opened.kind) || not (opened.inode == info.inode && opened.device == info.device))
      ≡ false
    → IsUnchanged info opened
same_file info opened h = (is_regular-true opened.kind (ground arith), ground arith, ground arith)

read_opened-ok :
    (info opened : FileStatus) (s : Bytes) (limit : ℕ) {content : Bytes}
    → read_opened info opened s limit ≡ ok content
    → IsUnchanged info opened × (opened.size ≤ limit) × (content ≡ s) × (length content ≤ limit)
unfolding read_opened
read_opened-ok info opened s limit {content} h =
    let (_, same, h1) =
      >>=-ok
        (raise_if
          (not (test opened.kind)
            || not (opened.inode == info.inode && opened.device == info.device))
          has_changed)
        (λ _.
          raise_if (ltb limit opened.size) size_exceeds
          >> (raise_if (ltb limit (length (take (suc limit) s))) content_exceeds
              >> ok (take (suc limit) s)))
        h in
    let (_, size, h2) =
      >>=-ok (raise_if (ltb limit opened.size) size_exceeds)
        (λ _.
          raise_if (ltb limit (length (take (suc limit) s))) content_exceeds
          >> ok (take (suc limit) s))
        h1 in
    let (_, short, h3) =
      >>=-ok (raise_if (ltb limit (length (take (suc limit) s))) content_exceeds)
        (λ _. ok (take (suc limit) s)) h2 in
    let within : length (take (suc limit) s) ≤ limit = ground (arith, raise_if-ok _ _ short) in
    let whole = take_short limit s within in
    let out : take (suc limit) s ≡ content = cc h3 in
    (
      same_file info opened (raise_if-ok _ _ same),
      ground (arith, raise_if-ok _ _ size),
      sym out ∙ whole,
      subst (λ (c : Bytes). length c ≤ limit) out within,
    )

read_sandbox_file-ok :
    (probe : Probe) (limit : ℕ) (content : Bytes)
    → read_sandbox_file probe limit ≡ ok content
    → IsReadable probe limit content
unfolding read_sandbox_file
read_sandbox_file-ok probe limit content h =
    let (info, inspected, h1) =
      >>=-ok (or_raise probe.lstat not_inspected)
        (λ i.
          check_regular i.kind
          >> (or_raise probe.fstat not_opened >>= λ o. read_opened i o probe.content limit))
        h in
    let (_, was, h2) =
      >>=-ok (check_regular info.kind)
        (λ _. or_raise probe.fstat not_opened >>= λ o. read_opened info o probe.content limit) h1 in
    let (opened, opens, h3) =
      >>=-ok (or_raise probe.fstat not_opened) (λ o. read_opened info o probe.content limit) h2 in
    let (same, size, all_read, within) = read_opened-ok info opened probe.content limit h3 in
    record {
      info = info;
      opened = opened;
      inspected = or_raise-ok probe.lstat not_inspected inspected;
      was_regular = check_regular-ok info.kind was;
      opens = or_raise-ok probe.fstat not_opened opens;
      is_regular = same.0;
      same_inode = same.1;
      same_device = same.2;
      size_within = size;
      all_read = all_read;
      within = within;
    }

IsReadable-read :
    (probe : Probe) (limit : ℕ) (content : Bytes)
    → IsReadable probe limit content
    → read_sandbox_file probe limit ≡ ok content
unfolding read_sandbox_file read_opened
IsReadable-read probe limit content r =
    let all : take (suc limit) probe.content ≡ content =
      take_whole limit probe.content (subst (λ (c : Bytes). length c ≤ limit) r.all_read r.within)
      ∙ sym r.all_read in
    let inodes : (r.opened.inode == r.info.inode) ≡ true =
      (==_iff r.opened.inode r.info.inode).1 r.same_inode in
    let devices : (r.opened.device == r.info.device) ≡ true =
      (==_iff r.opened.device r.info.device).1 r.same_device in
    let size : ltb limit r.opened.size ≡ false = (let k = r.size_within in ground arith) in
    let short : ltb limit (length content) ≡ false = (let k = r.within in ground arith) in
    rw r.inspected (
      rw r.was_regular
        (rw r.opens (rw r.is_regular (rw inodes (rw devices (rw size (rw all (rw short refl))))))))

-- A read returns exactly where the path was a regular file, and the same one, at both looks, and its
-- size and content are within the limit; it then returns the whole content.
pub read_sandbox_file-IsReadable :
    (probe : Probe) (limit : ℕ) (content : Bytes)
    → (read_sandbox_file probe limit ≡ ok content) ↔ IsReadable probe limit content
read_sandbox_file-IsReadable probe limit content =
    (read_sandbox_file-ok probe limit content, IsReadable-read probe limit content)

-- the bytes that a result holds
abbrev pub sum_of : List (Bytes × Bytes) → ℕ
sum_of [] = 0
sum_of ((k, c) ∷ files) = length c + sum_of files

put-sum_of :
    (key content : Bytes) (files : List (Bytes × Bytes))
    → sum_of (put key content files) ≤ sum_of files + length content
unfolding put
put-sum_of key content [] = omega arith
put-sum_of key content ((k, c) ∷ files) = elim (Bool-cases (bytes_eq k key)) [
  | inl e ↦ rw e (omega arith)
  | inr e ↦ rw e (omega (arith, put-sum_of key content files))
]

abbrev IsSmall : Bytes × Bytes → Type 0
IsSmall (k, c) = length c ≤ max_file_bytes

abbrev IsBounded : Collected → Type 0
IsBounded c = (sum_of c.files ≤ c.total) × (c.total ≤ max_total_bytes) × All IsSmall c.files

take_file-IsBounded :
    (key : Bytes) (probe : Probe) (c d : Collected)
    → IsBounded c
    → take_file key probe c ≡ ok d
    → IsBounded d
unfolding take_file
take_file-IsBounded key probe c d (counted, within, small) h =
    let (content, read, h1) =
      >>=-ok (read_sandbox_file probe max_file_bytes)
        (λ b.
          raise_if (ltb max_total_bytes (c.total + length b)) total_exceeds
          >> ok (record { total = c.total + length b; files = put key b c.files }))
        h in
    let (_, fits, h2) =
      >>=-ok (raise_if (ltb max_total_bytes (c.total + length content)) total_exceeds)
        (λ _. ok (record { total = c.total + length content; files = put key content c.files }))
        h1 in
    let r = read_sandbox_file-ok probe max_file_bytes content read in
    let e : (record { total = c.total + length content; files = put key content c.files }) ≡ d =
      cc h2 in
    let k = raise_if-ok _ _ fits in
    subst IsBounded e (
      omega (arith, put-sum_of key content c.files),
      ground arith,
      All-put IsSmall key content c.files r.within small,
    )

take_files-IsBounded :
    (key : FilePath → Bytes) (skipped : FilePath → Bool) (probe : FilePath → Probe)
    (ps : List FilePath) (c d : Collected)
    → IsBounded c
    → take_files key skipped probe ps c ≡ ok d
    → IsBounded d
unfolding take_files
take_files-IsBounded key skipped probe [] c d b h = subst IsBounded (cc h) b
take_files-IsBounded key skipped probe (p ∷ ps) c d b h = elim (Bool-cases (skipped p)) [
  | inl e ↦ take_files-IsBounded key skipped probe ps c d b (rw e at h)
  | inr e ↦
      let (m, first, rest) =
        >>=-ok (take_file (key p) (probe p) c) (λ m. take_files key skipped probe ps m)
          (rw e at h) in
      take_files-IsBounded key skipped probe ps m d
        (take_file-IsBounded (key p) (probe p) c m b first) rest
]

take_place-IsBounded :
    (key : FilePath → Bytes) (skipped : FilePath → Bool) (walk : Option (List Directory))
    (probe : FilePath → Probe) (c d : Collected)
    → IsBounded c
    → take_place key skipped (record { walk = walk; probe = probe }) c ≡ ok d
    → IsBounded d
unfolding take_place
take_place-IsBounded key skipped none probe c d b h = subst IsBounded (cc h) b
take_place-IsBounded key skipped (some directories) probe c d b h =
    let (found, walks, h1) =
      >>=-ok (walk_regular_files directories) (λ found. take_files key skipped probe found c) h in
    take_files-IsBounded key skipped probe found c d b h1

-- Whatever a program leaves behind, a result holds at most 64 MiB of each file and at most 256 MiB in
-- all.
pub collect_generated_files_bounds :
    (output workspace : Place) (mount_points : List Bytes) (files : List (Bytes × Bytes))
    → collect_generated_files output workspace mount_points ≡ ok files
    → (sum_of files ≤ max_total_bytes) × All IsSmall files
unfolding collect_generated_files
collect_generated_files_bounds output workspace mount_points files h =
    let start : Collected = record { total = 0; files = [] } in
    let (c, first, h1) =
      >>=-ok (take_place as_posix (λ p. false) output start)
        (λ c.
          take_place workspace_key (λ p. is_mounted mount_points p) workspace c >>= λ d. ok d.files)
        h in
    let (d, second, h2) =
      >>=-ok (take_place workspace_key (λ p. is_mounted mount_points p) workspace c)
        (λ d. ok d.files) h1 in
    let b =
      take_place-IsBounded as_posix (λ p. false) output.walk output.probe start c
        (omega arith, omega arith, tt) first in
    let (counted, within, small) =
      take_place-IsBounded workspace_key (λ p. is_mounted mount_points p) workspace.walk
        workspace.probe c d b second in
    subst (λ (fs : List (Bytes × Bytes)). (sum_of fs ≤ max_total_bytes) × All IsSmall fs) (cc h2)
      (omega arith, small)
