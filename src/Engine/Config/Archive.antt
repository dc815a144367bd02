-- ===== src/Engine/Config/Archive.antt =====
-- engine/config/config.go: `pruneArchive`, which keeps the newest copies of the configuration.
use seesaw.Base.{ℕ, ◌+◌, Bool, ◌||◌, List, [], ◌∷◌, ltb, if◌then◌else◌}

-- `age` is `refTime.Sub(ModTime())`, zero for a file of the future.
pub record File : Type 0 where
  pub age : ℕ
  pub size : ℕ

pub record ArchiveConfig : Type 0 where
  pub age : ℕ
  pub bytes : ℕ
  pub count : ℕ

pub record PruneStats : Type 0 where
  pub seen : ArchiveConfig
  pub files_removed : ℕ
  pub files_errored : ℕ

-- `curr` after the next file.
abbrev pub grown : ArchiveConfig → File → ArchiveConfig
grown seen file = record { age = file.age; bytes = seen.bytes + file.size; count = seen.count + 1 }

abbrev pub exceeds : ArchiveConfig → ArchiveConfig → Bool
exceeds max curr = ltb max.count curr.count || ltb max.bytes curr.bytes || ltb max.age curr.age

-- The loop: what was seen last, and the files that are to be removed.
unfoldable pub kept_until : ArchiveConfig → ArchiveConfig → List File → ArchiveConfig × List File
kept_until max seen [] = (seen, [])
kept_until max seen (file ∷ files) =
    let rest = kept_until max (grown seen file) files in
    if exceeds max (grown seen file) then (seen, file ∷ files) else rest

-- `removeFiles`; `remove` is whether `os.Remove` succeeds.
unfoldable pub remove_files : (File → Bool) → List File → ℕ × ℕ
remove_files remove [] = (0, 0)
remove_files remove (file ∷ files) =
    let (removed, failed) = remove_files remove files in
    if remove file then (removed + 1, failed) else (removed, failed + 1)

abbrev pub nothing_seen : ArchiveConfig
nothing_seen = record { age = 0; bytes = 0; count = 0 }

-- `pruneArchive` of the files that the directory has, the newest first.
unfoldable pub prune_archive : (File → Bool) → ArchiveConfig → List File → PruneStats
unfolding kept_until remove_files
prune_archive remove max files =
    let (seen, gone) = kept_until max nothing_seen files in
    let (removed, failed) = remove_files remove gone in
    record { seen = seen; files_removed = removed; files_errored = failed }
