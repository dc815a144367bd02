-- ===== src/Engine/Config/Retention.antt =====
-- engine/config/config.go: which files `pruneArchive` keeps.
use seesaw.Base.{ℕ, ◌+◌, ◌≤◌, ◌≡◌, true, List, [], ◌∷◌, ◌++◌, All, length, count}
use seesaw.Engine.Config.Archive.{File, ArchiveConfig, grown, exceeds}

abbrev sizes : List File → ℕ
sizes [] = 0
sizes (file ∷ files) = file.size + sizes files

-- The first file that goes would be one too many, or too large, or too old; `seen` is what was kept.
abbrev pub IsTooMuch : ArchiveConfig → ArchiveConfig → List File → Type 0
IsTooMuch max seen [] = Unit
IsTooMuch max seen (file ∷ gone) = exceeds max (grown seen file) ≡ true

pub record Retains (max seen : ArchiveConfig) (gone files : List File) (before : ArchiveConfig)
    : Type 0 where
  pub kept : List File
  pub parts : kept ++ gone ≡ files
  pub counted : seen.count ≡ before.count + length kept
  pub measured : seen.bytes ≡ before.bytes + sizes kept
  pub few : seen.count ≤ max.count
  pub small : seen.bytes ≤ max.bytes
  pub recent : All (λ (file : File). file.age ≤ max.age) kept
  pub full : IsTooMuch max seen gone
