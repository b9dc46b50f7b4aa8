-- ===== src/Tests/Workspace.antt =====
-- The file tools in a workspace on a small disk.
use atlas_the_agent.Base.{
  same_texts, same_texts→eq, inr, ◌∙◌, ap, inl, ◌++◌, Bool-cases, arith, ◌≡◌, refl, true, some, [],
  ◌∷◌, Text, codes,
}
use atlas_the_agent.Tools.Registry.{success}
use atlas_the_agent.Tools.Files.{
  wrote, make_directories, tool_error, write_at, newlines, is_inside, resolve, Location, Disk, file,
  directory, ended, file_read, file_write, find_entry,
}
use atlas_the_agent.Tools.Files.Jailed.{AgreesAt, disk_of, file_write-IsJailed, file_read-IsJailed}
use atlas_the_agent.Tests.Fixtures.{python}

abbrev workspace : Location
workspace = codes "work" ∷ []

abbrev secret : Location
secret = codes "secret" ∷ codes "etc" ∷ []

abbrev other_disk : Disk
other_disk = (workspace, directory) ∷ (codes "a" ∷ workspace, file (some (codes "old"))) ∷ []

abbrev disk : Disk
disk = (secret, file (some (codes "key"))) ∷ other_disk

abbrev child_of : Disk → Location → Text → Location
child_of d root relative = relative ∷ root

-- A resolution that leaves the root.
abbrev escaping : Disk → Location → Text → Location
escaping d root relative = secret

disk-other_disk :
    (p : Location) → is_inside workspace p ≡ true → find_entry p disk ≡ find_entry p other_disk
unfolding find_entry is_inside
disk-other_disk p inside = elim (Bool-cases (same_texts secret p)) [
  | inl s ↦ absurd (outside (ap (is_inside workspace) (same_texts→eq secret p s) ∙ inside))
  | inr s ↦ rw s refl
]
  where
    outside : is_inside workspace secret ≡ true → ⊥
    outside e = ground (arith, e)

file_write_new :
    file_write python child_of workspace (codes "b") (codes "hi") disk
    ≡ ended (
      wrote python child_of workspace (codes "b") (codes "hi"),
      (codes "b" ∷ workspace, file (some (codes "hi"))) ∷ disk,
    )
unfolding file_write resolve is_inside find_entry write_at make_directories
file_write_new = refl

file_read_returns :
    file_read python child_of workspace (codes "a") disk ≡ ended (success (codes "old"))
unfolding file_read resolve is_inside find_entry newlines
file_read_returns = refl

file_read-escaping :
    file_read python escaping workspace (codes "a") disk
    ≡ tool_error (
        codes "Path "
        ++ (python.repr (codes "a") ++ codes " escapes the workspace jail; access denied."))
unfolding file_read resolve is_inside
file_read-escaping = refl

file_write-IsJailed_example :
    AgreesAt secret disk
      (disk_of (file_write python child_of workspace (codes "b") (codes "hi") disk))
unfolding find_entry is_inside
file_write-IsJailed_example =
    file_write-IsJailed python child_of workspace secret disk (codes "b") (codes "hi") refl refl

file_read-IsJailed_example :
    file_read python child_of workspace (codes "a") disk
    ≡ file_read python child_of workspace (codes "a") other_disk
file_read-IsJailed_example =
    file_read-IsJailed python child_of workspace disk other_disk (codes "a") refl disk-other_disk
