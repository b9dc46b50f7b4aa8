-- ===== src/Tools/Files/Jailed.antt =====
-- The path jail: no file tool touches what is outside of the workspace.
use atlas_the_agent.Base.{
  same_texts→eq, ◌≡◌, refl, sym, ap, subst, ◌∙◌, true, false, Bool-cases, inl, inr, Option, none,
  some, [], ◌∷◌, Text, arith,
}
use atlas_the_agent.Core.Python.{Python}
use atlas_the_agent.Tools.Registry.{ToolResult}
use atlas_the_agent.Tools.Files.{
  wrote, is_directory, Location, Entry, file, directory, Disk, same_texts, find_entry, set_entry,
  Ended, ended, tool_error, os_error, and_then, is_inside, make_directories, parent_of, resolve,
  file_read, write_at, file_write,
}

-- An entry inside of the root is not one outside.
find-set_inside :
    (root p q : Location) (e : Entry) (disk : Disk)
    → is_inside root p ≡ true
    → is_inside root q ≡ false
    → find_entry q (set_entry p e disk) ≡ find_entry q disk
unfolding find_entry
find-set_inside root p q e disk h k = elim (Bool-cases (same_texts p q)) [
  | inl s ↦ ground (arith, h, k, ap (λ x. is_inside root x) (same_texts→eq p q s))
  | inr s ↦ rw s refl
]

-- The disk that is left agrees with the old one at `q`; where the tool raises, none is left.
abbrev pub AgreesAt : Location → Disk → Ended Disk → Type 0
AgreesAt q disk (ended d) = find_entry q d ≡ find_entry q disk
AgreesAt q disk (tool_error m) = Unit
AgreesAt q disk os_error = Unit

-- What a write leaves.
abbrev pub disk_of : Ended (ToolResult × Disk) → Ended Disk
disk_of (ended (r, d)) = ended d
disk_of (tool_error m) = tool_error m
disk_of os_error = os_error

module _ (root q : Location) (disk : Disk) (exists : find_entry root disk ≡ some directory)
    (outside : is_inside root q ≡ false) where
  -- What is inside and has no directory is below the root.
  below :
      (p : Location)
      → is_inside root p ≡ true
      → (find_entry p disk ≡ some directory → ⊥)
      → is_inside root (parent_of p) ≡ true
  unfolding is_inside
  below [] inside new = inside
  below (c ∷ up) inside new = elim (Bool-cases (same_texts root (c ∷ up))) [
    | inl s ↦ absurd (
        new
          (subst (λ x. find_entry x disk ≡ some directory) (same_texts→eq root (c ∷ up) s) exists))
    | inr s ↦ ground (arith, inside, s)
  ]

  grow :
      (p : Location) (e : Entry) (r : Ended Disk)
      → is_inside root p ≡ true
      → AgreesAt q disk r
      → AgreesAt q disk (and_then (λ d. ended (set_entry p e d)) r)
  grow p e (ended d) inside h = find-set_inside root p q e d inside outside ∙ h
  grow p e (tool_error m) inside h = tt
  grow p e os_error inside h = tt

  -- What `make_directories` does at a path, once it is known what stands there.
  abbrev at_entry : Location → Ended Disk → Option Entry → Ended Disk
  at_entry p above none = and_then (λ d. ended (set_entry p directory d)) above
  at_entry p above (some directory) = ended disk
  at_entry p above (some (file t)) = os_error

  make-step :
      (c : Text) (up : Location)
      → make_directories (c ∷ up) disk
        ≡ at_entry (c ∷ up) (make_directories up disk) (find_entry (c ∷ up) disk)
  unfolding make_directories
  make-step c up = refl

  at_entry-AgreesAt :
      (p : Location) (above : Ended Disk) (o : Option Entry)
      → find_entry p disk ≡ o
      → is_inside root p ≡ true
      → (is_inside root (parent_of p) ≡ true → AgreesAt q disk above)
      → AgreesAt q disk (at_entry p above o)
  at_entry-AgreesAt p above none e inside h =
      grow p directory above inside (h (below p inside (λ d. ground (arith, e, d))))
  at_entry-AgreesAt p above (some directory) e inside h = refl
  at_entry-AgreesAt p above (some (file t)) e inside h = tt

  make_directories-AgreesAt :
      (p : Location) → is_inside root p ≡ true → AgreesAt q disk (make_directories p disk)
  unfolding make_directories
  make_directories-AgreesAt [] inside = refl
  make_directories-AgreesAt (c ∷ up) inside = subst (AgreesAt q disk) (sym (make-step c up)) (
      at_entry-AgreesAt (c ∷ up) (make_directories up disk) (find_entry (c ∷ up) disk) refl inside
        (make_directories-AgreesAt up))

  disk_of-AgreesAt :
      (r : ToolResult) (p : Location) (e : Entry) (made : Ended Disk)
      → is_inside root p ≡ true
      → AgreesAt q disk made
      → AgreesAt q disk (disk_of (and_then (λ d. ended (r, set_entry p e d)) made))
  disk_of-AgreesAt r p e (ended d) inside h = find-set_inside root p q e d inside outside ∙ h
  disk_of-AgreesAt r p e (tool_error m) inside h = tt
  disk_of-AgreesAt r p e os_error inside h = tt

  write_at-AgreesAt :
      (py : Python) (resolve_path : Disk → Location → Text → Location) (relative content : Text)
      (p : Location)
      → is_inside root p ≡ true
      → (find_entry p disk ≡ some directory → ⊥)
      → AgreesAt q disk (disk_of (write_at py resolve_path root relative content p disk))
  unfolding write_at
  write_at-AgreesAt py resolve_path relative content p inside new =
      disk_of-AgreesAt (wrote py resolve_path root relative content) p (file (some content))
        (make_directories (parent_of p) disk) inside
        (make_directories-AgreesAt (parent_of p) (below p inside new))

  jailed :
      (py : Python) (resolve_path : Disk → Location → Text → Location) (relative content : Text)
      → AgreesAt q disk (disk_of (file_write py resolve_path root relative content disk))
  unfolding file_write resolve
  jailed py resolve_path relative content =
      elim (Bool-cases (is_inside root (resolve_path disk root relative))) [
        | inl s ↦
            elim (Bool-cases (
              is_directory py resolve_path root
                (find_entry (resolve_path disk root relative) disk))) [
                  | inl d ↦ rw s (rw d tt)
                  | inr d ↦ rw s (
                      rw d (
                        write_at-AgreesAt py resolve_path relative content
                          (resolve_path disk root relative) s
                          (λ e. ground (arith, d, e, ap (is_directory py resolve_path root) e))))
                ]
        | inr s ↦ rw s tt
      ]

-- A write with `file_write` that returns, under a root that is a directory, leaves every entry outside
-- of the root as it was, the directories that it makes on the way included, whatever the path that it
-- is given and however the paths resolve.
pub file_write-IsJailed :
    (py : Python) (resolve_path : Disk → Location → Text → Location) (root q : Location)
    (disk : Disk) (relative content : Text)
    → find_entry root disk ≡ some directory
    → is_inside root q ≡ false
    → AgreesAt q disk (disk_of (file_write py resolve_path root relative content disk))
file_write-IsJailed py resolve_path root q disk relative content exists outside =
    jailed root q disk exists outside py resolve_path relative content

-- What `file_read` returns or raises is the same on two disks that agree on the entries inside of the
-- root, provided that the path resolves alike on both: beyond where the links lead, it tells nothing
-- about what is outside.
pub file_read-IsJailed :
    (py : Python) (resolve_path : Disk → Location → Text → Location) (root : Location)
    (disk other : Disk) (relative : Text)
    → resolve_path disk root relative ≡ resolve_path other root relative
    → ((p : Location) → is_inside root p ≡ true → find_entry p disk ≡ find_entry p other)
    → file_read py resolve_path root relative disk ≡ file_read py resolve_path root relative other
unfolding file_read resolve
file_read-IsJailed py resolve_path root disk other relative alike agree =
    elim (Bool-cases (is_inside root (resolve_path other root relative))) [
      | inl s ↦ rw (alike, s) (rw (agree (resolve_path other root relative) s) refl)
      | inr s ↦ rw (alike, s) refl
    ]
