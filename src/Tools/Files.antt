-- ===== src/Tools/Files.antt =====
-- backend/atlas/tools/files.py. A resolved path is the list of its components, the last one first, so
-- that the parents of a path are its tails.
pub mod Jailed
use atlas_the_agent.Base.{
  same_texts, ◌==◌, ℕ, Bool, true, false, ◌&&◌, ◌||◌, Option, none, some, List, [], ◌∷◌, ◌++◌, Text,
  codes, eqb, length, take, ltb, if◌then◌else◌,
}
use atlas_the_agent.Core.Python.{Python}
use atlas_the_agent.Tools.Registry.{ToolResult, success}

abbrev pub Location : Type 0
Location = List Text

-- `content` is `none` where the bytes are not UTF-8.
pub data Entry : Type 0 where
  file : Option Text → Entry
  directory : Entry

abbrev pub Disk : Type 0
Disk = List (Location × Entry)

unfoldable pub find_entry : Location → Disk → Option Entry
find_entry p [] = none
find_entry p ((q, e) ∷ disk) = if same_texts q p then some e else find_entry p disk

abbrev pub set_entry : Location → Entry → Disk → Disk
set_entry p e disk = (p, e) ∷ disk

-- Universal newlines, `read_text`: a carriage return, with the line feed behind it if there is one, is
-- read as a line feed. `returned` is whether the character before was a carriage return.
unfoldable pub newlines : Bool → Text → Text
newlines returned [] = []
newlines returned (c ∷ s) =
    let rest = newlines (c == 0xd) s in
    if c == 0xd then 0xa ∷ rest else (if returned && (c == 0xa) then rest else c ∷ rest)

-- How a tool ends: with a result, with `ToolError`, or with another exception.
pub data Ended (A : Type 0) : Type 0 where
  ended : A → Ended A
  tool_error : Text → Ended A
  os_error : Ended A

abbrev pub and_then : {A B : Type 0} → (A → Ended B) → Ended A → Ended B
and_then f (ended a) = f a
and_then f (tool_error m) = tool_error m
and_then f os_error = os_error

-- `candidate == root or root in candidate.parents`
unfoldable pub is_inside : Location → Location → Bool
is_inside root [] = same_texts root []
is_inside root (c ∷ up) = let above = is_inside root up in same_texts root (c ∷ up) || above

-- `path.mkdir(parents=True, exist_ok=True)`
unfoldable pub make_directories : Location → Disk → Ended Disk
unfolding find_entry
make_directories [] disk = ended disk
make_directories (c ∷ up) disk =
    let above = make_directories up disk in
    elim (find_entry (c ∷ up) disk) [
      | some e ↦ elim e [ directory ↦ ended disk | file t ↦ os_error ]
      | none ↦ and_then (λ d. ended (set_entry (c ∷ up) directory d)) above
    ]

abbrev pub parent_of : Location → Location
parent_of [] = []
parent_of (c ∷ up) = up

-- `(self._root / relative).resolve()` follows the links of the disk: it is a parameter.
module _ (py : Python) (resolve_path : Disk → Location → Text → Location) (root : Location) where
  -- `_Workspace.resolve`
  unfoldable pub resolve : Text → Disk → Ended Location
  unfolding is_inside
  resolve relative disk =
      let candidate = resolve_path disk root relative in
      if is_inside root candidate
      then ended candidate
      else tool_error (
          codes "Path "
          ++ (py.repr relative ++ codes " escapes the workspace jail; access denied."))

  abbrev not_found : Text → Text
  not_found relative = codes "File not found: " ++ (py.repr relative ++ codes ".")

  abbrev cut_text : Text → Text
  cut_text text =
      if ltb 20000 (length text)
      then take 20000 text ++ (0xa ∷ 0x2026 ∷ codes "[truncated]")
      else text

  -- What is read of an entry.
  abbrev pub read_entry : Text → Option Entry → Ended ToolResult
  read_entry relative none = tool_error (not_found relative)
  read_entry relative (some directory) = tool_error (not_found relative)
  read_entry relative (some (file none)) = tool_error (codes "File is not valid UTF-8 text.")
  read_entry relative (some (file (some text))) = ended (success (cut_text (newlines false text)))

  -- `FileReadTool.run`
  unfoldable pub file_read : Text → Disk → Ended ToolResult
  unfolding resolve find_entry
  file_read relative disk =
      and_then (λ path. read_entry relative (find_entry path disk)) (resolve relative disk)

  abbrev pub wrote : Text → Text → ToolResult
  wrote relative content = success (
      codes "Wrote "
      ++ (py.show (length content) ++ (codes " chars to " ++ (relative ++ codes "."))))

  -- `path.parent.mkdir(…)` and `path.write_text(…)`
  unfoldable pub write_at : Text → Text → Location → Disk → Ended (ToolResult × Disk)
  unfolding make_directories
  write_at relative content path disk =
      and_then (λ d. ended (wrote relative content, set_entry path (file (some content)) d))
        (make_directories (parent_of path) disk)

  abbrev pub is_directory : Option Entry → Bool
  is_directory (some directory) = true
  is_directory _ = false

  -- `FileWriteTool.run`
  unfoldable pub file_write : Text → Text → Disk → Ended (ToolResult × Disk)
  unfolding resolve find_entry write_at
  file_write relative content disk =
      and_then
        (λ path.
          if is_directory (find_entry path disk)
          then tool_error (codes "Path " ++ (py.repr relative ++ codes " is a directory."))
          else write_at relative content path disk)
        (resolve relative disk)
