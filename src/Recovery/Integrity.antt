-- ===== src/Recovery/Integrity.antt =====
-- backend/atlas/recovery/integrity.py: what `check_integrity` concludes from the answers of SQLite.
-- Its log lines are left out.
pub mod Clear
use atlas_the_agent.Base.{
  ℕ, Bool, true, false, ◌&&◌, Option, none, some, List, [], ◌∷◌, ◌++◌, Text, codes, eqb, is_empty,
  same_texts, ◌==◌, if◌then◌else◌,
}

-- What the queries yield: the rows of `PRAGMA quick_check`, or `none` where it raises, and the two
-- counts, or `none` where one of them raises, as it does without FTS5.
pub record Answers : Type 0 where
  pub rows : Option (List Text)
  pub counts : Option (ℕ × ℕ)

pub record IntegrityReport : Type 0 where
  pub quick_check_ok : Bool
  pub fts_in_sync : Bool
  pub detail : Text

abbrev pub healthy : IntegrityReport → Bool
healthy r = r.quick_check_ok && r.fts_in_sync

-- How the check ends: a report, `IntegrityError`, or what the first query raises.
pub data Checked : Type 0 where
  reported : IntegrityReport → Checked
  integrity_error : Text → Checked
  unavailable : Checked

-- `"; ".join(rows)`
unfoldable pub join_rows : List Text → Text
join_rows [] = []
join_rows (r ∷ []) = r
join_rows (r ∷ s ∷ rs) = r ++ (codes "; " ++ join_rows (s ∷ rs))

abbrev pub in_sync : Option (ℕ × ℕ) → Bool
in_sync none = true
in_sync (some (memories, indexed)) = memories == indexed

-- `… or "quick_check failed"`
abbrev pub or_failed : Text → Text
or_failed [] = codes "quick_check failed"
or_failed (c ∷ s) = c ∷ s

unfoldable pub report_of : List Text → Option (ℕ × ℕ) → IntegrityReport
unfolding join_rows
report_of rows counts =
    let quick_ok = same_texts rows (codes "ok" ∷ []) in
    record {
      quick_check_ok = quick_ok;
      fts_in_sync = in_sync counts;
      detail = if quick_ok then codes "ok" else or_failed (join_rows rows);
    }

abbrev pub conclude_check : Bool → IntegrityReport → Checked
conclude_check raise_on_error r =
    if r.quick_check_ok
    then reported r
    else if raise_on_error
    then integrity_error r.detail
    else reported r

abbrev pub check_rows : Bool → Option (ℕ × ℕ) → Option (List Text) → Checked
check_rows raise_on_error counts none = unavailable
check_rows raise_on_error counts (some rows) = conclude_check raise_on_error (report_of rows counts)

unfoldable pub check_integrity : Bool → Answers → Checked
unfolding report_of
check_integrity raise_on_error a = check_rows raise_on_error a.counts a.rows
