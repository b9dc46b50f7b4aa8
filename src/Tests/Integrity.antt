-- ===== src/Tests/Integrity.antt =====
-- The startup check of a store on concrete answers of SQLite.
use atlas_the_agent.Base.{◌≡◌, refl, true, false, some, [], ◌∷◌, codes}
use atlas_the_agent.Recovery.Integrity.{
  Answers, reported, integrity_error, join_rows, report_of, check_integrity,
}
use atlas_the_agent.Recovery.Integrity.Clear.{IsClear, check_integrity-IsClear}

abbrev corrupt : Answers
corrupt = record {
  rows = some (codes "row 3 missing" ∷ codes "wrong order" ∷ []);
  counts = some (2, 2);
}

corrupt_store : check_integrity true corrupt ≡ integrity_error (codes "row 3 missing; wrong order")
unfolding check_integrity report_of join_rows
corrupt_store = refl

-- A drift of the index is reported only.
drifted_store :
    check_integrity true (record { rows = some (codes "ok" ∷ []); counts = some (2, 1) })
    ≡ reported (record { quick_check_ok = true; fts_in_sync = false; detail = codes "ok" })
unfolding check_integrity report_of join_rows
drifted_store = refl

check_integrity-IsClear_example : IsClear true (check_integrity true corrupt)
check_integrity-IsClear_example = check_integrity-IsClear true corrupt
