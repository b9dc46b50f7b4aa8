-- ===== src/Recovery/Integrity/Clear.antt =====
-- The detail that an integrity check gives tells whether the store is sound.
use atlas_the_agent.Base.{
  ℕ, ◌≡◌, refl, not, ◌||◌, Bool, true, false, Option, none, some, List, [], ◌∷◌, ◌++◌, Text, codes,
  eqb, is_empty, same_texts, arith, if◌then◌else◌,
}
use atlas_the_agent.Recovery.Integrity.{
  Answers, Checked, reported, integrity_error, unavailable, join_rows, or_failed, report_of,
  conclude_check, check_rows, check_integrity,
}

-- A detail that is there, and is "ok" exactly if the store is.
abbrev pub Tells : Bool → Text → Type 0
Tells ok detail = (eqb detail (codes "ok") ≡ ok) × (is_empty detail ≡ false)

-- With `raise_on_error` a report that comes back is one of a sound store.
abbrev pub IsClear : Bool → Checked → Type 0
IsClear raise_on_error (reported r) =
    Tells r.quick_check_ok r.detail × ((not raise_on_error || r.quick_check_ok) ≡ true)
IsClear raise_on_error (integrity_error detail) = Tells false detail × (raise_on_error ≡ true)
IsClear raise_on_error unavailable = Unit

eqb-semicolon : (r s : Text) → eqb (r ++ (codes "; " ++ s)) (codes "ok") ≡ false
eqb-semicolon [] s = refl
eqb-semicolon (c ∷ []) s = ground arith
eqb-semicolon (c ∷ d ∷ []) s = ground arith
eqb-semicolon (c ∷ d ∷ e ∷ r) s = ground arith

Tells-failed : (s : Text) → eqb s (codes "ok") ≡ false → Tells false (or_failed s)
Tells-failed [] h = (refl, refl)
Tells-failed (c ∷ s) h = (h, refl)

eqb-join_rows :
    (rows : List Text)
    → same_texts rows (codes "ok" ∷ []) ≡ false
    → eqb (join_rows rows) (codes "ok") ≡ false
unfolding join_rows
eqb-join_rows [] h = refl
eqb-join_rows (r ∷ []) h = ground (arith, h)
eqb-join_rows (r ∷ s ∷ rows) h = eqb-semicolon r (join_rows (s ∷ rows))

if-Tells :
    (b : Bool) (good bad : Text)
    → Tells true good
    → (b ≡ false → Tells false bad)
    → Tells b (if b then good else bad)
if-Tells true good bad h k = h
if-Tells false good bad h k = k refl

report_of-Tells :
    (rows : List Text) (counts : Option (ℕ × ℕ))
    → Tells (report_of rows counts).quick_check_ok (report_of rows counts).detail
unfolding report_of
report_of-Tells rows counts =
    if-Tells (same_texts rows (codes "ok" ∷ [])) (codes "ok") (or_failed (join_rows rows))
      (refl, refl) (λ bad. Tells-failed (join_rows rows) (eqb-join_rows rows bad))

conclude_check-IsClear :
    (raise_on_error quick sync : Bool) (detail : Text)
    → Tells quick detail
    → IsClear raise_on_error (
        conclude_check raise_on_error
          (record { quick_check_ok = quick; fts_in_sync = sync; detail = detail }))
conclude_check-IsClear true true sync detail h = (h, refl)
conclude_check-IsClear false true sync detail h = (h, refl)
conclude_check-IsClear true false sync detail h = (h, refl)
conclude_check-IsClear false false sync detail h = (h, refl)

check_rows-IsClear :
    (raise_on_error : Bool) (counts : Option (ℕ × ℕ)) (rows : Option (List Text))
    → IsClear raise_on_error (check_rows raise_on_error counts rows)
check_rows-IsClear raise_on_error counts none = tt
check_rows-IsClear raise_on_error counts (some rows) =
    conclude_check-IsClear raise_on_error _ _ _ (report_of-Tells rows counts)

-- Whatever SQLite answers, the detail of the report or of the IntegrityError is not empty, and it
-- is "ok" in a report whose quick check is ok, and only there. With raise_on_error every report that
-- is returned is one of these, and without it no IntegrityError is raised.
pub check_integrity-IsClear :
    (raise_on_error : Bool) (a : Answers)
    → IsClear raise_on_error (check_integrity raise_on_error a)
unfolding check_integrity
check_integrity-IsClear raise_on_error a = check_rows-IsClear raise_on_error a.counts a.rows
