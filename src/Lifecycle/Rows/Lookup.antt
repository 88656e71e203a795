-- ===== src/Lifecycle/Rows/Lookup.antt =====
-- The row of a practice after rows are deleted or inserted.
use lorelum.Prelude.{
  ℕ, ◌≡◌, refl, ◌∙◌, Bool, Bool-cases, false, Option, none, some, List, [], ◌∷◌, ◌++◌,
  if◌then◌else◌, Text, text_eq, text_eq_sound, find, keep, any, >>=-ok, ok_inj, inl, inr, arith, ap,
}
use lorelum.LocalStore.Effective.{EffectivePractice}
use lorelum.Lifecycle.Rows.{
  ok, Result, cannot_write, PracticeRow, SourceRow, row_of, is_row, insert_sources,
  insert_effective_practice_rows, refuse,
}

abbrev pub is_practice : Text → EffectivePractice → Bool
is_practice id e = text_eq e.practice_id id

abbrev pub or_else {ℓ} : {A : Type ℓ} → Option A → Option A → Option A
or_else none b = b
or_else (some a) b = some a

find-append :
    (p : PracticeRow → Bool) (xs ys : List PracticeRow)
    → find p (xs ++ ys) ≡ or_else (find p xs) (find p ys)
unfolding find
find-append p [] ys = refl
find-append p (x ∷ xs) ys = ground (arith, find-append p xs ys)

-- Rows that are kept by their practice's id.
pub find-keep :
    (p : Text → Bool) (id : Text) (rows : List PracticeRow)
    → find (is_row id) (keep (λ r. p r.practice_id) rows)
      ≡ (if p id then find (is_row id) rows else none)
unfolding find keep
find-keep p id [] = ground arith
find-keep p id (r ∷ rs) =
    let rest = find-keep p id rs in
    elim (Bool-cases (text_eq r.practice_id id)) [
      | inl same ↦ let e = ap p (text_eq_sound r.practice_id id same) in ground arith
      | inr other ↦ ground arith
    ]

-- What an insertion of practices makes of the row of one of them.
abbrev pub IsWritten :
    (EffectivePractice → Result ℕ) → Option EffectivePractice → Option PracticeRow → Type 0
IsWritten revision_for none row = row ≡ none
IsWritten revision_for (some e) row =
    (revision : ℕ) × (revision_for e ≡ ok revision) × (row ≡ some (row_of e revision))

-- One insertion, taken apart.
insert-cons :
    (revision_for : EffectivePractice → Result ℕ) (e : EffectivePractice)
    (es : List EffectivePractice) (rows : List PracticeRow) (sources : List SourceRow)
    (written : List PracticeRow × List SourceRow)
    → insert_effective_practice_rows revision_for (e ∷ es) rows sources ≡ ok written
    → (revision : ℕ) × (more : List SourceRow) × (revision_for e ≡ ok revision)
      × (insert_effective_practice_rows revision_for es (rows ++ row_of e revision ∷ []) more
          ≡ ok written)
unfolding insert_effective_practice_rows
insert-cons revision_for e es rows sources written h =
    let (revision, a, h1) = >>=-ok (revision_for e) _ h in
    let (free, b, h2) = >>=-ok (refuse (any (is_row e.practice_id) rows) cannot_write) _ h1 in
    let (more, c, h3) = >>=-ok (insert_sources e.sources sources) _ h2 in (revision, more, a, h3)

pub insert-found :
    (revision_for : EffectivePractice → Result ℕ) (id : Text) (r : PracticeRow)
    (es : List EffectivePractice) (rows : List PracticeRow) (sources : List SourceRow)
    (written : List PracticeRow × List SourceRow)
    → insert_effective_practice_rows revision_for es rows sources ≡ ok written
    → find (is_row id) rows ≡ some r
    → find (is_row id) written.0 ≡ some r
unfolding insert_effective_practice_rows
insert-found revision_for id r [] rows sources written h found = rw (← ok_inj h) found
insert-found revision_for id r (e ∷ es) rows sources written h found =
    let (revision, more, a, rest) = insert-cons revision_for e es rows sources written h in
    insert-found revision_for id r es (rows ++ row_of e revision ∷ []) more written rest
      (find-append (is_row id) rows (row_of e revision ∷ []) ∙ rw found refl)

pub insert-IsWritten :
    (revision_for : EffectivePractice → Result ℕ) (id : Text) (es : List EffectivePractice)
    (rows : List PracticeRow) (sources : List SourceRow)
    (written : List PracticeRow × List SourceRow)
    → insert_effective_practice_rows revision_for es rows sources ≡ ok written
    → find (is_row id) rows ≡ none
    → IsWritten revision_for (find (is_practice id) es) (find (is_row id) written.0)
unfolding insert_effective_practice_rows find
insert-IsWritten revision_for id [] rows sources written h free = rw (← ok_inj h) free
insert-IsWritten revision_for id (e ∷ es) rows sources written h free =
    let (revision, more, a, rest) = insert-cons revision_for e es rows sources written h in
    let next = find-append (is_row id) rows (row_of e revision ∷ []) in
    elim (Bool-cases (text_eq e.practice_id id)) [
      | inl same ↦ rw same (
        revision,
        a,
        insert-found revision_for id (row_of e revision) es (rows ++ row_of e revision ∷ []) more
            written rest (next ∙ rw (free, same) refl),
      )
      | inr other ↦ rw other (
          insert-IsWritten revision_for id es (rows ++ row_of e revision ∷ []) more written rest
            (next ∙ rw (free, other) refl))
    ]

-- Practices of other ids leave the row.
pub insert-unlisted :
    (revision_for : EffectivePractice → Result ℕ) (id : Text) (es : List EffectivePractice)
    (rows : List PracticeRow) (sources : List SourceRow)
    (written : List PracticeRow × List SourceRow)
    → insert_effective_practice_rows revision_for es rows sources ≡ ok written
    → any (is_practice id) es ≡ false
    → find (is_row id) written.0 ≡ find (is_row id) rows
unfolding insert_effective_practice_rows any find
insert-unlisted revision_for id [] rows sources written h other = rw (← ok_inj h) refl
insert-unlisted revision_for id (e ∷ es) rows sources written h other =
    let (revision, more, a, rest) = insert-cons revision_for e es rows sources written h in
    let next = find-append (is_row id) rows (row_of e revision ∷ []) in
    insert-unlisted revision_for id es (rows ++ row_of e revision ∷ []) more written rest
      (ground arith)
    ∙ next
    ∙ last (find (is_row id) rows) (row_of e revision) (ground arith)
  where
    last :
        (o : Option PracticeRow) (r : PracticeRow)
        → is_row id r ≡ false
        → or_else o (find (is_row id) (r ∷ [])) ≡ o
    last none r k = rw k refl
    last (some s) r k = refl
