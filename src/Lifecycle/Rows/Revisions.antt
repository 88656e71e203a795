-- ===== src/Lifecycle/Rows/Revisions.antt =====
-- Which revision the row of a practice carries after a change.
use lorelum.Prelude.{
  ℕ, ◌≡◌, ◌⊎◌, refl, sym, ap, ◌∙◌, subst, Bool-cases, true, false, ◌&&◌, Option, Option-cases, none,
  some, some_inj, List, [], ◌∷◌, Text, text_eq, text_eq_sound, text_lt, contains, find, keep, sort,
  ok_inj, inl, inr, arith,
}
use lorelum.LocalStore.Effective.{EffectivePractice, Hashing}
use lorelum.Lifecycle.Rows.{ok, PracticeRow, Database, DerivedStoreState, IncrementalState, is_row}
use lorelum.Lifecycle.Rows.Writes.{revision_for, changed_practice, apply_incremental_derived_state}
use lorelum.Lifecycle.Rows.Lookup.{find-keep, IsWritten}
use lorelum.Lifecycle.Rows.Refinement.{view_of, IsIncrement-parts, increment-row}
use lorelum.Runtime.Activity.Sets.{contains-sort}

revision_for-cases :
    (state : DerivedStoreState) (prior : List PracticeRow) (e : EffectivePractice) (n : ℕ)
    → revision_for state prior e ≡ ok n
    → ((changed_practice state.revision_log_delta e.practice_id ≡ true)
        × (n ≡ state.effective_revision))
      ⊎ ((changed_practice state.revision_log_delta e.practice_id ≡ false)
          × (old : PracticeRow) × (find (is_row e.practice_id) prior ≡ some old)
          × (n ≡ old.effective_revision))
unfolding revision_for
revision_for-cases state prior e n h =
    elim (Bool-cases (changed_practice state.revision_log_delta e.practice_id)) [
      | inl changed ↦ inl (changed, sym (ok_inj (rw changed at h)))
      | inr same ↦
          let h1 = rw same at h in
          elim (Option-cases (find (is_row e.practice_id) prior)) [
            | inl absent ↦ let wrong = rw absent at h1 in ground arith
            | inr (old, there) ↦ inr (same, old, there, sym (ok_inj (rw there at h1)))
          ]
    ]

find-id :
    (id : Text) (es : List EffectivePractice) (e : EffectivePractice)
    → view_of es id ≡ some e
    → e.practice_id ≡ id
unfolding find
find-id id [] e h = ground arith
find-id id (x ∷ xs) e h = elim (Bool-cases (text_eq x.practice_id id)) [
  | inl same ↦
      let found = some_inj (rw same at h) in
      ap (λ p. p.practice_id) (sym found) ∙ text_eq_sound x.practice_id id same
  | inr other ↦ find-id id xs e (rw other at h)
]

-- An affected row that was written: its practice is changed, or it has its old revision.
written-revision :
    (state : DerivedStoreState) (ids : List Text) (rows : List PracticeRow) (id : Text)
    (o : Option EffectivePractice) (r : PracticeRow)
    → view_of state.effective_practices id ≡ o
    → contains id ids ≡ true
    → IsWritten (revision_for state (keep (λ x. contains x.practice_id ids) rows)) o (some r)
    → ((changed_practice state.revision_log_delta id ≡ true)
        × (r.effective_revision ≡ state.effective_revision))
      ⊎ ((changed_practice state.revision_log_delta id ≡ false)
          × (old : PracticeRow) × (find (is_row id) rows ≡ some old)
          × (r.effective_revision ≡ old.effective_revision))
written-revision state ids rows id none r v hit w = ground arith
written-revision state ids rows id (some e) r v hit (n, chosen, made) =
    let same = find-id id state.effective_practices e v in
    let as_row = ap (λ x. x.effective_revision) (some_inj made) in
    elim (revision_for-cases state (keep (λ x. contains x.practice_id ids) rows) e n chosen) [
      | inl (changed, new) ↦ inl (
        subst (λ x. changed_practice state.revision_log_delta x ≡ true) same changed,
        as_row ∙ new,
      )
      | inr (kept, old, there, its) ↦ inr (
        subst (λ x. changed_practice state.revision_log_delta x ≡ false) same kept,
        old,
        (sym (find-keep (λ x. contains x ids) id rows ∙ rw hit refl)
            ∙ subst (λ x. find (is_row x) (keep (λ y. contains y.practice_id ids) rows) ≡ some old)
                same there),
        as_row ∙ its,
      )
    ]

-- After an incremental write that succeeds, a practice's row carries the new effective revision if the
-- id is affected and the change's delta lists it as added or changed. Any other row that is there was
-- there before, and carries the revision that it had.
pub incremental_revisions :
    (h : Hashing) (incremental : IncrementalState) (db next : Database) (id : Text)
    (r : PracticeRow)
    → apply_incremental_derived_state h incremental db ≡ ok next
    → find (is_row id) next.practices ≡ some r
    → (((contains id incremental.affected_practice_ids
            && changed_practice incremental.derived.revision_log_delta id)
          ≡ true)
        × (r.effective_revision ≡ incremental.derived.effective_revision))
      ⊎ (((contains id incremental.affected_practice_ids
              && changed_practice incremental.derived.revision_log_delta id)
            ≡ false)
          × (old : PracticeRow) × (find (is_row id) db.practices ≡ some old)
          × (r.effective_revision ≡ old.effective_revision))
incremental_revisions h incremental db next id r e found =
    let ids = sort text_lt incremental.affected_practice_ids in
    let listed = contains-sort id incremental.affected_practice_ids in
    elim (increment-row incremental db next ids id (IsIncrement-parts h incremental db next e)) [
      | inl (hit, written) ↦
          let w =
            subst
              (λ o.
                IsWritten
                  (revision_for incremental.derived
                    (keep (λ x. contains x.practice_id ids) db.practices))
                  (view_of incremental.derived.effective_practices id) o)
              found written in
          let affected = sym listed ∙ hit in
          elim (written-revision incremental.derived ids db.practices id
            (view_of incremental.derived.effective_practices id) r refl hit w) [
              | inl (changed, new) ↦ inl (rw affected changed, new)
              | inr (kept, old, there, its) ↦ inr (rw affected kept, old, there, its)
            ]
      | inr (miss, same) ↦
          let unaffected = sym listed ∙ miss in inr (rw unaffected refl, r, sym same ∙ found, refl)
    ]
