-- ===== src/Lifecycle/Rows/Refinement.antt =====
-- The rows against what they stand for: for each practice id, the practice that is in effect.
use lorelum.Prelude.{
  ℕ, ◌≡◌, ◌⊎◌, refl, sym, ap, ◌∙◌, subst, Bool, Bool-cases, true, false, not, Option, none, some,
  List, [], ◌∷◌, if◌then◌else◌, Text, text_eq, text_eq_sound, text_lt, contains, find, keep, any,
  all, sort, leb, >>=-ok, ok_inj, inl, inr, arith,
}
use lorelum.LocalStore.Effective.{EffectivePractice, Hashing}
use lorelum.Lifecycle.Store.{Tuple, max_safe_integer}
use lorelum.Lifecycle.Rows.{
  ok, refuse, Result, StateError, PracticeRow, SourceRow, Database, DerivedStoreState,
  IncrementalState, assert_state_is_coherent, row_of, is_row, insert_effective_practice_rows,
  outside_affected, affected_not_unique, malformed_revision,
}
use lorelum.Lifecycle.Rows.Writes.{
  write_revision_records, log_after, insert_packs, write_derived_state, distinct, unique_sorted_ids,
  row_revisions, revision_for, sources_left, apply_incremental_derived_state,
}
use lorelum.Lifecycle.Rows.Lookup.{
  is_practice, find-keep, IsWritten, insert-IsWritten, insert-unlisted,
}
use lorelum.Runtime.Activity.Sets.{contains-sort}

-- What a row tells of its practice, the revision aside.
abbrev pub content : Option PracticeRow → Option PracticeRow
content none = none
content (some r) = some (record r { effective_revision = 0 })

abbrev pub row_content : Option EffectivePractice → Option PracticeRow
row_content none = none
row_content (some e) = some (row_of e 0)

-- The abstract state: the practice in effect under each id.
abbrev pub View : Type 0
View = Text → Option EffectivePractice

abbrev pub view_of : List EffectivePractice → View
view_of practices id = find (is_practice id) practices

-- The rows stand for the view.
abbrev pub Represents : Database → View → Type 0
Represents db view = (id : Text) → content (find (is_row id) db.practices) ≡ row_content (view id)

-- The abstract change: the affected ids have what the change gives, the others what they had.
abbrev pub updated : IncrementalState → View → View
updated incremental view id =
    if contains id incremental.affected_practice_ids
    then view_of incremental.derived.effective_practices id
    else view id

abbrev pub tuple_of_state : DerivedStoreState → Option Tuple
tuple_of_state state =
    some (record { generation = state.generation; effective_revision = state.effective_revision })

write_revision_records-keeps :
    (state : DerivedStoreState) (db next : Database)
    → write_revision_records state db ≡ ok next
    → (next.practices ≡ db.practices) × (next.metadata ≡ db.metadata)
unfolding write_revision_records
write_revision_records-keeps state db next h =
    let (log, a, made) = >>=-ok (log_after state db.revision_log) _ h in
    (rw (← ok_inj made) refl, rw (← ok_inj made) refl)

written-content :
    (revision_for : EffectivePractice → Result ℕ) (o : Option EffectivePractice)
    (r : Option PracticeRow)
    → IsWritten revision_for o r
    → content r ≡ row_content o
written-content revision_for none r w = rw w refl
written-content revision_for (some e) r (n, a, w) = rw w refl

-- A full rebuild stands for the practices that it is given, at their tuple.
pub rebuild-Represents :
    (h : Hashing) (state : DerivedStoreState) (db next : Database)
    → write_derived_state h state db ≡ ok next
    → Represents next (view_of state.effective_practices) × (next.metadata ≡ tuple_of_state state)
unfolding write_derived_state find
rebuild-Represents h state db next e =
    let (u, a, e1) = >>=-ok (assert_state_is_coherent h state) _ e in
    let (packs, b, e2) = >>=-ok (insert_packs [] state.active_packs) _ e1 in
    let (written, c, e3) =
      >>=-ok
        (insert_effective_practice_rows (λ p. ok state.effective_revision) state.effective_practices
          [] [])
        _ e2 in
    let (kept, tuple) = write_revision_records-keeps state _ next e3 in
    (
      λ id.
          ap (λ rows. content (find (is_row id) rows)) kept
          ∙ written-content (λ p. ok state.effective_revision)
              (view_of state.effective_practices id) (find (is_row id) written.0)
              (insert-IsWritten (λ p. ok state.effective_revision) id state.effective_practices []
                [] written c refl),
      tuple,
    )

refuse-passed : (test : Bool) (e : StateError) (u : Unit {0}) → refuse test e ≡ ok u → test ≡ false
refuse-passed false e u h = refl
refuse-passed true e u h = ground arith

-- What a successful incremental write went through, with the sorted ids.
abbrev pub IsIncrement : IncrementalState → Database → Database → List Text → Type 0
IsIncrement incremental db next ids =
    (written : List PracticeRow × List SourceRow) × (any (λ e. not (contains e.practice_id ids))
        incremental.derived.effective_practices
      ≡ false)
    × (insert_effective_practice_rows
          (revision_for incremental.derived (keep (λ r. contains r.practice_id ids) db.practices))
          incremental.derived.effective_practices
          (keep (λ r. not (contains r.practice_id ids)) db.practices)
          (sources_left incremental.active_pack_mutation ids db.sources)
        ≡ ok written)
    × (next.practices ≡ written.0)
    × (next.metadata ≡ tuple_of_state incremental.derived)

pub IsIncrement-parts :
    (h : Hashing) (incremental : IncrementalState) (db next : Database)
    → apply_incremental_derived_state h incremental db ≡ ok next
    → IsIncrement incremental db next (sort text_lt incremental.affected_practice_ids)
unfolding apply_incremental_derived_state unique_sorted_ids row_revisions
IsIncrement-parts h incremental db next e =
    let state = incremental.derived in
    let ids = sort text_lt incremental.affected_practice_ids in
    let found = keep (λ r. contains r.practice_id ids) db.practices in
    let (u, a, e1) = >>=-ok (assert_state_is_coherent h state) _ e in
    let (given, b, e2) = >>=-ok (unique_sorted_ids incremental.affected_practice_ids) _ e1 in
    let (once, b1, b2) =
      >>=-ok (refuse (not (distinct incremental.affected_practice_ids)) affected_not_unique) _ b in
    let e3 = rw (← ok_inj b2) at e2 in
    let (inside, c, e4) =
      >>=-ok
        (refuse (any (λ e. not (contains e.practice_id ids)) state.effective_practices)
          outside_affected)
        _ e3 in
    let (prior, d, e5) = >>=-ok (row_revisions db.practices ids) _ e4 in
    let (exact, d1, d2) =
      >>=-ok
        (refuse (not (all (λ r. leb r.effective_revision max_safe_integer) found))
          malformed_revision)
        _ d in
    let e6 = rw (← ok_inj d2) at e5 in
    let (written, f, e7) =
      >>=-ok
        (insert_effective_practice_rows (revision_for state found) state.effective_practices
          (keep (λ r. not (contains r.practice_id ids)) db.practices)
          (sources_left incremental.active_pack_mutation ids db.sources))
        _ e6 in
    let (kept, tuple) = write_revision_records-keeps state _ next e7 in
    (
      written,
      refuse-passed (any (λ e. not (contains e.practice_id ids)) state.effective_practices)
          outside_affected inside c,
      f,
      kept,
      tuple,
    )

-- Practices all of which are affected have no id that is not.
unaffected-absent :
    (ids : List Text) (id : Text) (es : List EffectivePractice)
    → contains id ids ≡ false
    → any (λ e. not (contains e.practice_id ids)) es ≡ false
    → any (is_practice id) es ≡ false
unfolding any
unaffected-absent ids id [] h inside = refl
unaffected-absent ids id (e ∷ es) h inside =
    let rest = unaffected-absent ids id es h in
    elim (Bool-cases (text_eq e.practice_id id)) [
      | inl same ↦
          let k = ap (λ x. contains x ids) (text_eq_sound e.practice_id id same) in ground arith
      | inr other ↦ ground arith
    ]

-- The row of an id after an increment.
pub increment-row :
    (incremental : IncrementalState) (db next : Database) (ids : List Text) (id : Text)
    → IsIncrement incremental db next ids
    → ((contains id ids ≡ true)
        × IsWritten
            (revision_for incremental.derived (keep (λ r. contains r.practice_id ids) db.practices))
            (view_of incremental.derived.effective_practices id)
            (find (is_row id) next.practices))
      ⊎ ((contains id ids ≡ false)
          × (find (is_row id) next.practices ≡ find (is_row id) db.practices))
increment-row incremental db next ids id (written, inside, made, kept, tuple) =
    let state = incremental.derived in
    let left = keep (λ r. not (contains r.practice_id ids)) db.practices in
    let found = find-keep (λ x. not (contains x ids)) id db.practices in
    let rows = keep (λ r. contains r.practice_id ids) db.practices in
    let sources = sources_left incremental.active_pack_mutation ids db.sources in
    elim (Bool-cases (contains id ids)) [
      | inl hit ↦ inl (
        hit,
        subst
            (λ ps.
              IsWritten (revision_for state rows) (view_of state.effective_practices id)
                (find (is_row id) ps))
            (sym kept)
            (insert-IsWritten (revision_for state rows) id state.effective_practices left sources
              written made (found ∙ rw hit refl)),
      )
      | inr miss ↦ inr (
        miss,
        ap (λ ps. find (is_row id) ps) kept
            ∙ insert-unlisted (revision_for state rows) id state.effective_practices left sources
                written made (unaffected-absent ids id state.effective_practices miss inside)
            ∙ found
            ∙ rw miss refl,
      )
    ]

increment-Represents :
    (h : Hashing) (incremental : IncrementalState) (db next : Database) (view : View)
    → apply_incremental_derived_state h incremental db ≡ ok next
    → Represents db view
    → Represents next (updated incremental view)
      × (next.metadata ≡ tuple_of_state incremental.derived)
increment-Represents h incremental db next view e before =
    let ids = sort text_lt incremental.affected_practice_ids in
    let parts = IsIncrement-parts h incremental db next e in
    let (written_rows, inside, made, kept, tuple) = parts in
    (
      λ id.
          let listed = contains-sort id incremental.affected_practice_ids in
          elim (increment-row incremental db next ids id parts) [
            | inl (hit, written) ↦
                written-content
                  (revision_for incremental.derived
                    (keep (λ r. contains r.practice_id ids) db.practices))
                  (view_of incremental.derived.effective_practices id)
                  (find (is_row id) next.practices) written
                ∙ rw (← listed, hit) refl
            | inr (miss, same) ↦ ap content same ∙ before id ∙ rw (← listed, miss) refl
          ],
      tuple,
    )

-- The rows refine a map from ids to practices. A full rebuild that succeeds gives rows that stand for
-- its practices, whatever was there. From rows that stand for a map, an incremental write that
-- succeeds gives rows that stand for the map with the affected ids replaced by its practices, and the
-- others as they were. Each leaves the tuple of its own state.
pub practice_rows_refine :
    (h : Hashing) (state : DerivedStoreState) (incremental : IncrementalState) (view : View)
    (db rebuilt next : Database)
    → write_derived_state h state db ≡ ok rebuilt
    → apply_incremental_derived_state h incremental db ≡ ok next
    → Represents db view
    → (Represents rebuilt (view_of state.effective_practices)
        × (rebuilt.metadata ≡ tuple_of_state state))
      × (Represents next (updated incremental view)
          × (next.metadata ≡ tuple_of_state incremental.derived))
practice_rows_refine h state incremental view db rebuilt next full part before = (
  rebuild-Represents h state db rebuilt full,
  increment-Represents h incremental db next view part before,
)
