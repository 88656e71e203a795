-- ===== src/Lifecycle/Recovery/Agreement.antt =====
-- What every recovery that succeeds has established, and where it cannot succeed.
use lorelum.Prelude.{
  >>=-ok, ◌≡◌, ◌⊎◌, inl, inr, refl, ap, subst, Bool-cases, true, Option, none, some, List, [], ◌∷◌,
  Text, text_eq_refl, find, all, keep, sort, insert, arith,
}
use lorelum.Lifecycle.Store.{
  Store, Manifest, Tuple, Journal, Formats, ok, err, recovery_required, ◌>>=◌, manifest_valid,
  tuple_of, tuple_equals, empty_manifest, write_manifest, sync_current_pack_locators,
  clear_operation_journal, present, links_of, distinct_names, ordered,
}
use lorelum.Lifecycle.Recovery.{
  RecoveryResult, list_operation_journals, read_operation_journal, try_read_manifest, restore,
  converge, reconcile_journal, reconcile_all, verify, run_store_recovery,
}

-- The manifest that a recovery returns is the one in the file with SQLite's tuple, or the empty one
-- where neither file was ever written; the links are those of its entries.
abbrev pub HasAgreed : Store → RecoveryResult → Type 0
HasAgreed s r =
    (((s.manifest ≡ some r.manifest) × (r.metadata ≡ some (tuple_of r.manifest)))
      ⊎ ((s.manifest ≡ none) × (r.manifest ≡ empty_manifest) × (r.metadata ≡ none)))
    × (s.metadata ≡ r.metadata)
    × (s.locators ≡ links_of r.manifest.packs)
    × (all (present s.artifacts) r.manifest.packs ≡ true)

tuple_eq : (t : Tuple) (m : Manifest) → tuple_equals t (tuple_of m) ≡ true → t ≡ tuple_of m
tuple_eq t m h = ground arith

-- What linking leaves.
abbrev linked_to : Manifest → Store → Store
linked_to m s = record {
  manifest = s.manifest;
  metadata = s.metadata;
  active_packs = s.active_packs;
  journals = s.journals;
  artifacts = s.artifacts;
  locators = links_of m.packs;
}

sync-then :
    (m : Manifest) (s t : Store) (q r : RecoveryResult)
    → ◌>>=◌ {B = Store × RecoveryResult} (sync_current_pack_locators m s) (λ x. ok (x, q))
      ≡ ok (t, r)
    → (all (present s.artifacts) m.packs ≡ true) × (linked_to m s ≡ t) × (q ≡ r)
unfolding sync_current_pack_locators
sync-then m s t q r h = ground arith

moved :
    (m : Manifest) (s t : Store) (q r : RecoveryResult)
    → linked_to m s ≡ t
    → q ≡ r
    → HasAgreed (linked_to m s) q
    → HasAgreed t r
moved m s t q r l e a = subst (λ x. HasAgreed x r) l (subst (HasAgreed (linked_to m s)) e a)

verify-agreed :
    (m : Option Manifest) (d : Option Tuple) (s t : Store) (r : RecoveryResult)
    → s.manifest ≡ m
    → s.metadata ≡ d
    → verify m d s ≡ ok (t, r)
    → HasAgreed t r
unfolding verify
verify-agreed none none s t r em ed e =
    let (p, l, q) =
      sync-then empty_manifest s t (record { manifest = empty_manifest; metadata = none }) r e in
    moved empty_manifest s t (record { manifest = empty_manifest; metadata = none }) r l q
      (inr (em, refl, refl), ed, refl, p)
verify-agreed none (some d) s t r em ed e = ground arith
verify-agreed (some m) none s t r em ed e = ground arith
verify-agreed (some m) (some d) s t r em ed e = elim (Bool-cases (tuple_equals d (tuple_of m))) [
  | inl same ↦
      let (p, l, q) =
        sync-then m s t (record { manifest = m; metadata = some d }) r (rw same at e) in
      moved m s t (record { manifest = m; metadata = some d }) r l q
        (inl (em, ap some (tuple_eq d m same)), ed, refl, p)
  | inr differ ↦ let h = rw differ at e in ground arith
]

read-same : (f : Formats) (o m : Option Manifest) → try_read_manifest f o ≡ ok m → o ≡ m
unfolding try_read_manifest
read-same f none m h = ground arith
read-same f (some x) m h = ground arith

-- Every recovery that succeeds, with any journals and files before it: the manifest that it returns
-- stands in the manifest file and its tuple in SQLite, or neither was ever written and it is the
-- empty one; the links are exactly those of its entries, and each entry's artifact is there.
pub run_store_recovery_agrees :
    (f : Formats) (s t : Store) (r : RecoveryResult)
    → run_store_recovery f s ≡ ok (t, r)
    → HasAgreed t r
unfolding run_store_recovery
run_store_recovery_agrees f s t r e =
    let (c, converged, e1) = >>=-ok (reconcile_all f (list_operation_journals s) s) _ e in
    let (m, reading, e2) = >>=-ok (try_read_manifest f c.manifest) _ e1 in
    verify-agreed m c.metadata c t r (read-same f c.manifest m reading) refl e2

-- A first installation on a fresh Store, stopped between its journal and its SQLite commit.
abbrev pub first_interrupted :
    Journal → Option Manifest → List (Text × Text) → List (Text × Text) → Store
first_interrupted j active stored links = record {
  manifest = active;
  metadata = none;
  active_packs = [];
  journals = j ∷ [];
  artifacts = stored;
  locators = links;
}

abbrev pub first_journal : Text → Manifest → Journal
first_journal id target = record {
  operation_id = id;
  old_manifest = empty_manifest;
  target_manifest = target;
}

-- Where the first installation on a fresh Store was interrupted before its SQLite commit, whatever
-- its target, and whether or not the manifest file was written: recovery clears the journal and
-- publishes the empty manifest, then fails for the manifest that it has just written; and so does
-- every recovery of the Store that it leaves.
pub first_install_crash_stuck :
    (f : Formats) (id : Text) (target : Manifest) (active : Option Manifest)
    (stored links : List (Text × Text))
    → manifest_valid f target ≡ true
    → (run_store_recovery f (first_interrupted (first_journal id target) active stored links)
        ≡ err recovery_required)
      × (reconcile_all f (id ∷ []) (first_interrupted (first_journal id target) active stored links)
          ≡ ok (record {
            manifest = some empty_manifest;
            metadata = none;
            active_packs = [];
            journals = [];
            artifacts = stored;
            locators = [];
          }))
      × (run_store_recovery f (record {
        manifest = some empty_manifest;
        metadata = none;
        active_packs = [];
        journals = [];
        artifacts = stored;
        locators = [];
      })
          ≡ err recovery_required)
unfolding run_store_recovery list_operation_journals sort insert reconcile_all reconcile_journal
    read_operation_journal find converge restore write_manifest clear_operation_journal keep
    try_read_manifest verify sync_current_pack_locators all
first_install_crash_stuck f id target active stored links w =
    let empty_valid : manifest_valid f empty_manifest ≡ true = valid_empty in
    (
      rw (text_eq_refl id, empty_valid, w, empty_valid, text_eq_refl id, empty_valid) refl,
      rw (text_eq_refl id, empty_valid, w, empty_valid, text_eq_refl id) refl,
      rw empty_valid refl,
    )
  where
    valid_empty : manifest_valid f empty_manifest ≡ true
    valid_empty = unfold manifest_valid in unfold distinct_names in unfold ordered in refl
