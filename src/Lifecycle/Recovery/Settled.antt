-- ===== src/Lifecycle/Recovery/Settled.antt =====
-- Stores in which no mutation is under way, and what recovery makes of one that was interrupted.
use lorelum.Prelude.{
  ◌≡◌, refl, true, false, some, List, [], ◌∷◌, Text, text_eq_refl, find, all, keep, sort, insert,
  arith,
}
use lorelum.Lifecycle.Store.{
  Store, Manifest, Tuple, Journal, PackEntry, Formats, Result, ok, manifest_valid,
  is_manifest_equal, tuple_of, tuple_equals, write_manifest, sync_current_pack_locators,
  clear_operation_journal, installed_pack_entries_equal, entry_eq, present, links_of,
}
use lorelum.Lifecycle.Recovery.{
  RecoveryResult, list_operation_journals, read_operation_journal, try_read_manifest, restore,
  complete, converge, reconcile_journal, reconcile_all, verify, run_store_recovery, enter_mutation,
}

-- Manifest and SQLite agree on `m`, and no journal is left.
abbrev pub settled : Manifest → List (Text × Text) → List (Text × Text) → Store
settled m stored links = record {
  manifest = some m;
  metadata = some (tuple_of m);
  active_packs = m.packs;
  journals = [];
  artifacts = stored;
  locators = links;
}

-- A journal is left, the manifest file may be ahead, and SQLite stands at `committed`.
abbrev pub interrupted :
    Journal → Manifest → Manifest → List (Text × Text) → List (Text × Text) → Store
interrupted j active committed stored links = record {
  manifest = some active;
  metadata = some (tuple_of committed);
  active_packs = committed.packs;
  journals = j ∷ [];
  artifacts = stored;
  locators = links;
}

abbrev pub settled_result : Manifest → RecoveryResult
settled_result m = record { manifest = m; metadata = some (tuple_of m) }

-- What recovery reaches from any of these: `m`, with its locators.
abbrev pub recovered : Manifest → List (Text × Text) → Result (Store × RecoveryResult)
recovered m stored = ok (settled m stored (links_of m.packs), settled_result m)

pub tuple_equals_refl : (t : Tuple) → tuple_equals t t ≡ true
tuple_equals_refl t = ground arith

pub entries_equal_refl : (ps : List PackEntry) → installed_pack_entries_equal ps ps ≡ true
unfolding installed_pack_entries_equal entry_eq
entries_equal_refl [] = refl
entries_equal_refl (p ∷ ps) =
    rw
      (
        text_eq_refl p.pack_name,
        text_eq_refl p.pack_version,
        text_eq_refl p.artifact_digest,
        text_eq_refl p.storage_key,
        text_eq_refl p.installed_at,
      )
      (entries_equal_refl ps)

manifest_equal_refl : (m : Manifest) → is_manifest_equal m m ≡ true
unfolding is_manifest_equal
manifest_equal_refl m = ground (arith, entries_equal_refl m.packs)

module _ (f : Formats) where
  -- A settled store is left as it is, but for its locators, which are derived again.
  pub enter-settled :
      (m : Manifest) (stored links : List (Text × Text))
      → manifest_valid f m ≡ true
      → all (present stored) m.packs ≡ true
      → enter_mutation f (settled m stored links) ≡ recovered m stored
  unfolding enter_mutation run_store_recovery list_operation_journals sort reconcile_all
      try_read_manifest verify sync_current_pack_locators
  enter-settled m stored links v p =
      rw (v, tuple_equals_refl (tuple_of m), p, entries_equal_refl m.packs) refl

  -- SQLite still at the old manifest: the old one is put back, whatever the file holds.
  pub enter-interrupted-old :
      (j : Journal) (active : Manifest) (stored links : List (Text × Text))
      → manifest_valid f j.old_manifest ≡ true
      → manifest_valid f j.target_manifest ≡ true
      → tuple_equals (tuple_of j.old_manifest) (tuple_of j.target_manifest) ≡ false
      → all (present stored) j.old_manifest.packs ≡ true
      → enter_mutation f (interrupted j active j.old_manifest stored links)
        ≡ recovered j.old_manifest stored
  unfolding enter_mutation run_store_recovery list_operation_journals sort insert reconcile_all
      reconcile_journal read_operation_journal find converge restore write_manifest
      clear_operation_journal keep try_read_manifest verify sync_current_pack_locators
  enter-interrupted-old j active stored links v w d p =
      rw
        (
          text_eq_refl j.operation_id,
          v,
          w,
          d,
          tuple_equals_refl (tuple_of j.old_manifest),
          v,
          p,
          text_eq_refl j.operation_id,
          v,
          tuple_equals_refl (tuple_of j.old_manifest),
          p,
          entries_equal_refl j.old_manifest.packs,
        )
        refl

  -- SQLite already at the target: the target is published.
  pub enter-interrupted-target :
      (j : Journal) (stored links : List (Text × Text))
      → manifest_valid f j.old_manifest ≡ true
      → manifest_valid f j.target_manifest ≡ true
      → all (present stored) j.target_manifest.packs ≡ true
      → enter_mutation f (interrupted j j.target_manifest j.target_manifest stored links)
        ≡ recovered j.target_manifest stored
  unfolding enter_mutation run_store_recovery list_operation_journals sort insert reconcile_all
      reconcile_journal read_operation_journal find converge complete write_manifest
      clear_operation_journal keep try_read_manifest verify sync_current_pack_locators
  enter-interrupted-target j stored links v w p =
      rw
        (
          text_eq_refl j.operation_id,
          v,
          w,
          tuple_equals_refl (tuple_of j.target_manifest),
          w,
          manifest_equal_refl j.target_manifest,
          p,
          text_eq_refl j.operation_id,
          w,
          tuple_equals_refl (tuple_of j.target_manifest),
          p,
          entries_equal_refl j.target_manifest.packs,
        )
        refl
