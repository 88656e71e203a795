-- ===== src/Lifecycle/Store.antt =====
-- packages/engine/src/local-store/storage: what a Store holds on disk, and the single writes that
-- change it. manifest/manifest-store.ts, journal/operation-journal.ts,
-- artifacts/current-locator.ts, and the rows of sqlite/state-writer.ts that recovery reads.
-- A manifest in a file or in a journal stands as the parsed value: `serializeManifest` and
-- `parseManifest` are inverse on the manifests that the check of `parseManifest` accepts.
-- Parameters: the Pack schema's name and version formats, and the canonical instant format.
pub use lorelum.Prelude.{ok, err, ◌>>=◌, ◌>>◌, refuse}
use lorelum.Prelude.{
  Fallible, ℕ, Bool, true, false, not, ◌&&◌, ◌||◌, Option, some, List, [], ◌∷◌, ◌++◌, leb, ◌==◌,
  if◌then◌else◌, Text, units, text_eq, text_lt, keep, any, all, length, sort,
}
use lorelum.LocalStore.Effective.{MergeError}

abbrev pub manifest_schema_version : ℕ
manifest_schema_version = 1

abbrev pub max_safe_integer : ℕ
max_safe_integer = 9007199254740991

pub record PackEntry : Type 0 where
  pub pack_name : Text
  pub pack_version : Text
  pub artifact_digest : Text
  pub storage_key : Text
  pub installed_at : Text

pub record Manifest : Type 0 where
  pub schema_version : ℕ
  pub generation : ℕ
  pub effective_revision : ℕ
  pub packs : List PackEntry

-- SQLite's `(generation, effectiveRevision)` row.
pub record Tuple : Type 0 where
  pub generation : ℕ
  pub effective_revision : ℕ

pub record Journal : Type 0 where
  pub operation_id : Text
  pub old_manifest : Manifest
  pub target_manifest : Manifest

-- `active_packs` are SQLite's rows in the order in which they are read, by name. An artifact is
-- named by storage key and digest; a locator is a storage key and the digest that it links to.
pub record Store : Type 0 where
  pub manifest : Option Manifest
  pub metadata : Option Tuple
  pub active_packs : List PackEntry
  pub journals : List Journal
  pub artifacts : List (Text × Text)
  pub locators : List (Text × Text)

pub data Mode : Type 0 where
  install_mode upgrade_mode : Mode

pub data StoreError : Type 0 where
  recovery_required manifest_error counter_exhausted upgrade_required pack_not_installed :
      StoreError
  merge_failed : MergeError → StoreError

abbrev pub Result {ℓ} : Type ℓ → Type ℓ
Result A = Fallible StoreError A

-- The formats that the schema library and `Date` check.
pub record Formats : Type 0 where
  pub pack_identity : (name version : Text) → Bool
  pub is_instant : Text → Bool

abbrev pub is_hex : ℕ → Bool
is_hex c = (leb 48 c && leb c 57) || (leb 97 c && leb c 102)

-- `/^[a-f0-9]{64}$/`
unfoldable pub is_digest : Text → Bool
is_digest s = length s == 64 && all is_hex s

unfoldable pub entry_valid : Formats → PackEntry → Bool
entry_valid f e =
    f.pack_identity e.pack_name e.pack_version
    && is_digest e.artifact_digest
    && text_eq e.storage_key (units "p-" ++ e.pack_name)
    && f.is_instant e.installed_at

-- Each name is before the next one.
unfoldable pub ordered : List PackEntry → Bool
ordered [] = true
ordered (x ∷ []) = true
ordered (x ∷ y ∷ ys) = text_lt x.pack_name y.pack_name && ordered (y ∷ ys)

-- `seenNames.has(entry.packName)` for no entry.
unfoldable pub distinct_names : List PackEntry → Bool
distinct_names [] = true
distinct_names (x ∷ xs) = not (any (λ y. text_eq y.pack_name x.pack_name) xs) && distinct_names xs

-- `parseManifest` accepts.
unfoldable pub manifest_valid : Formats → Manifest → Bool
manifest_valid f m =
    (m.schema_version == manifest_schema_version
      && leb m.generation max_safe_integer
      && leb m.effective_revision max_safe_integer)
    && (all (entry_valid f) m.packs && distinct_names m.packs && ordered m.packs)

abbrev pub empty_manifest : Manifest
empty_manifest = record {
  schema_version = manifest_schema_version;
  generation = 0;
  effective_revision = 0;
  packs = [];
}

-- `installedPackEntriesEqual`, entry by entry.
unfoldable pub entry_eq : PackEntry → PackEntry → Bool
entry_eq a b =
    text_eq a.pack_name b.pack_name
    && text_eq a.pack_version b.pack_version
    && text_eq a.artifact_digest b.artifact_digest
    && text_eq a.storage_key b.storage_key
    && text_eq a.installed_at b.installed_at

unfoldable pub installed_pack_entries_equal : List PackEntry → List PackEntry → Bool
unfolding entry_eq
installed_pack_entries_equal [] [] = true
installed_pack_entries_equal [] (y ∷ ys) = false
installed_pack_entries_equal (x ∷ xs) [] = false
installed_pack_entries_equal (x ∷ xs) (y ∷ ys) = entry_eq x y && installed_pack_entries_equal xs ys

-- `serializeManifest(left) === serializeManifest(right)`
unfoldable pub is_manifest_equal : Manifest → Manifest → Bool
unfolding installed_pack_entries_equal
is_manifest_equal l r =
    l.schema_version == r.schema_version
    && l.generation == r.generation
    && l.effective_revision == r.effective_revision
    && installed_pack_entries_equal l.packs r.packs

abbrev pub tuple_of : Manifest → Tuple
tuple_of m = record { generation = m.generation; effective_revision = m.effective_revision }

abbrev pub tuple_equals : Tuple → Tuple → Bool
tuple_equals l r = l.generation == r.generation && l.effective_revision == r.effective_revision

-- The rows after an `activePackMutation`.
pub data PackMutation : Type 0 where
  upsert : PackEntry → PackMutation
  remove : Text → PackMutation

abbrev pub named : Text → PackEntry → Bool
named name p = text_eq p.pack_name name

abbrev pub replace_entry : PackEntry → List PackEntry → List PackEntry
replace_entry e [] = []
replace_entry e (p ∷ ps) = (if named e.pack_name p then e else p) ∷ replace_entry e ps

abbrev pub name_before : PackEntry → PackEntry → Bool
name_before a b = text_lt a.pack_name b.pack_name

unfoldable pub mutate_packs : PackMutation → List PackEntry → List PackEntry
mutate_packs (upsert e) ps =
    sort name_before (if any (named e.pack_name) ps then replace_entry e ps else ps ++ e ∷ [])
mutate_packs (remove name) ps = keep (λ p. not (named name p)) ps

abbrev pub same_artifact : Text × Text → Text × Text → Bool
same_artifact (a, b) (c, d) = text_eq a c && text_eq b d

abbrev pub artifact_of : PackEntry → Text × Text
artifact_of p = (p.storage_key, p.artifact_digest)

unfoldable pub present : List (Text × Text) → PackEntry → Bool
present artifacts p = any (λ a. same_artifact a (artifact_of p)) artifacts

abbrev pub links_of : List PackEntry → List (Text × Text)
links_of [] = []
links_of (p ∷ ps) = artifact_of p ∷ links_of ps

-- The single writes of a mutation, in the order in which a mutation lists them. Each is atomic: a
-- file renamed into place, a link, one SQLite transaction, one directory removed.
pub data Effect : Type 0 where
  write_journal : Journal → Effect
  promote : Text × Text → Effect
  publish sync : Manifest → Effect
  remove_locator : Text → Effect
  commit : Tuple → PackMutation → Effect
  clear : Text → Effect
  collect : Text × Text → Effect

unfoldable pub write_manifest : Formats → Manifest → Store → Result Store
write_manifest f m s =
    if manifest_valid f m
    then ok (record {
      manifest = some m;
      metadata = s.metadata;
      active_packs = s.active_packs;
      journals = s.journals;
      artifacts = s.artifacts;
      locators = s.locators;
    })
    else err manifest_error

-- Every active entry is linked to its artifact, which must be there; every other link is removed.
unfoldable pub sync_current_pack_locators : Manifest → Store → Result Store
sync_current_pack_locators m s =
    if all (present s.artifacts) m.packs
    then ok (record {
      manifest = s.manifest;
      metadata = s.metadata;
      active_packs = s.active_packs;
      journals = s.journals;
      artifacts = s.artifacts;
      locators = links_of m.packs;
    })
    else err recovery_required

abbrev pub with_journals : List Journal → Store → Store
with_journals js s = record {
  manifest = s.manifest;
  metadata = s.metadata;
  active_packs = s.active_packs;
  journals = js;
  artifacts = s.artifacts;
  locators = s.locators;
}

abbrev pub with_artifacts : List (Text × Text) → Store → Store
with_artifacts xs s = record {
  manifest = s.manifest;
  metadata = s.metadata;
  active_packs = s.active_packs;
  journals = s.journals;
  artifacts = xs;
  locators = s.locators;
}

unfoldable pub clear_operation_journal : Text → Store → Store
clear_operation_journal id s =
    with_journals (keep (λ j. not (text_eq j.operation_id id)) s.journals) s

unfoldable pub apply : Formats → Effect → Store → Result Store
unfolding write_manifest sync_current_pack_locators clear_operation_journal mutate_packs
apply f (write_journal j) s = ok (with_journals (s.journals ++ j ∷ []) s)
apply f (promote a) s = ok (with_artifacts (a ∷ s.artifacts) s)
apply f (publish m) s = write_manifest f m s
apply f (sync m) s = sync_current_pack_locators m s
apply f (remove_locator key) s = ok (record {
  manifest = s.manifest;
  metadata = s.metadata;
  active_packs = s.active_packs;
  journals = s.journals;
  artifacts = s.artifacts;
  locators = keep (λ l. not (text_eq l.0 key)) s.locators;
})
apply f (commit t mutation) s = ok (record {
  manifest = s.manifest;
  metadata = some t;
  active_packs = mutate_packs mutation s.active_packs;
  journals = s.journals;
  artifacts = s.artifacts;
  locators = s.locators;
})
apply f (clear id) s = ok (clear_operation_journal id s)
apply f (collect a) s = ok (with_artifacts (keep (λ b. not (same_artifact b a)) s.artifacts) s)

unfoldable pub run : Formats → List Effect → Store → Result Store
unfolding apply
run f [] s = ok s
run f (x ∷ xs) s = apply f x s >>= run f xs
