-- ===== src/LocalStore/Effective.antt =====
-- packages/engine/src/local-store/model/effective-practices.ts: the sources of all installed Packs
-- merged into the practices that are in effect, and what a merge changes.
-- `JSON.stringify` and SHA-256 are parameters, as in Canonical.
pub mod Delta
pub mod Groups
pub mod MergeGroups
pub mod Build
pub mod Merge
pub mod Removal
pub mod Undo
mod Tests
pub use lorelum.Prelude.{ok, err, ◌>>=◌, ◌>>◌, refuse}
use lorelum.Prelude.{
  Fallible, ◌≡◌, List, [], ◌∷◌, ◌++◌, map, Bool, true, false, not, ◌&&◌, ◌||◌, Option, none, some,
  Text, text_eq, text_lt, contains, get, put, add, keys, find, keep, sort, if◌then◌else◌,
}
use lorelum.LocalStore.Canonical.{Practice, CanonicalPractice, canonicalize_practice}
use lorelum.LocalStore.SourcePath.{is_practice_source_path}

pub record PracticeSource : Type 0 where
  pub pack_name : Text
  pub practice_id : Text
  pub content_digest : Text
  pub source_path : Text
  pub canonical_practice : CanonicalPractice

pub record EffectivePractice : Type 0 where
  pub practice_id : Text
  pub content_digest : Text
  pub canonical_content : Text
  pub practice : Practice
  pub sources : List PracticeSource

pub record PackCandidate : Type 0 where
  pub name : Text
  pub sources : List PracticeSource

pub record RevisionDelta : Type 0 where
  pub added : List Text
  pub changed : List Text
  pub invalidated : List Text

pub record ReconciledPractices : Type 0 where
  pub sources : List PracticeSource
  pub effective_practices : List EffectivePractice
  pub delta : RevisionDelta
  pub advances_effective_revision : Bool

pub data Reason : Type 0 where
  wrong_pack wrong_id wrong_path wrong_digest wrong_replacement : Reason

-- `InvalidPracticeSourceError` and `PracticeConflictError`.
pub data MergeError : Type 0 where
  invalid_source : Text → Reason → MergeError
  conflict : (practice_id candidate_pack conflicting_pack : Text) → MergeError

abbrev pub Result {ℓ} : Type ℓ → Type ℓ
Result A = Fallible MergeError A

-- `compareSources(left, right) < 0`
pub source_before : PracticeSource → PracticeSource → Bool
source_before left right =
    text_lt left.pack_name right.pack_name
    || (text_eq left.pack_name right.pack_name && text_lt left.source_path right.source_path)

pub practice_before : EffectivePractice → EffectivePractice → Bool
practice_before left right = text_lt left.practice_id right.practice_id

-- What `JSON.stringify` of the canonical object and SHA-256 compute.
pub record Hashing : Type 0 where
  pub stringify : Practice → Text
  pub sha256 : Text → Text

abbrev pub differs_from : Option Text → PracticeSource → Bool
differs_from none source = false
differs_from (some name) source = not (text_eq source.pack_name name)

module _ (h : Hashing) where
  pub assert_valid_source : PracticeSource → Option Text → Result (Unit {0})
  assert_valid_source source expected = do
    refuse (differs_from expected source) (invalid_source source.practice_id wrong_pack)
    refuse (not (text_eq source.practice_id source.canonical_practice.practice.id))
        (invalid_source source.practice_id wrong_id)
    refuse (not (is_practice_source_path source.source_path))
        (invalid_source source.practice_id wrong_path)
    let canonical = canonicalize_practice h.stringify h.sha256 source.canonical_practice.practice
    refuse
        (not (text_eq source.content_digest canonical.content_digest)
          || not (text_eq source.canonical_practice.content_digest canonical.content_digest)
          || not (text_eq source.canonical_practice.canonical_content canonical.canonical_content))
        (invalid_source source.practice_id wrong_digest)

  pub assert_all : List PracticeSource → Option Text → Result (Unit {0})
  assert_all [] expected = ok tt
  assert_all (s ∷ ss) expected = do assert_valid_source s expected; assert_all ss expected

abbrev pub or_empty : Option (List PracticeSource) → List PracticeSource
or_empty none = []
or_empty (some group) = group

-- The sources by practice id, in the order of the first source of each.
pub group_sources :
    List (Text × List PracticeSource) → List PracticeSource → List (Text × List PracticeSource)
group_sources groups [] = groups
group_sources groups (s ∷ ss) =
    group_sources (put s.practice_id (or_empty (get s.practice_id groups) ++ s ∷ []) groups) ss

-- The loop over the sources behind the first of a group.
pub check_group : Text → PracticeSource → List PracticeSource → Result (Unit {0})
check_group id primary [] = ok tt
check_group id primary (s ∷ ss) = do
  refuse (not (text_eq s.content_digest primary.content_digest))
      (conflict id s.pack_name primary.pack_name)
  check_group id primary ss

abbrev pub effective_of : Text → PracticeSource → List PracticeSource → EffectivePractice
effective_of id primary ordered = record {
  practice_id = id;
  content_digest = primary.content_digest;
  canonical_content = primary.canonical_practice.canonical_content;
  practice = primary.canonical_practice.practice;
  sources = ordered;
}

pub merge_group : Text → List PracticeSource → Result (List EffectivePractice)
merge_group id [] = ok []
merge_group id (primary ∷ others) = do
  check_group id primary others
  ok (effective_of id primary (primary ∷ others) ∷ [])

pub merge_groups : List (Text × List PracticeSource) → Result (List EffectivePractice)
merge_groups [] = ok []
merge_groups ((id, group) ∷ groups) = do
  first ← merge_group id (sort source_before group)
  rest ← merge_groups groups
  ok (first ++ rest)

unfoldable pub build_effective_practices : List PracticeSource → Result (List EffectivePractice)
unfolding merge_groups merge_group check_group group_sources source_before practice_before
build_effective_practices sources = do
  practices ← merge_groups (group_sources [] sources)
  ok (sort practice_before practices)

pub digest_map_from : List (Text × Text) → List EffectivePractice → List (Text × Text)
digest_map_from m [] = m
digest_map_from m (p ∷ ps) = digest_map_from (put p.practice_id p.content_digest m) ps

pub effective_digest_map : List EffectivePractice → List (Text × Text)
unfolding digest_map_from
effective_digest_map practices = digest_map_from [] practices

pub added_in : List (Text × Text) → List (Text × Text) → List Text
added_in previous [] = []
added_in previous ((id, digest) ∷ next) = elim (get id previous) [
  | none ↦ id ∷ added_in previous next
  | some old ↦ added_in previous next
]

pub changed_in : List (Text × Text) → List (Text × Text) → List Text
changed_in previous [] = []
changed_in previous ((id, digest) ∷ next) = elim (get id previous) [
  | none ↦ changed_in previous next
  | some old ↦
      if not (text_eq old digest) then id ∷ changed_in previous next else changed_in previous next
]

pub invalidated_in : List (Text × Text) → List Text → List Text
invalidated_in next [] = []
invalidated_in next (id ∷ ids) =
    if not (contains id (keys next)) then id ∷ invalidated_in next ids else invalidated_in next ids

unfoldable pub diff_effective_practices :
    List EffectivePractice → List EffectivePractice → RevisionDelta
unfolding effective_digest_map added_in changed_in invalidated_in
diff_effective_practices previous next =
    let before = effective_digest_map previous in
    let after = effective_digest_map next in
    record {
      added = sort text_lt (added_in before after);
      changed = sort text_lt (changed_in before after);
      invalidated = sort text_lt (invalidated_in after (keys before));
    }

abbrev pub non_empty : List Text → Bool
non_empty [] = false
non_empty (x ∷ xs) = true

abbrev pub advances : RevisionDelta → Bool
advances d = non_empty d.added || non_empty d.changed || non_empty d.invalidated

abbrev pub reconciled :
    List PracticeSource → List EffectivePractice → List EffectivePractice → ReconciledPractices
reconciled sources previous next =
    let delta = diff_effective_practices previous next in
    record {
      sources = sources;
      effective_practices = next;
      delta = delta;
      advances_effective_revision = advances delta;
    }

-- `source.packName !== packName`
abbrev pub not_from : Option Text → PracticeSource → Bool
not_from none source = true
not_from (some name) source = not (text_eq source.pack_name name)

abbrev pub conflicts_with : PracticeSource → PracticeSource → Bool
conflicts_with source retained =
    text_eq retained.practice_id source.practice_id
    && not (text_eq retained.content_digest source.content_digest)

-- The loop that looks for a conflict with a retained source.
pub check_candidate : Text → List PracticeSource → List PracticeSource → Result (Unit {0})
check_candidate pack retained [] = ok tt
check_candidate pack retained (s ∷ ss) = elim (find (conflicts_with s) retained) [
  | some other ↦ err (conflict s.practice_id pack other.pack_name)
  | none ↦ check_candidate pack retained ss
]

abbrev pub replaces_other : Option Text → Text → Bool
replaces_other none name = false
replaces_other (some replace) name = not (text_eq replace name)

module _ (h : Hashing) where
  unfoldable pub reconcile_effective_practices :
      List PracticeSource → PackCandidate → Option Text → Result ReconciledPractices
  unfolding assert_all assert_valid_source check_candidate source_before
  reconcile_effective_practices existing candidate replace = do
    refuse (replaces_other replace candidate.name) (invalid_source candidate.name wrong_replacement)
    assert_all h candidate.sources (some candidate.name)
    assert_all h existing none
    previous ← build_effective_practices existing
    let retained = keep (not_from replace) existing
    check_candidate candidate.name retained candidate.sources
    let sources = sort source_before (retained ++ candidate.sources)
    practices ← build_effective_practices sources
    ok (reconciled sources previous practices)

  unfoldable pub remove_pack_sources : List PracticeSource → Text → Result ReconciledPractices
  unfolding assert_all assert_valid_source source_before
  remove_pack_sources existing name = do
    assert_all h existing none
    previous ← build_effective_practices existing
    let sources = sort source_before (keep (not_from (some name)) existing)
    practices ← build_effective_practices sources
    ok (reconciled sources previous practices)

-- `revisionDeltaPracticeIds`
pub add_all : List Text → List Text → List Text
add_all ids [] = ids
add_all ids (x ∷ xs) = add_all (add x ids) xs

pub revision_delta_practice_ids : List Text → List RevisionDelta → Bool → List Text
unfolding add_all
revision_delta_practice_ids ids [] include_invalidated = ids
revision_delta_practice_ids ids (d ∷ ds) include_invalidated =
    revision_delta_practice_ids
      (add_all (add_all (add_all ids d.added) d.changed)
        (if include_invalidated then d.invalidated else []))
      ds include_invalidated
