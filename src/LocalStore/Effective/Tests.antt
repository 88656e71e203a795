-- ===== src/LocalStore/Effective/Tests.antt =====
-- Merges and removals at concrete sources, and the theorems there.
use lorelum.Prelude.{
  ◌≡◌, ◌↔◌, refl, List, [], ◌∷◌, ◌++◌, true, none, Text, units, text_eq, text_lt, contains, get,
  put, find, keep, sort, any, if◌then◌else◌,
}
use lorelum.LocalStore.Canonical.{Practice, canonical_practice_object, canonicalize_practice}
use lorelum.LocalStore.SourcePath.{is_practice_source_path}
use lorelum.LocalStore.Effective.{
  Hashing, PracticeSource, PackCandidate, EffectivePractice, ReconciledPractices, ok, assert_all,
  source_before, not_from, build_effective_practices, diff_effective_practices,
  reconcile_effective_practices, remove_pack_sources,
}
use lorelum.LocalStore.Effective.Delta.{
  digest_of, is_added, is_changed, is_invalidated, diff_effective_practices_lem,
}
use lorelum.LocalStore.Effective.Groups.{of_practice, source_digest, IsCoherent}
use lorelum.LocalStore.Effective.Build.{build_effective_practices_ok, build_effective_practices_iff}
use lorelum.LocalStore.Effective.Merge.{reconcile_digests}
use lorelum.LocalStore.Effective.Removal.{others, remove_pack_sources_lem}
use lorelum.LocalStore.Effective.Undo.{remove-reconcile}

-- Stand-ins: the id and the title for the JSON text, and that text for its hash.
abbrev hashing : Hashing
hashing = record { stringify = λ p. p.id ++ p.title; sha256 = λ t. t }

abbrev practice : Text → Text → Practice
practice id title = record {
  id = id;
  title = title;
  stage = [];
  tech_stack = [];
  applies_when = [];
  severity = none;
  body = none;
  anti_patterns = none;
}

abbrev source : Text → Text → Text → PracticeSource
source pack id title = record {
  pack_name = pack;
  practice_id = id;
  content_digest = id ++ title;
  source_path = units "practices/a.md";
  canonical_practice = canonicalize_practice hashing.stringify hashing.sha256 (practice id title);
}

abbrev existing : List PracticeSource
existing = source (units "base") (units "layers") (units "v1") ∷ []

abbrev candidate : PackCandidate
candidate = record {
  name = units "auth";
  sources =
      source (units "auth") (units "layers") (units "v1")
      ∷ source (units "auth") (units "tokens") (units "v1")
      ∷ [];
}

run : Unit {0}
unfolding reconcile_effective_practices remove_pack_sources build_effective_practices
    diff_effective_practices canonicalize_practice canonical_practice_object is_practice_source_path
    text_eq text_lt contains get put find keep sort any
run = tt

merged_digests :
    (r : ReconciledPractices) × (reconcile_effective_practices hashing existing candidate none
      ≡ ok r)
    × (r.delta.added ≡ units "tokens" ∷ [])
    × (r.delta.changed ≡ [])
    × (r.advances_effective_revision ≡ true)
unfolding run
merged_digests = (_, refl, refl, refl, refl)

built : (ps : List EffectivePractice) × (build_effective_practices existing ≡ ok ps)
unfolding run
built = (_, refl)

existing_valid : assert_all hashing existing none ≡ ok tt
unfolding run
existing_valid = refl

existing-IsCoherent : IsCoherent existing
unfolding source_digest text_eq
existing-IsCoherent = (refl, tt)

not_installed : others candidate.name existing ≡ existing
unfolding keep text_eq
not_installed = refl

diff_effective_practices_lem_example :
    let d = diff_effective_practices [] built.0 in
    (contains (units "layers") d.added
      ≡ is_added (digest_of (units "layers") []) (digest_of (units "layers") built.0))
    × (contains (units "layers") d.changed
        ≡ is_changed (digest_of (units "layers") []) (digest_of (units "layers") built.0))
    × (contains (units "layers") d.invalidated
        ≡ is_invalidated (digest_of (units "layers") []) (digest_of (units "layers") built.0))
diff_effective_practices_lem_example = diff_effective_practices_lem [] built.0 (units "layers")

build_effective_practices_ok_example :
    IsCoherent existing × ((id : Text) → digest_of id built.0 ≡ source_digest id existing)
build_effective_practices_ok_example = build_effective_practices_ok existing built.0 built.1

build_effective_practices_iff_example :
    ((ps : List EffectivePractice) × (build_effective_practices existing ≡ ok ps))
    ↔ IsCoherent existing
build_effective_practices_iff_example = build_effective_practices_iff existing

reconcile_digests_example :
    IsCoherent merged_digests.0.sources
    × ((id : Text)
        → digest_of id merged_digests.0.effective_practices ≡ (
            if any (of_practice id) candidate.sources
            then source_digest id candidate.sources
            else source_digest id (keep (not_from none) existing)))
reconcile_digests_example =
    reconcile_digests hashing existing candidate none merged_digests.0 merged_digests.1

remove_pack_sources_lem_example :
    (r : ReconciledPractices) × (remove_pack_sources hashing existing (units "base") ≡ ok r)
    × (r.sources ≡ sort source_before (others (units "base") existing))
    × ((id : Text)
        → digest_of id r.effective_practices ≡ (
            if any (of_practice id) (others (units "base") existing)
            then source_digest id existing
            else none))
remove_pack_sources_lem_example =
    remove_pack_sources_lem hashing existing (units "base") existing_valid existing-IsCoherent

remove-reconcile_example :
    (r' : ReconciledPractices) × (remove_pack_sources hashing merged_digests.0.sources
        candidate.name
      ≡ ok r')
    × (r'.sources ≡ sort source_before existing)
    × ((id : Text) → digest_of id r'.effective_practices ≡ source_digest id existing)
remove-reconcile_example =
    remove-reconcile hashing existing candidate merged_digests.0 not_installed merged_digests.1
