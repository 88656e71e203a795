-- ===== src/Query/Catalog/Recent.antt =====
-- What was recorded last is found first.
use lorelum.Prelude.{
  ℕ, zero, suc, ◌≤◌, ◌≡◌, refl, ap, ◌∙◌, Bool, Bool-cases, true, false, ◌&&◌, ◌||◌, Option, none,
  some, List, [], ◌∷◌, ltb, leb, ◌==◌, Text, text_eq, text_eq_refl, text_eq_sound, keep, any,
  any-keep, any-sort, all, length, sort, Sorted, sort-Sorted, All, inl, inr, arith,
}
use lorelum.Lifecycle.Store.{is_digest, max_safe_integer}
use lorelum.Lifecycle.Install.Ordering.{all-sort}
use lorelum.Query.Catalog.{
  Kind, same_kind, keyword_kind, semantic_kind, ArtifactRecord, ArtifactRow, SourceRow, Catalog,
  valid_record, safe_relative_artifact_path, put_artifact, put_source, put_optional_source,
  put_index, record_artifact, first_rows, selected, later, valid_ids, recent_artifact_ids,
}

-- A row of the artifact, or one accessed before.
abbrev pub own_or_older : Text → ℕ → SourceRow → Bool
own_or_older id now s = text_eq s.artifact_id id || ltb s.last_accessed_at now

same_kind_refl : (k : Kind) → same_kind k k ≡ true
same_kind_refl keyword_kind = refl
same_kind_refl semantic_kind = refl

put_source-older :
    (id slot : Text) (revision : Option ℕ) (now : ℕ) (rows : List SourceRow)
    → all (λ s. ltb s.last_accessed_at now) rows ≡ true
    → all (own_or_older id now) (put_source id slot revision now rows) ≡ true
unfolding put_source all
put_source-older id slot revision now [] h = ground (arith, text_eq_refl id)
put_source-older id slot revision now (s ∷ rows) h =
    let rest = put_source-older id slot revision now rows in
    let others = weaken rows in ground arith
  where
    weaken :
        (rs : List SourceRow)
        → all (λ s. ltb s.last_accessed_at now) rs ≡ true
        → all (own_or_older id now) rs ≡ true
    weaken [] k = refl
    weaken (r ∷ rs) k = ground (arith, weaken rs)

put_source-there :
    (id slot : Text) (revision : Option ℕ) (now : ℕ) (rows : List SourceRow) (test : Text → Bool)
    → test id ≡ true
    → any
        (λ s. (text_eq s.source_slot_id slot && test s.artifact_id) && s.last_accessed_at == now)
        (put_source id slot revision now rows)
      ≡ true
unfolding put_source any
put_source-there id slot revision now [] test h = ground (arith, text_eq_refl slot)
put_source-there id slot revision now (s ∷ rows) test h =
    let rest = put_source-there id slot revision now rows test h in
    elim (Bool-cases (text_eq s.artifact_id id)) [
      | inl same ↦ let t = ap test (text_eq_sound s.artifact_id id same) in ground arith
      | inr other ↦ ground arith
    ]

put_artifact-there :
    (r : ArtifactRecord) (now : ℕ) (rows : List ArtifactRow)
    → any
        (λ a. text_eq a.artifact_id r.artifact_id && same_kind a.kind r.kind)
        (put_artifact r now rows)
      ≡ true
unfolding put_artifact any
put_artifact-there r now [] = ground (arith, text_eq_refl r.artifact_id, same_kind_refl r.kind)
put_artifact-there r now (a ∷ rows) =
    ground (arith, same_kind_refl r.kind, put_artifact-there r now rows)

all-of-keep :
    (p q : SourceRow → Bool) (rows : List SourceRow)
    → all p rows ≡ true
    → all p (keep q rows) ≡ true
unfolding all keep
all-of-keep p q [] h = refl
all-of-keep p q (s ∷ rows) h = ground (arith, all-of-keep p q rows)

later_asym : (x y : SourceRow) → later x y ≡ true → later y x ≡ false
later_asym x y h = ground arith

later_trans : (x y z : SourceRow) → later y x ≡ false → later z y ≡ false → later z x ≡ false
later_trans x y z h k = ground arith

-- A row that no other is later than is at least as late as each of them.
latest_of :
    (now : ℕ) (w : SourceRow) (rows : List SourceRow)
    → All (λ y. later y w ≡ false) rows
    → any (λ s. s.last_accessed_at == now) rows ≡ true
    → now ≤ w.last_accessed_at
unfolding any
latest_of now w [] low h = ground arith
latest_of now w (s ∷ rows) (first, low) h = ground (arith, latest_of now w rows low)

head-own :
    (id : Text) (now : ℕ) (rows : List SourceRow)
    → Sorted later rows
    → all (own_or_older id now) rows ≡ true
    → any (λ s. s.last_accessed_at == now) rows ≡ true
    → (w : SourceRow) × (rest : List SourceRow) × (rows ≡ w ∷ rest) × (w.artifact_id ≡ id)
unfolding all any
head-own id now [] sorted p h = ground arith
head-own id now (w ∷ rest) (low, sorted) p h =
    let bound = latest_of now w rest low in
    (w, rest, refl, text_eq_sound w.artifact_id id (ground arith))

length-valid_ids : (n : ℕ) (rows : List SourceRow) → length (valid_ids (first_rows n rows)) ≤ n
length-valid_ids zero rows = ground arith
length-valid_ids (suc n) [] = ground arith
length-valid_ids (suc n) (s ∷ rows) = ground (arith, length-valid_ids n rows)

abbrev written : ArtifactRecord → ℕ → List SourceRow → Option Text → List SourceRow
written r now rows none = rows
written r now rows (some slot) = put_source r.artifact_id slot r.source_revision now rows

digests :
    (r : ArtifactRecord) (slot : Text)
    → valid_record r ≡ true
    → r.source_slot_id ≡ some slot
    → (is_digest r.artifact_id ≡ true) × (is_digest slot ≡ true)
unfolding valid_record
digests r slot valid has_slot = (ground arith, ground arith)

-- The catalog after a record that is written.
abbrev recorded : ArtifactRecord → Text → ℕ → ℕ → Catalog → Catalog
recorded r path size now catalog = record {
  artifacts = put_artifact r now catalog.artifacts;
  sources = put_optional_source r now catalog.sources;
  indexes = put_index r path size now catalog.indexes;
}

selected-head :
    (r : ArtifactRecord) (path slot : Text) (size now : ℕ) (catalog : Catalog)
    → r.source_slot_id ≡ some slot
    → all (λ s. ltb s.last_accessed_at now) catalog.sources ≡ true
    → (w : SourceRow) × (rest : List SourceRow) × (sort later
          (selected r.kind slot (recorded r path size now catalog))
        ≡ w ∷ rest)
      × (w.artifact_id ≡ r.artifact_id)
unfolding selected
selected-head r path slot size now catalog has_slot older =
    let next = put_source r.artifact_id slot r.source_revision now catalog.sources in
    let same = ap (written r now catalog.sources) has_slot in
    let of_kind = λ (id : Text).
      any (λ a. text_eq a.artifact_id id && same_kind a.kind r.kind)
        (put_artifact r now catalog.artifacts) in
    let choice = λ (s : SourceRow). text_eq s.source_slot_id slot && of_kind s.artifact_id in
    let owned =
      all-of-keep (own_or_older r.artifact_id now) choice next
        (put_source-older r.artifact_id slot r.source_revision now catalog.sources older) in
    let there =
      any-keep choice (λ s. s.last_accessed_at == now) next
      ∙ put_source-there r.artifact_id slot r.source_revision now catalog.sources of_kind
          (put_artifact-there r now catalog.artifacts) in
    rw same (
      head-own r.artifact_id now (sort later (keep choice next))
        (sort-Sorted later later_asym later_trans (keep choice next))
        (all-sort later (own_or_older r.artifact_id now) (keep choice next) ∙ owned)
        (any-sort later (λ s. s.last_accessed_at == now) (keep choice next) ∙ there))

head-id :
    (id : Text) (n : ℕ) (rows rest : List SourceRow) (w : SourceRow)
    → rows ≡ w ∷ rest
    → w.artifact_id ≡ id
    → is_digest id ≡ true
    → valid_ids (first_rows (suc n) rows) ≡ id ∷ valid_ids (first_rows n rest)
head-id id n rows rest w made own digest =
    let known = ap is_digest own ∙ digest in rw (made, known, own) refl

-- After an artifact with a source slot is recorded at a time after every access that is in the catalog,
-- where its record and its path are valid and its file is there: `recentContentArtifactIds` of its
-- kind and slot, with a limit of at least one, begins with it and gives no more ids than the limit.
pub recorded_artifact_is_recent :
    (r : ArtifactRecord) (path slot : Text) (size now limit : ℕ) (catalog : Catalog)
    → valid_record r ≡ true
    → safe_relative_artifact_path path ≡ true
    → r.source_slot_id ≡ some slot
    → all (λ s. ltb s.last_accessed_at now) catalog.sources ≡ true
    → suc limit ≤ max_safe_integer
    → ((rest : List Text) × (recent_artifact_ids r.kind slot
            (suc limit)
            (some (record_artifact r path (some size) now catalog))
          ≡ r.artifact_id ∷ rest))
      × (length (
            recent_artifact_ids r.kind slot
              (suc limit)
              (some (record_artifact r path (some size) now catalog)))
          ≤ suc limit)
unfolding record_artifact recent_artifact_ids selected
recorded_artifact_is_recent r path slot size now limit catalog valid safe has_slot older bound =
    let next = recorded r path size now catalog in
    let rows = sort later (selected r.kind slot next) in
    let (id_digest, slot_digest) = digests r slot valid has_slot in
    let (w, rest, made, own) = selected-head r path slot size now catalog has_slot older in
    let low : leb 1 (suc limit) ≡ true = ground arith in
    let high : leb (suc limit) max_safe_integer ≡ true = ground arith in
    rw (valid, safe, slot_digest, low, high)
      (
        (
          valid_ids (first_rows limit rest),
          head-id r.artifact_id limit rows rest w made own id_digest,
        ),
        length-valid_ids (suc limit) rows,
      )
