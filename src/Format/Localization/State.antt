-- ===== src/Format/Localization/State.antt =====
-- Which list of the report a path stands in, by the path alone.
use lorelum.Prelude.{
  ℕ, suc, ◌≡◌, refl, ap, ◌∙◌, Bool, Bool-cases, true, false, not, ◌&&◌, ◌||◌, Option, none, some,
  List, [], ◌∷◌, ltb, if◌then◌else◌, Text, text_eq, text_eq_sound, text_lt, contains, contains-add,
  get, get-put, keys, sort, inl, inr, arith,
}
use lorelum.Runtime.Activity.Sets.{contains-sort}
use lorelum.Format.Localization.{
  LocalizationManifestEntry, LocalizationStateInput, Recorded, nothing_recorded, present, add_if,
  record_entry, record_entries, add_unknown, Standing, is_current, is_stale, is_missing, matches,
  standing, classify, analyze_localization_state,
}

-- The last entry of a path, and how many it has.
unfoldable pub last_entry : Text → List LocalizationManifestEntry → Option LocalizationManifestEntry
last_entry path [] = none
last_entry path (e ∷ es) = elim (last_entry path es) [
  | some later ↦ some later
  | none ↦ if text_eq e.path path then some e else none
]

unfoldable pub count : Text → List LocalizationManifestEntry → ℕ
count path [] = 0
count path (e ∷ es) = if text_eq e.path path then suc (count path es) else count path es

abbrev or_else {ℓ} : {A : Type ℓ} → Option A → Option A → Option A
or_else none b = b
or_else (some a) b = some a

contains-add_if :
    (b : Bool) (x y : Text) (xs : List Text)
    → contains y (add_if b x xs) ≡ ((b && text_eq x y) || contains y xs)
contains-add_if false x y xs = refl
contains-add_if true x y xs = contains-add x y xs

recorded-last :
    (digests : List (Text × Text)) (path : Text) (es : List LocalizationManifestEntry)
    (r : Recorded)
    → get path (record_entries digests es r).entry_by_path
      ≡ or_else (last_entry path es) (get path r.entry_by_path)
unfolding record_entries record_entry last_entry
recorded-last digests path [] r = refl
recorded-last digests path (e ∷ es) r =
    let rest = recorded-last digests path es (record_entry digests e r) in
    let one = get-put e.path path e r.entry_by_path in ground arith

recorded-orphaned :
    (digests : List (Text × Text)) (path : Text) (es : List LocalizationManifestEntry)
    (r : Recorded)
    → contains path (record_entries digests es r).orphaned ≡ (
        contains path r.orphaned
        || (if present (get path r.entry_by_path)
            then ltb 0 (count path es)
            else ltb 1 (count path es))
        || (not (present (get path digests)) && ltb 0 (count path es)))
unfolding record_entries record_entry count
recorded-orphaned digests path [] r = ground arith
recorded-orphaned digests path (e ∷ es) r =
    let rest = recorded-orphaned digests path es (record_entry digests e r) in
    let one = get-put e.path path e r.entry_by_path in
    let inner = contains-add_if (present (get e.path r.entry_by_path)) e.path path r.orphaned in
    let outer =
      contains-add_if (not (present (get e.path digests))) e.path path
        (add_if (present (get e.path r.entry_by_path)) e.path r.orphaned) in
    elim (Bool-cases (text_eq e.path path)) [
      | inl same ↦
          let p = ap (λ x. present (get x digests)) (text_eq_sound e.path path same) in
          let q = ap (λ x. present (get x r.entry_by_path)) (text_eq_sound e.path path same) in
          ground arith
      | inr other ↦ ground arith
    ]

contains-add_unknown :
    (digests : List (Text × Text)) (path : Text) (paths orphaned : List Text)
    → contains path (add_unknown digests paths orphaned)
      ≡ (contains path orphaned || (not (present (get path digests)) && contains path paths))
unfolding add_unknown contains
contains-add_unknown digests path [] orphaned = ground arith
contains-add_unknown digests path (x ∷ xs) orphaned =
    let rest =
      contains-add_unknown digests path xs (add_if (not (present (get x digests))) x orphaned) in
    let one = contains-add_if (not (present (get x digests))) x path orphaned in
    elim (Bool-cases (text_eq x path)) [
      | inl same ↦
          let p = ap (λ y. present (get y digests)) (text_eq_sound x path same) in ground arith
      | inr other ↦ ground arith
    ]

abbrev stands_current : Standing → Bool
stands_current is_current = true
stands_current is_stale = false
stands_current is_missing = false

abbrev stands_stale : Standing → Bool
stands_stale is_stale = true
stands_stale is_current = false
stands_stale is_missing = false

abbrev stands_missing : Standing → Bool
stands_missing is_missing = true
stands_missing is_current = false
stands_missing is_stale = false

contains-classify :
    (stands : Text → Standing) (path : Text) (orphaned paths : List Text)
    → (contains path (classify stands orphaned paths).current
        ≡ (contains path paths && stands_current (stands path)))
      × (contains path (classify stands orphaned paths).stale
          ≡ (contains path paths && stands_stale (stands path)))
      × (contains path (classify stands orphaned paths).missing
          ≡ (contains path paths && stands_missing (stands path)))
      × ((classify stands orphaned paths).orphaned ≡ orphaned)
unfolding classify contains
contains-classify stands path orphaned [] = (refl, refl, refl, refl)
contains-classify stands path orphaned (x ∷ xs) =
    let (a, b, c, d) = contains-classify stands path orphaned xs in
    elim (Bool-cases (text_eq x path)) [
      | inl same ↦
          let p = ap stands (text_eq_sound x path same) in
          (ground arith, ground arith, ground arith, ground arith)
      | inr other ↦ (ground arith, ground arith, ground arith, ground arith)
    ]

-- For every path, whether `analyzeLocalizationState` reports it. A canonical path is missing where it
-- has no localized file; else it is current where its last entry has the canonical digest, and else
-- stale. A path is orphaned where it has more than one entry, or has an entry or a localized file
-- and is not canonical.
pub analyze_localization_state_lem :
    (input : LocalizationStateInput) (path : Text)
    → (contains path (analyze_localization_state input).current ≡ (
        contains path (keys input.canonical_digests)
        && (contains path input.localized_paths
            && matches (last_entry path input.entries) (get path input.canonical_digests))))
      × (contains path (analyze_localization_state input).stale ≡ (
          contains path (keys input.canonical_digests)
          && (contains path input.localized_paths
              && not (matches (last_entry path input.entries) (get path input.canonical_digests)))))
      × (contains path (analyze_localization_state input).missing ≡ (
          contains path (keys input.canonical_digests)
          && not (contains path input.localized_paths)))
      × (contains path (analyze_localization_state input).orphaned ≡ (
          ltb 1 (count path input.entries)
          || (not (present (get path input.canonical_digests))
              && (ltb 0 (count path input.entries) || contains path input.localized_paths))))
unfolding analyze_localization_state standing get contains
analyze_localization_state_lem input path =
    let digests = input.canonical_digests in
    let recorded = record_entries digests input.entries nothing_recorded in
    let unknown = add_unknown digests input.localized_paths recorded.orphaned in
    let (a, b, c, d) =
      contains-classify (standing digests input.localized_paths recorded.entry_by_path) path
        (sort text_lt unknown) (sort text_lt (keys digests)) in
    let listed = contains-sort path (keys digests) in
    let last = recorded-last digests path input.entries nothing_recorded in
    let entry = last ∙ or_else_none (last_entry path input.entries) in
    let local = contains path input.localized_paths in
    let same = matches (last_entry path input.entries) (get path digests) in
    let (x, y, z) = by_tests local same in
    (
      a ∙ rw (listed, entry, x) refl,
      b ∙ rw (listed, entry, y) refl,
      c ∙ rw (listed, entry, z) refl,
      ap (λ xs. contains path xs) d
          ∙ contains-sort path unknown
          ∙ contains-add_unknown digests path input.localized_paths recorded.orphaned
          ∙ rw (recorded-orphaned digests path input.entries nothing_recorded) (
              sorted_out (ltb 1 (count path input.entries)) (not (present (get path digests)))
                (ltb 0 (count path input.entries)) local),
    )
  where
    or_else_none : (o : Option LocalizationManifestEntry) → or_else o none ≡ o
    or_else_none none = refl
    or_else_none (some e) = refl

    by_tests :
        (local same : Bool)
        → (stands_current (if not local then is_missing else if same then is_current else is_stale)
            ≡ (local && same))
          × (stands_stale (if not local then is_missing else if same then is_current else is_stale)
              ≡ (local && not same))
          × (stands_missing
                (if not local then is_missing else if same then is_current else is_stale)
              ≡ not local)
    by_tests local same = (ground arith, ground arith, ground arith)

    sorted_out :
        (many unknown_path some_entry local : Bool)
        → ((many || (unknown_path && some_entry)) || (unknown_path && local))
          ≡ (many || (unknown_path && (some_entry || local)))
    sorted_out many unknown_path some_entry local = ground arith
