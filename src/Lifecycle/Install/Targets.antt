-- ===== src/Lifecycle/Install/Targets.antt =====
-- The manifest that a mutation publishes is one that `parseManifest` accepts.
use lorelum.Prelude.{
  all-append, ℕ, ◌≡◌, inl, inr, refl, ◌∙◌, Bool, true, false, not, List, [], ◌∷◌, ◌++◌, leb,
  if◌then◌else◌, Text, units, text_eq, text_eq_iff, text_eq_refl, text_lt_asym, text_ge_trans, any,
  all, keep, sort, sort-Sorted, arith, Bool-cases,
}
use lorelum.Lifecycle.Store.{
  Manifest, PackEntry, Formats, entry_valid, ordered, distinct_names, manifest_valid, named,
  replace_entry, name_before, present, artifact_of, mutate_packs, upsert, same_artifact,
  max_safe_integer,
}
use lorelum.Lifecycle.Install.{with_pack_entry}
use lorelum.Lifecycle.Install.Ordering.{
  all-sort, distinct-sort, ordered_of_Sorted, distinct-replace, all-replace, distinct-append,
}

sorted-ordered :
    (ps : List PackEntry) → distinct_names ps ≡ true → ordered (sort name_before ps) ≡ true
sorted-ordered ps d =
    ordered_of_Sorted (sort name_before ps)
      (sort-Sorted name_before (λ x y. text_lt_asym x.pack_name y.pack_name)
        (λ x y z. text_ge_trans x.pack_name y.pack_name z.pack_name) ps)
      (distinct-sort ps ∙ d)

-- The entries before they are sorted.
abbrev unsorted : Manifest → PackEntry → Bool → List PackEntry
unsorted m e replace = if replace then replace_entry e m.packs else m.packs ++ e ∷ []

-- An entry put into a valid manifest, by replacing exactly where its name is there, gives a valid
-- manifest again: every entry valid, no name twice, the entries strictly ordered by name.
pub with_pack_entry-valid :
    (f : Formats) (m : Manifest) (e : PackEntry) (replace : Bool) (g r : ℕ)
    → manifest_valid f m ≡ true
    → entry_valid f e ≡ true
    → any (named e.pack_name) m.packs ≡ replace
    → leb g max_safe_integer ≡ true
    → leb r max_safe_integer ≡ true
    → manifest_valid f (with_pack_entry m e replace g r) ≡ true
unfolding manifest_valid with_pack_entry
with_pack_entry-valid f m e false g r v w n bg br =
    let d = distinct-append e m.packs n (ground arith) in
    let o = sorted-ordered (m.packs ++ e ∷ []) d in
    unfold all in
    ground (
      arith,
      all-sort name_before (entry_valid f) (m.packs ++ e ∷ []),
      all-append (entry_valid f) m.packs (e ∷ []),
      distinct-sort (m.packs ++ e ∷ []),
    )
with_pack_entry-valid f m e true g r v w n bg br =
    let d : distinct_names (replace_entry e m.packs) ≡ true =
      distinct-replace e m.packs ∙ ground arith in
    let o = sorted-ordered (replace_entry e m.packs) d in
    let a = all-replace (entry_valid f) e m.packs w (ground arith) in
    ground (
      arith,
      all-sort name_before (entry_valid f) (replace_entry e m.packs),
      distinct-sort (replace_entry e m.packs),
    )

-- SQLite's row change gives the same entries as the manifest's.
pub mutate-with_pack_entry :
    (m : Manifest) (e : PackEntry) (replace : Bool) (g r : ℕ)
    → any (named e.pack_name) m.packs ≡ replace
    → mutate_packs (upsert e) m.packs ≡ (with_pack_entry m e replace g r).packs
unfolding mutate_packs with_pack_entry
mutate-with_pack_entry m e replace g r n = rw n refl

present-more :
    (a : Text × Text) (stored : List (Text × Text)) (ps : List PackEntry)
    → all (present stored) ps ≡ true
    → all (present (a ∷ stored)) ps ≡ true
unfolding all present any
present-more a stored [] h = refl
present-more a stored (p ∷ ps) h = ground (arith, present-more a stored ps)

pub present-promoted :
    (e : PackEntry) (stored : List (Text × Text)) → present (artifact_of e ∷ stored) e ≡ true
unfolding present any
present-promoted e stored = rw (text_eq_refl e.storage_key, text_eq_refl e.artifact_digest) refl

-- With the new artifact promoted, every entry of the target has its artifact.
pub targets-present :
    (m : Manifest) (e : PackEntry) (replace : Bool) (g r : ℕ) (stored : List (Text × Text))
    → all (present stored) m.packs ≡ true
    → (all (present (artifact_of e ∷ stored)) m.packs ≡ true)
      × (all (present (artifact_of e ∷ stored)) (with_pack_entry m e replace g r).packs ≡ true)
unfolding with_pack_entry
targets-present m e true g r stored h =
    let more = present-more (artifact_of e) stored m.packs h in
    (
      more,
      all-sort name_before (present (artifact_of e ∷ stored)) (replace_entry e m.packs)
          ∙ all-replace (present (artifact_of e ∷ stored)) e m.packs (present-promoted e stored)
              more,
    )
targets-present m e false g r stored h =
    let more = present-more (artifact_of e) stored m.packs h in
    let here = present-promoted e stored in
    (
      more,
      all-sort name_before (present (artifact_of e ∷ stored)) (m.packs ++ e ∷ [])
          ∙ all-append (present (artifact_of e ∷ stored)) m.packs (e ∷ [])
          ∙ unfold all in rw (more, here) refl,
    )

-- What is not `a` is still there when `a` is collected.
pub present-collected :
    (a : Text × Text) (stored : List (Text × Text)) (p : PackEntry)
    → present stored p ≡ true
    → same_artifact (artifact_of p) a ≡ false
    → present (keep (λ b. not (same_artifact b a)) stored) p ≡ true
unfolding present any keep
present-collected a [] p h d = h
present-collected (k, i) ((key, digest) ∷ stored) p h d = ground (
  arith,
  present-collected (k, i) stored p,
  text_eq_iff key p.storage_key,
  text_eq_iff digest p.artifact_digest,
)

abbrev pub left_of : PackEntry → Text → List (Text × Text) → List (Text × Text)
left_of e old stored =
    keep (λ b. not (same_artifact b (e.storage_key, old))) (artifact_of e ∷ stored)

-- Valid entries of different names have different storage keys.
pub keys_differ :
    (f : Formats) (e p : PackEntry)
    → entry_valid f e ≡ true
    → entry_valid f p ≡ true
    → named e.pack_name p ≡ false
    → text_eq p.storage_key e.storage_key ≡ false
unfolding entry_valid text_eq
keys_differ f e p a b n =
    let ke = (text_eq_iff e.storage_key (units "p-" ++ e.pack_name)).0 (ground arith) in
    let kp = (text_eq_iff p.storage_key (units "p-" ++ p.pack_name)).0 (ground arith) in
    rw (ke, kp) n

replaced-present :
    (f : Formats) (e : PackEntry) (old : Text) (stored : List (Text × Text))
    → entry_valid f e ≡ true
    → text_eq old e.artifact_digest ≡ false
    → (ps : List PackEntry) → all (entry_valid f) ps ≡ true
    → all (present (artifact_of e ∷ stored)) ps ≡ true
    → all (present (left_of e old stored)) (replace_entry e ps) ≡ true
unfolding all
replaced-present f e old stored w d [] a b = refl
replaced-present f e old stored w d (p ∷ ps) a b =
    let rest = replaced-present f e old stored w d ps (ground arith) (ground arith) in
    let own =
      present-collected (e.storage_key, old) (artifact_of e ∷ stored) e (present-promoted e stored)
        (ground (arith, text_eq_iff e.artifact_digest old, text_eq_iff old e.artifact_digest)) in
    elim (Bool-cases (named e.pack_name p)) [
      | inl y ↦ rw (y, own) rest
      | inr n ↦
          let other =
            present-collected (e.storage_key, old) (artifact_of e ∷ stored) p (ground arith)
              (rw (keys_differ f e p w (ground arith) n) refl) in
          rw (n, other) rest
    ]

-- An upgrade collects the artifact of the replaced entry only.
pub collected-present :
    (f : Formats) (m : Manifest) (e : PackEntry) (g r : ℕ) (old : Text)
    (stored : List (Text × Text))
    → manifest_valid f m ≡ true
    → entry_valid f e ≡ true
    → text_eq old e.artifact_digest ≡ false
    → all (present (artifact_of e ∷ stored)) m.packs ≡ true
    → all (present (left_of e old stored)) (with_pack_entry m e true g r).packs ≡ true
unfolding with_pack_entry
collected-present f m e g r old stored v w d h =
    all-sort name_before (present (left_of e old stored)) (replace_entry e m.packs)
    ∙ replaced-present f e old stored w d m.packs (unfold manifest_valid in ground arith) h
