-- ===== src/Lifecycle/Install/Uninstall.antt =====
-- `uninstallPack`: where the Store ends when it stops after any of its writes.
use lorelum.Prelude.{
  ok_inj, >>=-ok, ℕ, ◌+◌, ◌≡◌, refl, ap, sym, ◌∙◌, subst, Bool, true, false, not, ◌&&◌, ◌||◌,
  Option, none, some, List, [], ◌∷◌, leb, ◌==◌, if◌then◌else◌, Text, text_eq, text_eq_iff, find,
  all, keep, arith, Bool-cases, inl, inr,
}
use lorelum.LocalStore.Effective.{EffectivePractice, remove_pack_sources, Hashing}
use lorelum.Lifecycle.Store.{
  Manifest, PackEntry, Formats, ok, Effect, manifest_valid, entry_valid, named, present,
}
use lorelum.Lifecycle.Recovery.Settled.{settled}
use lorelum.Lifecycle.Install.{
  next_store_counter, next_revision, without_pack, uninstall_pack, required_pack, active_sources,
  merged,
}
use lorelum.Lifecycle.Install.Crash.{IsRecoveredTo}
use lorelum.Lifecycle.Install.Planning.{next_store_counter-ok, next_revision-ok, found-named}
use lorelum.Lifecycle.Install.Removal.{removing, removal_crash_recovers}

found-all :
    (q p : PackEntry → Bool) (ps : List PackEntry) (e : PackEntry)
    → all q ps ≡ true
    → find p ps ≡ some e
    → q e ≡ true
unfolding all find
found-all q p [] e a h = ground arith
found-all q p (x ∷ ps) e a h = elim (Bool-cases (p x)) [
  | inl y ↦ let i = rw y at h in subst (λ z. q z ≡ true) (lorelum.Prelude.some_inj i) (ground arith)
  | inr n ↦ found-all q p ps e (ground arith) (rw n at h)
]

required-found : (o : Option PackEntry) (e : PackEntry) → required_pack o ≡ ok e → o ≡ some e
required-found none e h = ground arith
required-found (some x) e h = ground arith

-- `uninstallPack` on a settled Store with its artifacts in place, stopped after any number `n` of
-- its writes: recovery ends with the old manifest up to the third write (the journal, the manifest
-- file, the link) and from the SQLite commit on with the manifest that has the other entries of the
-- old one in their order at the next generation. In each case manifest, SQLite tuple, SQLite's Pack
-- rows and links agree, no journal is left, and every active Pack has its artifact.
pub uninstall_pack_atomic :
    (h : Hashing) (f : Formats) (m : Manifest) (name id : Text) (practices : List EffectivePractice)
    (stored links : List (Text × Text)) (effects : List Effect) (n : ℕ)
    → manifest_valid f m ≡ true
    → all (present stored) m.packs ≡ true
    → uninstall_pack h m name id practices ≡ ok effects
    → (t : Manifest) × (t.packs ≡ keep (λ p. not (named name p)) m.packs)
      × (t.generation ≡ m.generation + 1)
      × IsRecoveredTo f (if leb n 3 then m else t) effects n (settled m stored links)
unfolding uninstall_pack
uninstall_pack_atomic h f m name id practices stored links effects n v p e =
    let (entry, requiring, e1) = >>=-ok (required_pack (find (named name) m.packs)) _ e in
    let (rec, merging, e2) =
      >>=-ok (merged (remove_pack_sources h (active_sources practices) name)) _ e1 in
    let (r, revised, e3) =
      >>=-ok (next_revision rec.advances_effective_revision m.effective_revision) _ e2 in
    let (t, made, e4) = >>=-ok (without_pack m name r) _ e3 in
    let (g, counted, e5) =
      >>=-ok (next_store_counter m.generation) _ (unfold without_pack in made) in
    let (next, bound) = next_store_counter-ok m.generation g counted in
    let found = required-found (find (named name) m.packs) entry requiring in
    let same_name = (text_eq_iff entry.pack_name name).0 (found-named name m.packs entry found) in
    let target : t ≡ target_of g r name = sym (ok_inj e5) in
    let facts =
      removing f m t entry stored g r v
        (found-all (entry_valid f) (named name) m.packs entry
          (unfold manifest_valid in ground arith) found)
        p (target ∙ ap (target_of g r) (sym same_name)) next bound
        (next_revision-ok rec.advances_effective_revision m.effective_revision r
          (unfold manifest_valid in ground arith) revised) in
    (
      t,
      ap Manifest.packs target,
      ap Manifest.generation target ∙ next,
      subst (λ es. IsRecoveredTo f (if leb n 3 then m else t) es n (settled m stored links))
          (ok_inj e4) (removal_crash_recovers f m t entry id stored links facts n),
    )
  where
    target_of : ℕ → ℕ → Text → Manifest
    target_of g r x = record {
      schema_version = m.schema_version;
      generation = g;
      effective_revision = r;
      packs = keep (λ p. not (named x p)) m.packs;
    }
