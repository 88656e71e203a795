-- ===== src/Lifecycle/Install/Planning.antt =====
-- What `installOrUpgrade` has computed where it goes on to write.
use lorelum.Prelude.{
  >>=-ok, ℕ, ◌+◌, ◌≡◌, inl, inr, refl, Bool, true, false, some, List, [], ◌∷◌, leb, Text, text_eq,
  find, any, all, arith, Bool-cases,
}
use lorelum.LocalStore.Effective.{
  PackCandidate, EffectivePractice, Hashing, reconcile_effective_practices,
}
use lorelum.Lifecycle.Store.{
  Manifest, PackEntry, Formats, Mode, ok, manifest_valid, entry_valid, named, tuple_of,
  tuple_equals, present, max_safe_integer,
}
use lorelum.Lifecycle.Install.{
  next_store_counter, next_revision, with_pack_entry, target_manifest, is_upgrade, is_some,
  active_sources, replaced_pack, merged,
}
use lorelum.Lifecycle.Install.Targets.{
  with_pack_entry-valid, mutate-with_pack_entry, targets-present,
}
use lorelum.Lifecycle.Install.Crash.{Putting}

pub next_store_counter-ok :
    (n k : ℕ) → next_store_counter n ≡ ok k → (k ≡ n + 1) × (leb k max_safe_integer ≡ true)
unfolding next_store_counter
next_store_counter-ok n k h = ground arith

pub next_revision-ok :
    (b : Bool) (n k : ℕ)
    → leb n max_safe_integer ≡ true
    → next_revision b n ≡ ok k
    → leb k max_safe_integer ≡ true
unfolding next_revision
next_revision-ok true n k l h = (next_store_counter-ok n k h).1
next_revision-ok false n k l h = ground arith

pub find-any :
    (name : Text) (ps : List PackEntry) → any (named name) ps ≡ is_some (find (named name) ps)
unfolding any find
find-any name [] = refl
find-any name (p ∷ ps) = ground (arith, find-any name ps)

-- The published manifest is the old one with the entry put in, at the next generation.
pub target-with_pack_entry :
    (h : Hashing) (f : Formats) (active : Manifest) (candidate : PackCandidate) (entry : PackEntry)
    (mode : Mode) (practices : List EffectivePractice) (t : Manifest)
    → manifest_valid f active ≡ true
    → target_manifest h active candidate entry mode practices ≡ ok t
    → (g : ℕ) × (r : ℕ) × (t ≡ with_pack_entry active entry (is_upgrade mode) g r)
      × (g ≡ active.generation + 1)
      × (leb g max_safe_integer ≡ true)
      × (leb r max_safe_integer ≡ true)
unfolding target_manifest
target-with_pack_entry h f active candidate entry mode practices t v e =
    let (g, counted, e1) = >>=-ok (next_store_counter active.generation) _ e in
    let (rec, merging, e2) =
      >>=-ok
        (merged (
          reconcile_effective_practices h (active_sources practices) candidate
            (replaced_pack mode candidate.name)))
        _ e1 in
    let (r, revised, e3) =
      >>=-ok (next_revision rec.advances_effective_revision active.effective_revision) _ e2 in
    let (next, bound) = next_store_counter-ok active.generation g counted in
    (
      g,
      r,
      ground arith,
      next,
      bound,
      next_revision-ok rec.advances_effective_revision active.effective_revision r
          (unfold manifest_valid in ground arith) revised,
    )

-- `find` gives an entry of the list, under the name.
pub found-named :
    (name : Text) (ps : List PackEntry) (p : PackEntry)
    → find (named name) ps ≡ some p
    → text_eq p.pack_name name ≡ true
unfolding find
found-named name [] p h = ground arith
found-named name (q ∷ ps) p h = elim (Bool-cases (named name q)) [
  | inl y ↦ let e = rw y at h in ground arith
  | inr n ↦ found-named name ps p (rw n at h)
]

-- The tuples of the old and the new manifest differ, by their generations.
pub generation_apart :
    (m t : Manifest)
    → t.generation ≡ m.generation + 1
    → tuple_equals (tuple_of m) (tuple_of t) ≡ false
generation_apart m t e = ground arith

pub putting :
    (h : Hashing) (f : Formats) (m : Manifest) (candidate : PackCandidate) (e : PackEntry)
    (mode : Mode) (practices : List EffectivePractice) (t : Manifest) (stored : List (Text × Text))
    → manifest_valid f m ≡ true
    → entry_valid f e ≡ true
    → any (named e.pack_name) m.packs ≡ is_upgrade mode
    → all (present stored) m.packs ≡ true
    → target_manifest h m candidate e mode practices ≡ ok t
    → Putting f m stored t e
putting h f m candidate e mode practices t stored v w n p made =
    let (g, r, same, next, gb, rb) =
      target-with_pack_entry h f m candidate e mode practices t v made in
    let (kept, there) = targets-present m e (is_upgrade mode) g r stored p in
    record {
      old_valid = v;
      new_valid = rw same (with_pack_entry-valid f m e (is_upgrade mode) g r v w n gb rb);
      apart = generation_apart m t (rw same (unfold with_pack_entry in next));
      old_present = p;
      old_kept = kept;
      new_present = rw same there;
      rows = rw same (mutate-with_pack_entry m e (is_upgrade mode) g r n);
    }
