-- ===== src/Lifecycle/Install/Removal.antt =====
-- `uninstallPack` as a whole: the manifest without the Pack, and a stop after any of its writes.
use lorelum.Prelude.{
  ℕ, zero, suc, ◌+◌, ◌≡◌, refl, sym, subst, Bool, true, false, not, List, [], ◌∷◌, leb,
  if◌then◌else◌, Text, text_eq, text_eq_refl, text_lt_trans, any, all, keep, arith, Bool-cases, inl,
  inr,
}
use lorelum.Lifecycle.Store.{
  Manifest, PackEntry, Formats, run, apply, write_manifest, clear_operation_journal, manifest_valid,
  entry_valid, distinct_names, ordered, named, name_before, same_artifact, tuple_of, tuple_equals,
  present, artifact_of, mutate_packs, max_safe_integer,
}
use lorelum.Lifecycle.Recovery.Settled.{
  settled, recovered, enter-settled, enter-interrupted-old, enter-interrupted-target,
}
use lorelum.Lifecycle.Install.{remove_effects, journal_for}
use lorelum.Lifecycle.Install.Targets.{present-collected, keys_differ}
use lorelum.Lifecycle.Install.Crash.{crashed, IsRecoveredTo}
use lorelum.Lifecycle.Install.Planning.{generation_apart}

all-keep {ℓ} :
    {A : Type ℓ} (q p : A → Bool) (xs : List A) → all q xs ≡ true → all q (keep p xs) ≡ true
unfolding all keep
all-keep q p [] h = refl
all-keep q p (x ∷ xs) h = ground (arith, all-keep q p xs)

any-keep-false :
    (q p : PackEntry → Bool) (xs : List PackEntry) → any q xs ≡ false → any q (keep p xs) ≡ false
unfolding any keep
any-keep-false q p [] h = refl
any-keep-false q p (x ∷ xs) h = ground (arith, any-keep-false q p xs)

distinct-keep :
    (p : PackEntry → Bool) (xs : List PackEntry)
    → distinct_names xs ≡ true
    → distinct_names (keep p xs) ≡ true
unfolding distinct_names keep
distinct-keep p [] h = refl
distinct-keep p (x ∷ xs) h =
    ground (arith, distinct-keep p xs, any-keep-false (named x.pack_name) p xs)

-- The first of an ordered list is before all others.
ordered-all :
    (x : PackEntry) (ys : List PackEntry) → ordered (x ∷ ys) ≡ true → all (name_before x) ys ≡ true
unfolding ordered all
ordered-all x [] h = refl
ordered-all x (y ∷ []) h = ground arith
ordered-all x (y ∷ z ∷ zs) h =
    ground (arith, ordered-all x (z ∷ zs), text_lt_trans x.pack_name y.pack_name z.pack_name)

ordered-cons :
    (x : PackEntry) (ys : List PackEntry)
    → all (name_before x) ys ≡ true
    → ordered ys ≡ true
    → ordered (x ∷ ys) ≡ true
unfolding ordered all
ordered-cons x [] h k = refl
ordered-cons x (y ∷ ys) h k = ground arith

ordered-tail : (x : PackEntry) (ys : List PackEntry) → ordered (x ∷ ys) ≡ true → ordered ys ≡ true
unfolding ordered
ordered-tail x [] h = refl
ordered-tail x (y ∷ ys) h = ground arith

ordered-keep :
    (p : PackEntry → Bool) (xs : List PackEntry) → ordered xs ≡ true → ordered (keep p xs) ≡ true
unfolding keep
ordered-keep p [] h = h
ordered-keep p (x ∷ xs) h =
    let rest = ordered-keep p xs (ordered-tail x xs h) in
    elim (Bool-cases (p x)) [
      | inl e ↦
          rw e
            (ordered-cons x (keep p xs) (all-keep (name_before x) p xs (ordered-all x xs h)) rest)
      | inr e ↦ rw e rest
    ]

-- The Pack's own artifact may go: the other entries have other storage keys.
others-present :
    (f : Formats) (e : PackEntry) (stored : List (Text × Text)) (ps : List PackEntry)
    → entry_valid f e ≡ true
    → all (entry_valid f) ps ≡ true
    → all (present stored) ps ≡ true
    → all
        (present (keep (λ b. not (same_artifact b (artifact_of e))) stored))
        (keep (λ p. not (named e.pack_name p)) ps)
      ≡ true
unfolding all keep
others-present f e stored [] w a b = refl
others-present f e stored (p ∷ ps) w a b =
    let rest = others-present f e stored ps w (ground arith) (ground arith) in
    elim (Bool-cases (named e.pack_name p)) [
      | inl y ↦ rw y rest
      | inr n ↦
          let other =
            present-collected (artifact_of e) stored p (ground arith)
              (rw (keys_differ f e p w (ground arith) n) refl) in
          rw (n, other) rest
    ]

pub record Removing (f : Formats) (m : Manifest) (stored : List (Text × Text)) (t : Manifest)
    (e : PackEntry) : Type 0 where
  pub old_valid : manifest_valid f m ≡ true
  pub new_valid : manifest_valid f t ≡ true
  pub apart : tuple_equals (tuple_of m) (tuple_of t) ≡ false
  pub old_present : all (present stored) m.packs ≡ true
  pub new_present : all (present stored) t.packs ≡ true
  pub new_kept :
      all (present (keep (λ b. not (same_artifact b (artifact_of e))) stored)) t.packs ≡ true
  pub rows : keep (λ p. not (named e.pack_name p)) m.packs ≡ t.packs

pub removal_crash_recovers :
    (f : Formats) (m t : Manifest) (e : PackEntry) (id : Text) (stored links : List (Text × Text))
    → Removing f m stored t e
    → (n : ℕ)
    → IsRecoveredTo f
        (if leb n 3 then m else t)
        (remove_effects id m t e)
        n
        (settled m stored links)
unfolding crashed run apply remove_effects write_manifest clear_operation_journal mutate_packs
removal_crash_recovers f m t e id stored links p zero =
    (stored, enter-settled f m stored links p.old_valid p.old_present, p.old_present)
removal_crash_recovers f m t e id stored links p (suc zero) = (
  stored,
  enter-interrupted-old f (journal_for id m t) m stored links p.old_valid p.new_valid p.apart
      p.old_present,
  p.old_present,
)
removal_crash_recovers f m t e id stored links p (suc (suc zero)) = (
  stored,
  rw p.new_valid (
      enter-interrupted-old f (journal_for id m t) t stored links p.old_valid p.new_valid p.apart
        p.old_present),
  p.old_present,
)
removal_crash_recovers f m t e id stored links p (suc (suc (suc zero))) = (
  stored,
  rw p.new_valid (
      enter-interrupted-old f (journal_for id m t) t stored
        (keep (λ l. not (text_eq l.0 e.storage_key)) links) p.old_valid p.new_valid p.apart
        p.old_present),
  p.old_present,
)
removal_crash_recovers f m t e id stored links p (suc (suc (suc (suc zero)))) = (
  stored,
  rw (p.new_valid, p.rows)
      (enter-interrupted-target f (journal_for id m t) stored
        (keep (λ l. not (text_eq l.0 e.storage_key)) links) p.old_valid p.new_valid p.new_present),
  p.new_present,
)
removal_crash_recovers f m t e id stored links p (suc (suc (suc (suc (suc zero))))) = (
  stored,
  rw (p.new_valid, p.rows)
      (unfold keep in
        rw (text_eq_refl id) (
          enter-settled f t stored (keep (λ l. not (text_eq l.0 e.storage_key)) links) p.new_valid
            p.new_present)),
  p.new_present,
)
removal_crash_recovers f m t e id stored links p (suc (suc (suc (suc (suc (suc k)))))) =
    let late : leb (suc (suc (suc (suc (suc (suc k)))))) 3 ≡ false = ground arith in
    subst
      (λ b.
        IsRecoveredTo f (if b then m else t) (remove_effects id m t e)
          (suc (suc (suc (suc (suc (suc k)))))) (settled m stored links))
      (sym late) (keep (λ b. not (same_artifact b (artifact_of e))) stored, collected k, p.new_kept)
  where
    collected :
        (k : ℕ)
        → crashed f
            (remove_effects id m t e)
            (suc (suc (suc (suc (suc (suc k))))))
            (settled m stored links)
          ≡ recovered t (keep (λ b. not (same_artifact b (artifact_of e))) stored)
    collected zero =
        rw (p.new_valid, p.rows)
          (unfold keep in
            rw (text_eq_refl id) (
              enter-settled f t (keep (λ b. not (same_artifact b (artifact_of e))) stored)
                (keep (λ l. not (text_eq l.0 e.storage_key)) links) p.new_valid p.new_kept))
    collected (suc k) =
        rw (p.new_valid, p.rows)
          (unfold keep in
            rw (text_eq_refl id) (
              enter-settled f t (keep (λ b. not (same_artifact b (artifact_of e))) stored)
                (keep (λ l. not (text_eq l.0 e.storage_key)) links) p.new_valid p.new_kept))

-- The manifest without a Pack is valid again, and every Pack that is left has its artifact, also
-- once that of the removed Pack is collected.
pub removing :
    (f : Formats) (m t : Manifest) (e : PackEntry) (stored : List (Text × Text)) (g r : ℕ)
    → manifest_valid f m ≡ true
    → entry_valid f e ≡ true
    → all (present stored) m.packs ≡ true
    → t ≡ record {
      schema_version = m.schema_version;
      generation = g;
      effective_revision = r;
      packs = keep (λ p. not (named e.pack_name p)) m.packs;
    }
    → g ≡ m.generation + 1
    → leb g max_safe_integer ≡ true
    → leb r max_safe_integer ≡ true
    → Removing f m stored t e
removing f m t e stored g r v w p same next gb rb = record {
  old_valid = v;
  new_valid = rw same (valid v);
  apart = generation_apart m t (rw same next);
  old_present = p;
  new_present = rw same (all-keep (present stored) (λ p. not (named e.pack_name p)) m.packs p);
  new_kept =
      rw same (others-present f e stored m.packs w (unfold manifest_valid in ground arith) p);
  rows = rw same refl;
}
  where
    valid :
        manifest_valid f m ≡ true
        → manifest_valid f (record {
          schema_version = m.schema_version;
          generation = g;
          effective_revision = r;
          packs = keep (λ p. not (named e.pack_name p)) m.packs;
        })
          ≡ true
    valid u =
        unfold manifest_valid in
        ground (
          arith,
          all-keep (entry_valid f) (λ p. not (named e.pack_name p)) m.packs,
          distinct-keep (λ p. not (named e.pack_name p)) m.packs,
          ordered-keep (λ p. not (named e.pack_name p)) m.packs,
        )
