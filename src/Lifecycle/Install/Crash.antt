-- ===== src/Lifecycle/Install/Crash.antt =====
-- A mutation that stops after any number of its writes, and the recovery at the next entry.
use lorelum.Prelude.{
  ℕ, zero, suc, ◌+◌, ◌≡◌, refl, ap, sym, ◌∙◌, subst, Bool, true, false, not, ◌&&◌, ◌||◌, Option,
  none, some, List, [], ◌∷◌, ◌++◌, leb, ◌==◌, if◌then◌else◌, Text, text_eq, all, keep, any, arith,
}
use lorelum.Lifecycle.Store.{
  Store, Manifest, PackEntry, Formats, Result, ok, ◌>>=◌, Effect, collect, run, apply,
  write_manifest, sync_current_pack_locators, clear_operation_journal, manifest_valid, tuple_of,
  tuple_equals, present, links_of, artifact_of, mutate_packs, upsert,
}
use lorelum.Lifecycle.Recovery.{RecoveryResult, enter_mutation}
use lorelum.Lifecycle.Recovery.Settled.{
  settled, recovered, enter-settled, enter-interrupted-old, enter-interrupted-target,
}
use lorelum.Lifecycle.Install.{put_effects, journal_for}
use lorelum.Lifecycle.Install.Targets.{left_of}

-- The first `n` writes.
abbrev pub take {ℓ} : {A : Type ℓ} → ℕ → List A → List A
take zero xs = []
take (suc n) [] = []
take (suc n) (x ∷ xs) = x ∷ take n xs

-- The process stops after `n` writes, and a later mutation enters the Store.
unfoldable pub crashed : Formats → List Effect → ℕ → Store → Result (Store × RecoveryResult)
unfolding run enter_mutation
crashed f effects n s = run f (take n effects) s >>= enter_mutation f

-- What a mutation is put together from.
pub record Putting (f : Formats) (m : Manifest) (stored : List (Text × Text)) (t : Manifest)
    (e : PackEntry) : Type 0 where
  pub old_valid : manifest_valid f m ≡ true
  pub new_valid : manifest_valid f t ≡ true
  pub apart : tuple_equals (tuple_of m) (tuple_of t) ≡ false
  pub old_present : all (present stored) m.packs ≡ true
  pub old_kept : all (present (artifact_of e ∷ stored)) m.packs ≡ true
  pub new_present : all (present (artifact_of e ∷ stored)) t.packs ≡ true
  pub rows : mutate_packs (upsert e) m.packs ≡ t.packs

-- The Store after each write, by the number of writes made.
module _ (f : Formats) (m t : Manifest) (e : PackEntry) (id : Text)
    (stored links : List (Text × Text)) (p : Putting f m stored t e) where
  crashed-journal :
      (cleanup : List Effect)
      → crashed f (put_effects id m t e cleanup) 1 (settled m stored links) ≡ recovered m stored
  unfolding crashed run apply put_effects
  crashed-journal cleanup =
      enter-interrupted-old f (journal_for id m t) m stored links p.old_valid p.new_valid p.apart
        p.old_present

  crashed-promoted :
      (cleanup : List Effect)
      → crashed f (put_effects id m t e cleanup) 2 (settled m stored links)
        ≡ recovered m (artifact_of e ∷ stored)
  unfolding crashed run apply put_effects
  crashed-promoted cleanup =
      enter-interrupted-old f (journal_for id m t) m (artifact_of e ∷ stored) links p.old_valid
        p.new_valid p.apart p.old_kept

  crashed-published :
      (cleanup : List Effect)
      → crashed f (put_effects id m t e cleanup) 3 (settled m stored links)
        ≡ recovered m (artifact_of e ∷ stored)
  unfolding crashed run apply put_effects write_manifest
  crashed-published cleanup = rw p.new_valid (
      enter-interrupted-old f (journal_for id m t) t (artifact_of e ∷ stored) links p.old_valid
        p.new_valid p.apart p.old_kept)

  crashed-linked :
      (cleanup : List Effect)
      → crashed f (put_effects id m t e cleanup) 4 (settled m stored links)
        ≡ recovered m (artifact_of e ∷ stored)
  unfolding crashed run apply put_effects write_manifest sync_current_pack_locators
  crashed-linked cleanup =
      rw (p.new_valid, p.new_present)
        (enter-interrupted-old f (journal_for id m t) t (artifact_of e ∷ stored) (links_of t.packs)
          p.old_valid p.new_valid p.apart p.old_kept)

  crashed-committed :
      (cleanup : List Effect)
      → crashed f (put_effects id m t e cleanup) 5 (settled m stored links)
        ≡ recovered t (artifact_of e ∷ stored)
  unfolding crashed run apply put_effects write_manifest sync_current_pack_locators
  crashed-committed cleanup =
      rw (p.new_valid, p.new_present, p.rows)
        (enter-interrupted-target f (journal_for id m t) (artifact_of e ∷ stored) (links_of t.packs)
          p.old_valid p.new_valid p.new_present)

  -- The Store once the journal is cleared.
  run-cleared :
      (cleanup : List Effect)
      → run f (put_effects id m t e cleanup) (settled m stored links)
        ≡ run f cleanup (settled t (artifact_of e ∷ stored) (links_of t.packs))
  unfolding run apply put_effects write_manifest sync_current_pack_locators clear_operation_journal
      keep
  run-cleared cleanup =
      rw (p.new_valid, p.new_present, p.rows, lorelum.Prelude.text_eq_refl id) refl

-- Garbage collection that stops after any number of its writes leaves the artifacts of `t`.
abbrev pub IsSafeCleanup :
    Formats → Manifest → List (Text × Text) → List (Text × Text) → List Effect → Type 0
IsSafeCleanup f t stored links cleanup =
    (k : ℕ)
    → (kept : List (Text × Text)) × (run f (take k cleanup) (settled t stored links)
        ≡ ok (settled t kept links))
      × (all (present kept) t.packs ≡ true)

pub no_cleanup :
    (f : Formats) (t : Manifest) (stored links : List (Text × Text))
    → all (present stored) t.packs ≡ true
    → IsSafeCleanup f t stored links []
unfolding run
no_cleanup f t stored links h zero = (stored, refl, h)
no_cleanup f t stored links h (suc k) = (stored, refl, h)

pub collecting :
    (f : Formats) (t : Manifest) (e : PackEntry) (old : Text) (stored links : List (Text × Text))
    → all (present (artifact_of e ∷ stored)) t.packs ≡ true
    → all (present (left_of e old stored)) t.packs ≡ true
    → IsSafeCleanup f t (artifact_of e ∷ stored) links (collect (e.storage_key, old) ∷ [])
unfolding run apply
collecting f t e old stored links h l zero = (artifact_of e ∷ stored, refl, h)
collecting f t e old stored links h l (suc zero) = (left_of e old stored, refl, l)
collecting f t e old stored links h l (suc (suc k)) = (left_of e old stored, refl, l)

-- Where recovery ends, after `n` of the writes.
abbrev pub IsRecoveredTo : Formats → Manifest → List Effect → ℕ → Store → Type 0
IsRecoveredTo f m effects n s =
    (kept : List (Text × Text)) × (crashed f effects n s ≡ recovered m kept)
    × (all (present kept) m.packs ≡ true)

late_crash :
    (f : Formats) (m t : Manifest) (e : PackEntry) (id : Text) (stored links : List (Text × Text))
    (cleanup : List Effect)
    → Putting f m stored t e
    → IsSafeCleanup f t (artifact_of e ∷ stored) (links_of t.packs) cleanup
    → (k : ℕ)
    → IsRecoveredTo f t
        (put_effects id m t e cleanup)
        (suc (suc (suc (suc (suc (suc k))))))
        (settled m stored links)
unfolding crashed put_effects
late_crash f m t e id stored links cleanup p c k =
    let (kept, ran, there) = c k in
    (
      kept,
      ap (λ r. r >>= enter_mutation f)
            (run-cleared f m t e id stored links p (take k cleanup) ∙ ran)
          ∙ enter-settled f t kept (links_of t.packs) p.new_valid there,
      there,
    )

pub put_crash_recovers :
    (f : Formats) (m t : Manifest) (e : PackEntry) (id : Text) (stored links : List (Text × Text))
    (cleanup : List Effect)
    → Putting f m stored t e
    → IsSafeCleanup f t (artifact_of e ∷ stored) (links_of t.packs) cleanup
    → (n : ℕ)
    → IsRecoveredTo f
        (if leb n 4 then m else t)
        (put_effects id m t e cleanup)
        n
        (settled m stored links)
put_crash_recovers f m t e id stored links cleanup p c zero = (
  stored,
  unfold crashed run in enter-settled f m stored links p.old_valid p.old_present,
  p.old_present,
)
put_crash_recovers f m t e id stored links cleanup p c (suc zero) =
    (stored, crashed-journal f m t e id stored links p cleanup, p.old_present)
put_crash_recovers f m t e id stored links cleanup p c (suc (suc zero)) =
    (artifact_of e ∷ stored, crashed-promoted f m t e id stored links p cleanup, p.old_kept)
put_crash_recovers f m t e id stored links cleanup p c (suc (suc (suc zero))) =
    (artifact_of e ∷ stored, crashed-published f m t e id stored links p cleanup, p.old_kept)
put_crash_recovers f m t e id stored links cleanup p c (suc (suc (suc (suc zero)))) =
    (artifact_of e ∷ stored, crashed-linked f m t e id stored links p cleanup, p.old_kept)
put_crash_recovers f m t e id stored links cleanup p c (suc (suc (suc (suc (suc zero))))) =
    (artifact_of e ∷ stored, crashed-committed f m t e id stored links p cleanup, p.new_present)
put_crash_recovers f m t e id stored links cleanup p c (suc (suc (suc (suc (suc (suc k)))))) =
    let late : leb (suc (suc (suc (suc (suc (suc k)))))) 4 ≡ false = ground arith in
    subst
      (λ b.
        IsRecoveredTo f (if b then m else t) (put_effects id m t e cleanup)
          (suc (suc (suc (suc (suc (suc k)))))) (settled m stored links))
      (sym late) (late_crash f m t e id stored links cleanup p c k)
