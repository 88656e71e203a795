-- ===== src/Lifecycle/Install/Atomic.antt =====
-- `installOrUpgrade` as a whole: at whatever write it stops, the Store ends in one of two states.
use lorelum.Prelude.{
  >>=-ok, ℕ, zero, suc, ◌≡◌, ◌⊎◌, inl, inr, refl, ◌∙◌, subst, Bool, true, false, not, ◌&&◌, Option,
  none, List, [], ◌∷◌, leb, if◌then◌else◌, Text, find, all, arith, Bool-cases, Option-cases,
}
use lorelum.LocalStore.Effective.{PackCandidate, EffectivePractice, Hashing}
use lorelum.Lifecycle.Store.{
  Manifest, PackEntry, Formats, Mode, install_mode, upgrade_mode, Result, ok, ◌>>◌, refuse, Effect,
  sync, run, apply, manifest_valid, entry_valid, named, present, links_of, artifact_of,
  sync_current_pack_locators,
}
use lorelum.Lifecycle.Recovery.Settled.{settled, enter-settled}
use lorelum.Lifecycle.Install.{
  target_manifest, entry_for_candidate, put_effects, garbage, install_or_upgrade, is_upgrade,
  has_digest, is_some,
}
use lorelum.Lifecycle.Install.Targets.{collected-present}
use lorelum.Lifecycle.Install.Crash.{
  crashed, no_cleanup, collecting, IsRecoveredTo, put_crash_recovers,
}
use lorelum.Lifecycle.Install.Planning.{find-any, target-with_pack_entry, putting}

-- The idempotent run only links again.
idempotent_crash :
    (f : Formats) (m : Manifest) (stored links : List (Text × Text)) (n : ℕ)
    → manifest_valid f m ≡ true
    → all (present stored) m.packs ≡ true
    → IsRecoveredTo f m (sync m ∷ []) n (settled m stored links)
unfolding crashed run apply sync_current_pack_locators
idempotent_crash f m stored links zero v p = (stored, enter-settled f m stored links v p, p)
idempotent_crash f m stored links (suc zero) v p =
    (stored, rw p (enter-settled f m stored (links_of m.packs) v p), p)
idempotent_crash f m stored links (suc (suc k)) v p =
    (stored, rw p (enter-settled f m stored (links_of m.packs) v p), p)

pub refuse-ok :
    {B : Type 0} (b : Bool) (x : _) (r : Result B) {c : B}
    → (refuse b x >> r) ≡ ok c
    → (b ≡ false) × (r ≡ ok c)
refuse-ok true x r h = ground arith
refuse-ok false x r h = (refl, h)

missing : {o : Option PackEntry} → is_some o ≡ true → o ≡ none → ⊥
missing h e = ground arith

-- What the writes of a run that changes something are.
changing :
    (h : Hashing) (f : Formats) (m : Manifest) (candidate : PackCandidate) (e : PackEntry)
    (id : Text) (mode : Mode) (practices : List EffectivePractice) (t : Manifest)
    (stored links : List (Text × Text)) (n : ℕ)
    → manifest_valid f m ≡ true
    → entry_valid f e ≡ true
    → has_digest e.artifact_digest (find (named e.pack_name) m.packs) ≡ false
    → is_some (find (named e.pack_name) m.packs) ≡ is_upgrade mode
    → all (present stored) m.packs ≡ true
    → target_manifest h m candidate e mode practices ≡ ok t
    → IsRecoveredTo f
        (if leb n 4 then m else t)
        (put_effects id m t e (garbage mode (find (named e.pack_name) m.packs) e))
        n
        (settled m stored links)
changing h f m candidate e id install_mode practices t stored links n v w d o p made =
    let put =
      putting h f m candidate e install_mode practices t stored v w
        (find-any e.pack_name m.packs ∙ o) p made in
    put_crash_recovers f m t e id stored links [] put
      (no_cleanup f t (artifact_of e ∷ stored) (links_of t.packs) put.new_present) n
changing h f m candidate e id upgrade_mode practices t stored links n v w d o p made =
    let put =
      putting h f m candidate e upgrade_mode practices t stored v w
        (find-any e.pack_name m.packs ∙ o) p made in
    let (g, r, same, next, gb, rb) =
      target-with_pack_entry h f m candidate e upgrade_mode practices t v made in
    elim (Option-cases (find (named e.pack_name) m.packs)) [
      | inl none_there ↦ let absurd : ⊥ = missing o none_there in elim absurd [ ]
      | inr (old, found) ↦ rw found (
          put_crash_recovers f m t e id stored links _ put
            (collecting f t e old.artifact_digest stored (links_of t.packs) put.new_present (
              rw same (
                collected-present f m e g r old.artifact_digest stored v w (rw found at d)
                  put.old_kept)))
            n)
    ]

-- What a run that changes something decided.
planned :
    (h : Hashing) (m : Manifest) (candidate : PackCandidate) (version digest now id : Text)
    (mode : Mode) (practices : List EffectivePractice) (effects : List Effect)
    → has_digest digest (find (named candidate.name) m.packs) ≡ false
    → install_or_upgrade h m candidate version digest now id mode practices ≡ ok effects
    → (is_some (find (named candidate.name) m.packs) ≡ is_upgrade mode)
      × (t : Manifest) × (target_manifest h m candidate
            (entry_for_candidate candidate version digest now)
            mode
            practices
          ≡ ok t)
      × (put_effects id m t (entry_for_candidate candidate version digest now) (
            garbage mode
              (find (named candidate.name) m.packs)
              (entry_for_candidate candidate version digest now))
          ≡ effects)
unfolding install_or_upgrade
planned h m candidate version digest now id mode practices effects differs e =
    let e0 = rw differs at e in
    let (fresh, e1) = refuse-ok _ _ _ e0 in
    let (there, e2) = refuse-ok _ _ _ e1 in
    let (t, made, e3) =
      >>=-ok
        (target_manifest h m candidate (entry_for_candidate candidate version digest now) mode
          practices)
        _ e2 in
    (modes mode (is_some (find (named candidate.name) m.packs)) fresh there, t, made, ground arith)
  where
    modes :
        (mode : Mode) (b : Bool)
        → (not (is_upgrade mode) && b) ≡ false
        → (is_upgrade mode && not b) ≡ false
        → b ≡ is_upgrade mode
    modes install_mode b x y = x
    modes upgrade_mode b x y = ground arith

-- `installOrUpgrade` on a settled Store with its artifacts in place, for an entry of a valid form,
-- stopped after any number `n` of its writes: the next mutation finds no half-written state. Either
-- the digest was already active, and recovery ends with the old manifest; or recovery ends with the
-- old manifest up to the fourth write (the journal, the artifact, the manifest file, the links) and
-- with the new one from the SQLite commit on. In each case manifest, SQLite tuple, SQLite's Pack rows
-- and links agree, no journal is left, and every active Pack has its artifact.
pub install_or_upgrade_atomic :
    (h : Hashing) (f : Formats) (m : Manifest) (candidate : PackCandidate)
    (version digest now id : Text) (mode : Mode) (practices : List EffectivePractice)
    (stored links : List (Text × Text)) (effects : List Effect) (n : ℕ)
    → manifest_valid f m ≡ true
    → entry_valid f (entry_for_candidate candidate version digest now) ≡ true
    → all (present stored) m.packs ≡ true
    → install_or_upgrade h m candidate version digest now id mode practices ≡ ok effects
    → ((has_digest digest (find (named candidate.name) m.packs) ≡ true)
        × IsRecoveredTo f m effects n (settled m stored links))
      ⊎ ((t : Manifest) × (target_manifest h m candidate
              (entry_for_candidate candidate version digest now)
              mode
              practices
            ≡ ok t)
          × IsRecoveredTo f (if leb n 4 then m else t) effects n (settled m stored links))
unfolding install_or_upgrade entry_for_candidate
install_or_upgrade_atomic h f m candidate version digest now id mode practices stored links effects
      n v w p e =
    elim (Bool-cases (has_digest digest (find (named candidate.name) m.packs))) [
      | inl same ↦ inl (
        same,
        subst (λ es. IsRecoveredTo f m es n (settled m stored links)) (decided same)
            (idempotent_crash f m stored links n v p),
      )
      | inr differs ↦
          let (o, t, made, same) =
            planned h m candidate version digest now id mode practices effects differs e in
          inr (
            t,
            made,
            subst (λ es. IsRecoveredTo f (if leb n 4 then m else t) es n (settled m stored links))
                same
                (changing h f m candidate (entry_for_candidate candidate version digest now) id mode
                  practices t stored links n v w differs o p made),
          )
    ]
  where
    decided :
        has_digest digest (find (named candidate.name) m.packs) ≡ true → (sync m ∷ []) ≡ effects
    decided s = ground arith
