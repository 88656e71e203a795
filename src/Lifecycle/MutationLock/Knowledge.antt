-- ===== src/Lifecycle/MutationLock/Knowledge.antt =====
-- What a process that reclaims a lock knows at each of its accesses in Reclaim.
use lorelum.Prelude.{
  ℕ, ◌≡◌, ◌⊎◌, sym, subst, inl, inr, Bool, Bool-cases, true, false, not, ◌&&◌, ◌||◌, Option, none,
  some, List, ◌∷◌, ◌==◌, any, listed, set, arith,
}
use lorelum.Lifecycle.MutationLock.Reclaim.{
  HolderPhase, outside, holding, unlinking, released, ReclaimPhase, idle, found, claiming,
  inspecting, examining, retiring, confirming, checking, removing, releasing, World, is_at,
}

-- A handle whose lock file is there: `acquireMutationLock` gave it, and `release` has not unlinked.
abbrev pub has_lock : HolderPhase → Bool
has_lock holding = true
has_lock unlinking = true
has_lock outside = false
has_lock released = false

abbrev pub holds : ℕ → World → Bool
holds n w = has_lock (w.holder n) && not (listed n w.dead)

-- What a reclaiming process knows where it stands: its target's process is gone, the guard is its
-- own, and before `unlink` the lock file is the target's.
abbrev pub knows_of : List ℕ → (ℕ → Option ℕ) → Option ℕ → ℕ → ReclaimPhase → Bool
knows_of dead guard lock i idle = true
knows_of dead guard lock i (found t) = true
knows_of dead guard lock i (claiming t) = listed t dead
knows_of dead guard lock i (inspecting t) = true
knows_of dead guard lock i (examining t c) = true
knows_of dead guard lock i (retiring t) = true
knows_of dead guard lock i (confirming t) = listed t dead && is_at i (guard t)
knows_of dead guard lock i (checking t) = listed t dead && is_at i (guard t) && is_at t lock
knows_of dead guard lock i (removing t) = listed t dead && is_at i (guard t) && is_at t lock
knows_of dead guard lock i (releasing t) = is_at i (guard t)

abbrev pub knows : ℕ → ReclaimPhase → World → Bool
knows i phase w = knows_of w.dead w.guard w.lock i phase

abbrev pub IsGuarded : World → Type 0
IsGuarded w =
    ((n : ℕ) → (not (holds n w) || is_at n w.lock) ≡ true)
    × ((i : ℕ) → knows i (w.reclaimer i) w ≡ true)

same_number : (i k : ℕ) → (i == k) ≡ true → i ≡ k
same_number i k h = ground arith

-- The process that moved, and each other one.
pub knows-set :
    (i k : ℕ) (ph : ReclaimPhase) (r : ℕ → ReclaimPhase) (w : World)
    → knows k ph w ≡ true
    → ((i == k) ≡ false → knows i (r i) w ≡ true)
    → knows i (set k ph r i) w ≡ true
knows-set i k ph r w own others = elim (Bool-cases (i == k)) [
  | inl same ↦ rw same (subst (λ j. knows j ph w ≡ true) (sym (same_number i k same)) own)
  | inr other ↦ rw other (others other)
]

pub knows-claim :
    (i k t : ℕ) (q : ReclaimPhase) (w : World)
    → w.guard t ≡ none
    → knows i q w ≡ true
    → knows i q (record w { guard = set t (some k) w.guard }) ≡ true
knows-claim i k t idle w free h = h
knows-claim i k t (found s) w free h = h
knows-claim i k t (claiming s) w free h = h
knows-claim i k t (inspecting s) w free h = h
knows-claim i k t (examining s c) w free h = h
knows-claim i k t (retiring s) w free h = h
knows-claim i k t (confirming s) w free h = ground arith
knows-claim i k t (checking s) w free h = ground arith
knows-claim i k t (removing s) w free h = ground arith
knows-claim i k t (releasing s) w free h = ground arith

-- The guard of `t` is another's, and is taken away.
pub knows-unguard :
    (i k t : ℕ) (q : ReclaimPhase) (w : World)
    → (i == k) ≡ false
    → is_at k (w.guard t) ≡ true
    → knows i q w ≡ true
    → knows i q (record w { guard = set t none w.guard }) ≡ true
knows-unguard i k t idle w other own h = h
knows-unguard i k t (found s) w other own h = h
knows-unguard i k t (claiming s) w other own h = h
knows-unguard i k t (inspecting s) w other own h = h
knows-unguard i k t (examining s c) w other own h = h
knows-unguard i k t (retiring s) w other own h = h
knows-unguard i k t (confirming s) w other own h = ground arith
knows-unguard i k t (checking s) w other own h = ground arith
knows-unguard i k t (removing s) w other own h = ground arith
knows-unguard i k t (releasing s) w other own h = ground arith

-- The lock file of `t` is unlinked by a process with its guard.
pub knows-unlink :
    (i k t : ℕ) (q : ReclaimPhase) (w : World)
    → (i == k) ≡ false
    → is_at k (w.guard t) ≡ true
    → is_at t w.lock ≡ true
    → knows i q w ≡ true
    → knows i q (record w { lock = none }) ≡ true
knows-unlink i k t idle w other own there h = h
knows-unlink i k t (found s) w other own there h = h
knows-unlink i k t (claiming s) w other own there h = h
knows-unlink i k t (inspecting s) w other own there h = h
knows-unlink i k t (examining s c) w other own there h = h
knows-unlink i k t (retiring s) w other own there h = h
knows-unlink i k t (confirming s) w other own there h = h
knows-unlink i k t (checking s) w other own there h = ground arith
knows-unlink i k t (removing s) w other own there h = ground arith
knows-unlink i k t (releasing s) w other own there h = h

-- The lock file of a holder that is alive is not one that a reclaim is past its checks for.
pub knows-lock :
    (i n : ℕ) (file : Option ℕ) (q : ReclaimPhase) (w : World)
    → (is_at n w.lock || is_at n file) ≡ true
    → ((w.lock ≡ none) ⊎ (is_at n w.lock ≡ true))
    → listed n w.dead ≡ false
    → knows i q w ≡ true
    → knows i q (record w { lock = file }) ≡ true
knows-lock i n file idle w a b alive h = h
knows-lock i n file (found s) w a b alive h = h
knows-lock i n file (claiming s) w a b alive h = h
knows-lock i n file (inspecting s) w a b alive h = h
knows-lock i n file (examining s c) w a b alive h = h
knows-lock i n file (retiring s) w a b alive h = h
knows-lock i n file (confirming s) w a b alive h = h
knows-lock i n file (checking s) w a b alive h = ground arith
knows-lock i n file (removing s) w a b alive h = ground arith
knows-lock i n file (releasing s) w a b alive h = h

pub knows-dies :
    (i n : ℕ) (q : ReclaimPhase) (w : World)
    → knows i q w ≡ true
    → knows i q (record w { dead = n ∷ w.dead }) ≡ true
unfolding listed any
knows-dies i n idle w h = h
knows-dies i n (found s) w h = h
knows-dies i n (claiming s) w h = ground arith
knows-dies i n (inspecting s) w h = h
knows-dies i n (examining s c) w h = h
knows-dies i n (retiring s) w h = h
knows-dies i n (confirming s) w h = ground arith
knows-dies i n (checking s) w h = ground arith
knows-dies i n (removing s) w h = ground arith
knows-dies i n (releasing s) w h = h
