-- ===== src/Lifecycle/MutationLock/Exclusion.antt =====
-- The mutual exclusion of the lock's holders, over the accesses of Reclaim.
use lorelum.Prelude.{
  ℕ, ◌≡◌, refl, sym, ap, ◌∙◌, some_inj, inl, inr, Bool, Bool-cases, true, false, not, ◌&&◌, ◌||◌,
  Option, none, some, List, [], ◌∷◌, if◌then◌else◌, any, all, listed, set, arith,
}
use lorelum.Lifecycle.MutationLock.Reclaim.{
  HolderPhase, outside, holding, unlinking, released, ReclaimPhase, idle, found, claiming,
  inspecting, examining, retiring, confirming, checking, removing, releasing, World, initial, is_at,
  stands, claim, inspect, create_lock, release_step, reclaim_step, reclaim_failure, begin_reclaim,
  Event, creates, releases, dies, begins, moves, fails, retires, crashes, step, run,
}
use lorelum.Lifecycle.MutationLock.Knowledge.{
  holds, knows, IsGuarded, knows-set, knows-claim, knows-unguard, knows-unlink, knows-lock,
  knows-dies,
}

stands-keeps :
    (k : ℕ) (ph : ReclaimPhase) (w : World)
    → knows k ph w ≡ true
    → IsGuarded w
    → IsGuarded (stands k ph w)
stands-keeps k ph w own (hs, rs) = (hs, λ i. knows-set i k ph w.reclaimer w own (λ other. rs i))

either :
    (k : ℕ) (test : Bool) (p q : ReclaimPhase) (w : World)
    → (test ≡ true → knows k p w ≡ true)
    → knows k q w ≡ true
    → IsGuarded w
    → IsGuarded (if test then stands k p w else stands k q w)
either k true p q w yes_known no_known h = stands-keeps k p w (yes_known refl) h
either k false p q w yes_known no_known h = stands-keeps k q w no_known h

claim-keeps :
    (k t : ℕ) (g : Option ℕ) (w : World)
    → w.guard t ≡ g
    → listed t w.dead ≡ true
    → IsGuarded w
    → IsGuarded (claim k t g w)
claim-keeps k t none w free gone (hs, rs) = (
  hs,
  λ i.
      let after = record w { guard = set t (some k) w.guard } in
      knows-set i k (confirming t) w.reclaimer after (ground arith)
        (λ other. knows-claim i k t (w.reclaimer i) w free (rs i)),
)
claim-keeps k t (some c) w taken gone h = stands-keeps k (inspecting t) w refl h

inspect-keeps : (k t : ℕ) (g : Option ℕ) (w : World) → IsGuarded w → IsGuarded (inspect k t g w)
inspect-keeps k t none w h = stands-keeps k idle w refl h
inspect-keeps k t (some c) w h = stands-keeps k (examining t c) w refl h

reclaim_step-keeps :
    (k : ℕ) (b : Bool) (ph : ReclaimPhase) (w : World)
    → knows k ph w ≡ true
    → IsGuarded w
    → IsGuarded (reclaim_step k b ph w)
unfolding reclaim_step
reclaim_step-keeps k b idle w own h = h
reclaim_step-keeps k b (found t) w own h =
    either k (listed t w.dead && b) (claiming t) idle w (λ gone. ground arith) refl h
reclaim_step-keeps k b (claiming t) w own h = claim-keeps k t (w.guard t) w refl own h
reclaim_step-keeps k b (inspecting t) w own h = inspect-keeps k t (w.guard t) w h
reclaim_step-keeps k b (examining t c) w own h =
    either k (listed c w.lost && b) (retiring t) idle w (λ gone. refl) refl h
reclaim_step-keeps k b (retiring t) w own h = h
reclaim_step-keeps k b (confirming t) w own h =
    either k (is_at t w.lock) (checking t) (releasing t) w (λ there. ground arith) (ground arith) h
reclaim_step-keeps k b (checking t) w own h =
    either k (listed t w.dead && b) (removing t) (releasing t) w (λ gone. own) (ground arith) h
reclaim_step-keeps k b (removing t) w own (hs, rs) =
    let guarded : is_at k (w.guard t) ≡ true = ground arith in
    let there : is_at t w.lock ≡ true = ground arith in
    (
      λ n. let held = hs n in ground arith,
      λ i.
          knows-set i k (releasing t) w.reclaimer (record w { lock = none }) guarded
            (λ other. knows-unlink i k t (w.reclaimer i) w other guarded there (rs i)),
    )
reclaim_step-keeps k b (releasing t) w own (hs, rs) = (
  hs,
  λ i.
      knows-set i k idle w.reclaimer (record w { guard = set t none w.guard }) refl
        (λ other. knows-unguard i k t (w.reclaimer i) w other own (rs i)),
)

reclaim_failure-keeps :
    (k : ℕ) (ph : ReclaimPhase) (w : World)
    → knows k ph w ≡ true
    → IsGuarded w
    → IsGuarded (reclaim_failure k ph w)
unfolding reclaim_failure
reclaim_failure-keeps k idle w own h = h
reclaim_failure-keeps k (found t) w own h = stands-keeps k idle w refl h
reclaim_failure-keeps k (claiming t) w own h = stands-keeps k idle w refl h
reclaim_failure-keeps k (inspecting t) w own h = stands-keeps k idle w refl h
reclaim_failure-keeps k (examining t c) w own h = stands-keeps k idle w refl h
reclaim_failure-keeps k (retiring t) w own h = stands-keeps k idle w refl h
reclaim_failure-keeps k (confirming t) w own h = stands-keeps k (releasing t) w (ground arith) h
reclaim_failure-keeps k (checking t) w own h = stands-keeps k (releasing t) w (ground arith) h
reclaim_failure-keeps k (removing t) w own h = stands-keeps k (releasing t) w (ground arith) h
reclaim_failure-keeps k (releasing t) w own h = stands-keeps k idle w refl h

begin_reclaim-keeps :
    (k t : ℕ) (ph : ReclaimPhase) (w : World) → IsGuarded w → IsGuarded (begin_reclaim k t ph w)
unfolding begin_reclaim
begin_reclaim-keeps k t idle w h = elim (Bool-cases (is_at t w.lock)) [
  | inl there ↦ rw there (stands-keeps k (found t) w refl h)
  | inr missing ↦ rw missing h
]
begin_reclaim-keeps k t (found s) w h = h
begin_reclaim-keeps k t (claiming s) w h = h
begin_reclaim-keeps k t (inspecting s) w h = h
begin_reclaim-keeps k t (examining s c) w h = h
begin_reclaim-keeps k t (retiring s) w h = h
begin_reclaim-keeps k t (confirming s) w h = h
begin_reclaim-keeps k t (checking s) w h = h
begin_reclaim-keeps k t (removing s) w h = h
begin_reclaim-keeps k t (releasing s) w h = h

create_lock-keeps :
    (m : ℕ) (ph : HolderPhase) (file : Option ℕ) (w : World)
    → w.lock ≡ file
    → listed m w.dead ≡ false
    → IsGuarded w
    → IsGuarded (create_lock m ph file w)
unfolding create_lock
create_lock-keeps m outside none w e alive (hs, rs) = (
  λ n. let held = hs n in ground arith,
  λ i. knows-lock i m (some m) (w.reclaimer i) w (ground arith) (inl e) alive (rs i),
)
create_lock-keeps m outside (some k) w e alive h = h
create_lock-keeps m holding file w e alive h = h
create_lock-keeps m unlinking file w e alive h = h
create_lock-keeps m released file w e alive h = h

release_step-keeps :
    (m : ℕ) (ph : HolderPhase) (w : World)
    → w.holder m ≡ ph
    → listed m w.dead ≡ false
    → IsGuarded w
    → IsGuarded (release_step m ph w)
unfolding release_step
release_step-keeps m outside w e alive h = h
release_step-keeps m holding w e alive (hs, rs) =
    let there : is_at m w.lock ≡ true = let held = hs m in ground arith in
    rw there (λ n. let held = hs n in ground arith, rs)
release_step-keeps m unlinking w e alive (hs, rs) =
    let there : is_at m w.lock ≡ true = let held = hs m in ground arith in
    (
      λ n. let held = hs n in ground arith,
      λ i. knows-lock i m none (w.reclaimer i) w (ground arith) (inr there) alive (rs i),
    )
release_step-keeps m released w e alive h = h

-- No guard is removed as that of a claimant that is gone.
unfoldable pub is_no_retirement : Event → Bool
is_no_retirement (retires i) = false
is_no_retirement (creates n) = true
is_no_retirement (releases n) = true
is_no_retirement (dies n) = true
is_no_retirement (begins i t) = true
is_no_retirement (moves i b) = true
is_no_retirement (fails i) = true
is_no_retirement (crashes i) = true

unless-keeps :
    (gone : Bool) (w moved : World)
    → IsGuarded w
    → (gone ≡ false → IsGuarded moved)
    → IsGuarded (if gone then w else moved)
unless-keeps true w moved h k = h
unless-keeps false w moved h k = k refl

step-keeps :
    (e : Event) (w : World) → is_no_retirement e ≡ true → IsGuarded w → IsGuarded (step e w)
unfolding step is_no_retirement
step-keeps (creates n) w quiet h =
    unless-keeps (listed n w.dead) w (create_lock n (w.holder n) w.lock w) h
      (λ alive. create_lock-keeps n (w.holder n) w.lock w refl alive h)
step-keeps (releases n) w quiet h =
    unless-keeps (listed n w.dead) w (release_step n (w.holder n) w) h
      (λ alive. release_step-keeps n (w.holder n) w refl alive h)
step-keeps (dies m) w quiet (hs, rs) = (
  λ n. let held = hs n in unfold listed in unfold any in ground arith,
  λ i. knows-dies i m (w.reclaimer i) w (rs i),
)
step-keeps (begins i t) w quiet h =
    unless-keeps (listed i w.lost) w (begin_reclaim i t (w.reclaimer i) w) h
      (λ there. begin_reclaim-keeps i t (w.reclaimer i) w h)
step-keeps (moves i b) w quiet h =
    unless-keeps (listed i w.lost) w (reclaim_step i b (w.reclaimer i) w) h
      (λ there. reclaim_step-keeps i b (w.reclaimer i) w (h.1 i) h)
step-keeps (fails i) w quiet h =
    unless-keeps (listed i w.lost) w (reclaim_failure i (w.reclaimer i) w) h
      (λ there. reclaim_failure-keeps i (w.reclaimer i) w (h.1 i) h)
step-keeps (retires i) w quiet h = let absurd : ⊥ = ground arith in elim absurd [ ]
step-keeps (crashes i) w quiet h = h

run-keeps :
    (es : List Event) (w : World)
    → all is_no_retirement es ≡ true
    → IsGuarded w
    → IsGuarded (run es w)
unfolding run all
run-keeps [] w quiet h = h
run-keeps (e ∷ es) w quiet h =
    let (now, later) = both (is_no_retirement e) (all is_no_retirement es) quiet in
    run-keeps es (step e w) later (step-keeps e w now h)
  where
    both : (a b : Bool) → (a && b) ≡ true → (a ≡ true) × (b ≡ true)
    both a b h = ground arith

initial-IsGuarded : IsGuarded initial
initial-IsGuarded = (λ n. refl, λ i. refl)

-- Processes create the lock, release it, reclaim the lock of a process that is gone, fail at any access
-- of a reclaim, or die, in any order of their accesses. As long as none of them removes a guard as that
-- of a claimant that is gone: where a process that is alive got the lock and has not unlinked it, the
-- lock file is there and is its own, so no reclaim removed it; and no two processes that are alive
-- hold the lock together.
pub mutation_lock_excludes :
    (es : List Event) (n m : ℕ)
    → all is_no_retirement es ≡ true
    → holds n (run es initial) ≡ true
    → holds m (run es initial) ≡ true
    → ((run es initial).lock ≡ some n) × (n ≡ m)
mutation_lock_excludes es n m quiet first second =
    let w = run es initial in
    let guarded = run-keeps es initial quiet initial-IsGuarded in
    only w n m (guarded.0 n) (guarded.0 m) first second
  where
    own : (lock : Option ℕ) (n : ℕ) → is_at n lock ≡ true → lock ≡ some n
    own none n h = ground arith
    own (some k) n h = let same : k ≡ n = ground arith in ap some same

    only :
        (w : World) (n m : ℕ)
        → (not (holds n w) || is_at n w.lock) ≡ true
        → (not (holds m w) || is_at m w.lock) ≡ true
        → holds n w ≡ true
        → holds m w ≡ true
        → (w.lock ≡ some n) × (n ≡ m)
    only w n m h k first second =
        let a = own w.lock n (ground arith) in
        let b = own w.lock m (ground arith) in (a, some_inj (sym a ∙ b))
