-- ===== src/Lifecycle/RevisionLog/Order.antt =====
-- Rows in the order of their revisions: what an insertion keeps, and how many fit a span.
use lorelum.Prelude.{
  ℕ, suc, ◌+◌, ◌-◌, ◌≤◌, ◌≡◌, ◌⊎◌, refl, sym, Bool, Bool-cases, true, ◌&&◌, List, [], ◌∷◌, ltb, leb,
  ◌==◌, keep, all, length, >>=-ok, ok_inj, inl, inr, arith,
}
use lorelum.Lifecycle.RevisionLog.{ok, LogEntry, insert_row, latest_revision}

-- Each revision is before the later ones.
unfoldable pub ascending : List LogEntry → Bool
ascending [] = true
ascending (r ∷ rs) = all (λ s. ltb r.revision s.revision) rs && ascending rs

pub all-weaken :
    (p q : LogEntry → Bool) (rs : List LogEntry)
    → ((r : LogEntry) → p r ≡ true → q r ≡ true)
    → all p rs ≡ true
    → all q rs ≡ true
unfolding all
all-weaken p q [] w h = refl
all-weaken p q (r ∷ rs) w h = let here = w r in let rest = all-weaken p q rs w in ground arith

pub insert_row-cases :
    (e r : LogEntry) (rs inserted : List LogEntry)
    → insert_row e (r ∷ rs) ≡ ok inserted
    → ((ltb e.revision r.revision ≡ true) × (inserted ≡ e ∷ r ∷ rs))
      ⊎ ((found : List LogEntry) × (ltb r.revision e.revision ≡ true)
          × (insert_row e rs ≡ ok found)
          × (inserted ≡ r ∷ found))
unfolding insert_row
insert_row-cases e r rs inserted h = elim (Bool-cases (e.revision == r.revision)) [
  | inl same ↦ let wrong = rw same at h in ground arith
  | inr other ↦ elim (Bool-cases (ltb e.revision r.revision)) [
    | inl before ↦ inl (before, sym (ok_inj (rw before at (rw other at h))))
    | inr after ↦
        let (found, inner, made) =
          >>=-ok (insert_row e rs) (λ found. ok (r ∷ found)) (rw after at (rw other at h)) in
        inr (found, ground arith, inner, sym (ok_inj made))
  ]
]

pub all-insert_row :
    (p : LogEntry → Bool) (e : LogEntry) (rows inserted : List LogEntry)
    → insert_row e rows ≡ ok inserted
    → p e ≡ true
    → all p rows ≡ true
    → all p inserted ≡ true
unfolding insert_row all
all-insert_row p e [] inserted h a b = rw (← ok_inj h) (ground arith)
all-insert_row p e (r ∷ rs) inserted h a b = elim (insert_row-cases e r rs inserted h) [
  | inl (before, made) ↦ rw made (ground arith)
  | inr (found, after, inner, made) ↦
      let rest = all-insert_row p e rs found inner a in rw made (ground arith)
]

pub ascending-insert_row :
    (e : LogEntry) (rows inserted : List LogEntry)
    → insert_row e rows ≡ ok inserted
    → ascending rows ≡ true
    → ascending inserted ≡ true
unfolding insert_row ascending all
ascending-insert_row e [] inserted h a = rw (← ok_inj h) refl
ascending-insert_row e (r ∷ rs) inserted h a = elim (insert_row-cases e r rs inserted h) [
  | inl (before, made) ↦
      let far =
        all-weaken (λ s. ltb r.revision s.revision) (λ s. ltb e.revision s.revision) rs
          (λ s k. ground arith) in
      rw made (ground arith)
  | inr (found, after, inner, made) ↦
      let rest = ascending-insert_row e rs found inner in
      let far = all-insert_row (λ s. ltb r.revision s.revision) e rs found inner after in
      rw made (ground arith)
]

pub latest-upper :
    (rows : List LogEntry)
    → ascending rows ≡ true
    → all (λ r. leb r.revision (latest_revision rows)) rows ≡ true
unfolding ascending all latest_revision
latest-upper [] h = refl
latest-upper (r ∷ []) h = ground arith
latest-upper (r ∷ s ∷ rs) h = let rest = latest-upper (s ∷ rs) in ground arith

pub all-keep_lem :
    (q p : LogEntry → Bool) (rows : List LogEntry) → all q rows ≡ true → all q (keep p rows) ≡ true
unfolding all keep
all-keep_lem q p [] h = refl
all-keep_lem q p (r ∷ rs) h = ground (arith, all-keep_lem q p rs)

pub ascending-keep :
    (p : LogEntry → Bool) (rows : List LogEntry)
    → ascending rows ≡ true
    → ascending (keep p rows) ≡ true
unfolding ascending keep
ascending-keep p [] h = refl
ascending-keep p (r ∷ rs) h =
    let rest = ascending-keep p rs in
    let far = all-keep_lem (λ s. ltb r.revision s.revision) p rs in ground arith

pub all-both :
    (p q both : LogEntry → Bool) (rs : List LogEntry)
    → ((r : LogEntry) → p r ≡ true → q r ≡ true → both r ≡ true)
    → all p rs ≡ true
    → all q rs ≡ true
    → all both rs ≡ true
unfolding all
all-both p q both [] w h k = refl
all-both p q both (r ∷ rs) w h k =
    let here = w r in let rest = all-both p q both rs w in ground arith

pub length-span :
    (low high : ℕ) (rows : List LogEntry)
    → ascending rows ≡ true
    → all (λ r. leb low r.revision && leb r.revision high) rows ≡ true
    → length rows ≤ (high + 1) - low
unfolding ascending all
length-span low high [] a h = ground arith
length-span low high (r ∷ rs) a h =
    let both =
      all-both (λ s. ltb r.revision s.revision) (λ s. leb low s.revision && leb s.revision high)
        (λ s. leb (suc r.revision) s.revision && leb s.revision high) rs (λ s x y. ground arith) in
    let rest = length-span (suc r.revision) high rs in ground arith
