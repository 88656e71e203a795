-- ===== src/Lifecycle/RevisionLog/Retention.antt =====
-- How long the log gets, and that a reader who is not too far behind sees all of it.
use mathlib.Core.List.{append-nil, append_assoc}
use lorelum.Prelude.{
  ℕ, ◌+◌, ◌-◌, ◌≤◌, ◌≡◌, refl, sym, Bool, Bool-cases, true, not, ◌&&◌, List, [], ◌∷◌, ◌++◌, ltb,
  leb, keep, keep-append, all, all-append, length, >>=-ok, ok_inj, inl, inr, arith,
}
use lorelum.Lifecycle.Store.{max_safe_integer}
use lorelum.Lifecycle.RevisionLog.{
  ok, LogEntry, assert_revision, insert_row, latest_revision, prune_rows,
  append_effective_revision_log, read_effective_revision_log, append_all,
}
use lorelum.Lifecycle.RevisionLog.Order.{
  ascending, ascending-insert_row, latest-upper, all-keep_lem, ascending-keep, all-both,
  length-span,
}

-- The rows that are not more than 1023 revisions behind.
unfoldable pub recent : ℕ → LogEntry → Bool
recent latest r = leb latest (r.revision + 1023)

keep-same :
    (p q : LogEntry → Bool) (rows : List LogEntry)
    → ((r : LogEntry) → p r ≡ q r)
    → keep p rows ≡ keep q rows
unfolding keep
keep-same p q [] w = refl
keep-same p q (r ∷ rs) w = rw (w r, keep-same p q rs w) refl

keep-everything :
    (p : LogEntry → Bool) (rows : List LogEntry) → all p rows ≡ true → keep p rows ≡ rows
unfolding keep all
keep-everything p [] h = refl
keep-everything p (r ∷ rs) h = ground (arith, keep-everything p rs)

keep-narrow :
    (p q : LogEntry → Bool) (rows : List LogEntry)
    → ((r : LogEntry) → q r ≡ true → p r ≡ true)
    → keep q (keep p rows) ≡ keep q rows
unfolding keep
keep-narrow p q [] w = refl
keep-narrow p q (r ∷ rs) w = let here = w r in ground (arith, keep-narrow p q rs w)

every :
    (p : LogEntry → Bool) (rows : List LogEntry) → ((r : LogEntry) → p r ≡ true) → all p rows ≡ true
unfolding all
every p [] w = refl
every p (r ∷ rs) w = let here = w r in ground (arith, every p rs w)

prune_rows-keep :
    (rows : List LogEntry) → prune_rows rows ≡ keep (recent (latest_revision rows)) rows
unfolding prune_rows recent
prune_rows-keep rows = elim (Bool-cases (ltb 0 (latest_revision rows - 1023))) [
  | inl many ↦ rw many (
      keep-same (λ r. not (ltb r.revision (latest_revision rows - 1023)))
        (recent (latest_revision rows)) rows (λ r. ground arith))
  | inr few ↦ rw few (
      sym (
        keep-everything (recent (latest_revision rows)) rows
          (every (recent (latest_revision rows)) rows (λ r. ground arith))))
]

all-of_keep : (p : LogEntry → Bool) (rs : List LogEntry) → all p (keep p rs) ≡ true
unfolding all keep
all-of_keep p [] = refl
all-of_keep p (r ∷ rs) = ground (arith, all-of_keep p rs)

pruned-bounds :
    (rows : List LogEntry)
    → ascending rows ≡ true
    → (ascending (prune_rows rows) ≡ true) × (length (prune_rows rows) ≤ 1024)
pruned-bounds rows a =
    let n = latest_revision rows in
    let low = all-of_keep (recent n) rows in
    let high = all-keep_lem (λ r. leb r.revision n) (recent n) rows (latest-upper rows a) in
    let both =
      all-both (recent n) (λ r. leb r.revision n)
        (λ r. leb (n - 1023) r.revision && leb r.revision n) (keep (recent n) rows)
        (λ r x y. window n r x y) low high in
    let short =
      length-span (n - 1023) n (keep (recent n) rows) (ascending-keep (recent n) rows a) both in
    rw (prune_rows-keep rows) (ascending-keep (recent n) rows a, omega arith)
  where
    window :
        (n : ℕ) (r : LogEntry)
        → recent n r ≡ true
        → leb r.revision n ≡ true
        → (leb (n - 1023) r.revision && leb r.revision n) ≡ true
    window n r x y = unfold recent in ground arith

-- A successful append to a log in the order of its revisions leaves one in that order, of 1024 rows
-- at most, whatever the revision that is appended.
pub append_effective_revision_log_bounds :
    (e : LogEntry) (rows next : List LogEntry)
    → ascending rows ≡ true
    → append_effective_revision_log e rows ≡ ok next
    → (ascending next ≡ true) × (length next ≤ 1024)
unfolding append_effective_revision_log
append_effective_revision_log_bounds e rows next a h =
    let (unit, checked, more) = >>=-ok (assert_revision e.revision) _ h in
    let (inserted, made, end) = >>=-ok (insert_row e rows) _ more in
    rw (← ok_inj end) (pruned-bounds inserted (ascending-insert_row e rows inserted made a))

insert_row-last :
    (e : LogEntry) (rows : List LogEntry)
    → all (λ r. ltb r.revision e.revision) rows ≡ true
    → insert_row e rows ≡ ok (rows ++ e ∷ [])
unfolding insert_row all
insert_row-last e [] h = refl
insert_row-last e (r ∷ rs) h = ground (arith, insert_row-last e rs)

latest-last : (e : LogEntry) (rows : List LogEntry) → latest_revision (rows ++ e ∷ []) ≡ e.revision
unfolding latest_revision
latest-last e [] = refl
latest-last e (r ∷ []) = refl
latest-last e (r ∷ s ∷ rs) = latest-last e (s ∷ rs)

latest-le :
    (n : ℕ) (rows : List LogEntry)
    → all (λ r. ltb r.revision n) rows ≡ true
    → latest_revision rows ≤ n
unfolding latest_revision all
latest-le n [] h = ground arith
latest-le n (r ∷ []) h = ground arith
latest-le n (r ∷ s ∷ rs) h = latest-le n (s ∷ rs) (ground arith)

append-recent :
    (e : LogEntry) (full : List LogEntry)
    → leb e.revision max_safe_integer ≡ true
    → all (λ r. ltb r.revision e.revision) full ≡ true
    → append_effective_revision_log e (keep (recent (latest_revision full)) full)
      ≡ ok (keep (recent (latest_revision (full ++ e ∷ []))) (full ++ e ∷ []))
unfolding append_effective_revision_log
append-recent e full safe h =
    let old = recent (latest_revision full) in
    let new = recent e.revision in
    let a =
      insert_row-last e (keep old full)
        (all-keep_lem (λ r. ltb r.revision e.revision) old full h) in
    let c =
      keep-narrow old new full
        (λ r k. wider (latest_revision full) e.revision r (latest-le e.revision full h) k) in
    rw
      (
        safe,
        a,
        prune_rows-keep (keep old full ++ e ∷ []),
        latest-last e (keep old full),
        latest-last e full,
        keep-append new (keep old full) (e ∷ []),
        keep-append new full (e ∷ []),
        c,
      )
      refl
  where
    wider : (m n : ℕ) (r : LogEntry) → m ≤ n → recent n r ≡ true → recent m r ≡ true
    wider m n r le k = unfold recent in ground arith

ascending-before :
    (full : List LogEntry) (e : LogEntry) (es : List LogEntry)
    → ascending (full ++ e ∷ es) ≡ true
    → all (λ r. ltb r.revision e.revision) full ≡ true
unfolding ascending all
ascending-before [] e es h = refl
ascending-before (r ∷ rs) e es h =
    let rest = ascending-before rs e es in
    let far = all-append (λ s. ltb r.revision s.revision) rs (e ∷ es) in ground arith

append_all-recent :
    (full es : List LogEntry)
    → all (λ r. leb r.revision max_safe_integer) es ≡ true
    → ascending (full ++ es) ≡ true
    → append_all (keep (recent (latest_revision full)) full) es
      ≡ ok (keep (recent (latest_revision (full ++ es))) (full ++ es))
unfolding append_all all
append_all-recent full [] safe a = rw (append-nil full) refl
append_all-recent full (e ∷ es) safe a =
    rw
      (
        append-recent e full (ground arith) (ascending-before full e es a),
        ← append_assoc full (e ∷ []) es,
      )
      (append_all-recent (full ++ e ∷ []) es (ground arith) (rw (append_assoc full (e ∷ []) es) a))

-- The log against one that forgets nothing: after a series of appends, of exact integers in
-- increasing order, a read after a checkpoint that is at most 1024 revisions behind the last one gives
-- every entry that was ever appended after the checkpoint, in order.
pub read_effective_revision_log_complete :
    (es : List LogEntry) (checkpoint : ℕ)
    → ascending es ≡ true
    → all (λ r. leb r.revision max_safe_integer) es ≡ true
    → checkpoint ≤ max_safe_integer
    → latest_revision es ≤ checkpoint + 1024
    → (rows : List LogEntry) × (append_all [] es ≡ ok rows)
      × (read_effective_revision_log checkpoint rows
          ≡ ok (keep (λ r. ltb checkpoint r.revision) es))
unfolding read_effective_revision_log keep
read_effective_revision_log_complete es checkpoint a safe exact near =
    let p = recent (latest_revision es) in
    let q = λ (r : LogEntry). ltb checkpoint r.revision in
    let same = keep-narrow p q es (λ r k. reached (latest_revision es) r near k) in
    let fine = all-keep_lem (λ r. leb r.revision max_safe_integer) q es safe in
    (keep p es, append_all-recent [] es safe a, rw (same, fine, exact_test exact) refl)
  where
    reached :
        (n : ℕ) (r : LogEntry)
        → n ≤ checkpoint + 1024
        → ltb checkpoint r.revision ≡ true
        → recent n r ≡ true
    reached n r le k = unfold recent in ground arith

    exact_test : checkpoint ≤ max_safe_integer → leb checkpoint max_safe_integer ≡ true
    exact_test le = ground arith
