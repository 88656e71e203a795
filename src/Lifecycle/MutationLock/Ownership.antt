-- ===== src/Lifecycle/MutationLock/Ownership.antt =====
-- Whose lock file a process may remove.
use lorelum.Prelude.{ℕ, ◌≡◌, ◌↔◌, true, Option, none, some, Text, text_eq_iff, arith}
use lorelum.Lifecycle.MutationLock.{
  LockRecord, holding, value, same_lock_record, same_token, releases,
}

own_token : (o : Option Text) (token : Text) → (same_token o (some token) ≡ true) ↔ (o ≡ some token)
own_token none token = ground arith
own_token (some t) token = ground (arith, text_eq_iff t token)

-- A handle with an owner token removes on `release` exactly a lock file with its process, its start
-- and its own token: never a legacy record, nor one that a later holder wrote with another token.
pub releases_own :
    (pid : ℕ) (at token : Text) (started : Option ℕ) (current : LockRecord)
    → (releases
          (record {
            pid = pid;
            started_at = at;
            process_started_at = started;
            owner_token = some token;
          })
          (holding current)
        ≡ value true)
      ↔ ((current.pid ≡ pid) × (current.started_at ≡ at) × (current.owner_token ≡ some token))
unfolding releases same_lock_record
releases_own pid at token started current = (
  λ h. ground (arith, text_eq_iff current.started_at at, own_token current.owner_token token),
  λ h. ground (arith, text_eq_iff current.started_at at, own_token current.owner_token token),
)
