-- ===== src/Manager/Tokens.antt =====
-- tokenRefreshRoundTripper of controllers/managedresource_controller_manager.go: the token of a
-- service account, and its lock as one goroutine uses it. What other goroutines do to the token while
-- this one does not hold the lock is a function on it. Times are nanoseconds; those of Go that are
-- out of range are not modelled.
pub mod Laws
pub mod Shared
use Prim.Native.String
use espejote.Base.{
  ℕ, ◌+◌, String, Bool, true, false, not, ltb, Option, none, some, List, [], ◌∷◌, ◌++◌,
  if◌then◌else◌, Result, ok, err,
}
use espejote.Kube.{Cause}

abbrev pub hour : ℕ
hour = 3600000000000

-- The token, and when it expires.
pub record Credential : Type 0 where
  pub token : String
  pub token_expiration : ℕ

-- The calls of tokenMux.
pub data LockCall : Type 0 where
  r_lock r_unlock lock unlock : LockCall

-- tokenNeedsRefresh
unfoldable pub token_needs_refresh : ℕ → Credential → Bool
token_needs_refresh now c = ltb c.token_expiration (now + hour)

-- `before` happens before the write lock is held and `after` between it and the read lock; `now` is
-- the time of the check, and `create` what the service returns. The calls of the lock are returned.
unfoldable pub refresh_token_read_locked :
    (Credential → Credential)
    → (Credential → Credential)
    → ℕ
    → Result Cause Credential
    → Credential
    → Option Cause × Credential × List LockCall
refresh_token_read_locked before after now create c =
    let current = before c in
    let calls = r_unlock ∷ lock ∷ unlock ∷ r_lock ∷ [] in
    if not (token_needs_refresh now current)
    then (none, after current, calls)
    else (elim create [ err e ↦ (some e, after current, calls) | ok t ↦ (none, after t, calls) ])

-- TriggerRefresh
unfoldable pub trigger_refresh :
    (Credential → Credential)
    → (Credential → Credential)
    → ℕ
    → Result Cause Credential
    → Credential
    → Option Cause × Credential × List LockCall
trigger_refresh before after now create c =
    let r = refresh_token_read_locked before after now create c in
    (r.0, r.1, r_lock ∷ (r.2 ++ r_unlock ∷ []))

-- The first part of RoundTrip: an error, or the Authorization header; `now` and `later` are the times
-- of the two checks.
unfoldable pub authorize :
    (Credential → Credential)
    → (Credential → Credential)
    → ℕ
    → ℕ
    → Result Cause Credential
    → Credential
    → Result Cause String × Credential × List LockCall
authorize before after now later create c =
    let r = refresh_token_read_locked before after later create c in
    if token_needs_refresh now c
    then (elim r.0 [
      | some e ↦ (err e, r.1, r_lock ∷ (r.2 ++ r_unlock ∷ []))
      | none ↦ (ok (String.◌++◌ "Bearer " r.1.token), r.1, r_lock ∷ (r.2 ++ r_unlock ∷ []))
    ])
    else (ok (String.◌++◌ "Bearer " c.token), c, r_lock ∷ r_unlock ∷ [])
