-- ===== src/Manager/Tokens/Laws.antt =====
-- The lock of a token is released, and no request has a token that is about to expire.
use Prim.Native.String
use espejote.Base.{
  ℕ, ◌≤◌, String, false, Option, none, some, List, [], ◌∷◌, ◌≡◌, arith, Result, ok, Result-cases,
  inl, inr,
}
use espejote.Kube.{Cause}
use espejote.Manager.Tokens.{
  Credential, LockCall, r_lock, r_unlock, lock, unlock, token_needs_refresh,
  refresh_token_read_locked, trigger_refresh, authorize,
}

-- What one goroutine holds.
pub data Held : Type 0 where
  unheld read_held write_held : Held

-- A call that the goroutine must not make has no result.
abbrev pub step : LockCall → Held → Option Held
step r_lock unheld = some read_held
step r_unlock read_held = some unheld
step lock unheld = some write_held
step unlock write_held = some unheld
step _ _ = none

abbrev pub run : List LockCall → Held → Option Held
run [] h = some h
run (c ∷ cs) h = elim (step c h) [ none ↦ none | some h' ↦ run cs h' ]

-- A token lives an hour longer than `now`.
abbrev pub IsLasting : ℕ → Credential → Type 0
IsLasting now c = token_needs_refresh now c ≡ false

pub IsLasting-earlier :
    (now later : ℕ) (c : Credential) → now ≤ later → IsLasting later c → IsLasting now c
unfolding token_needs_refresh
IsLasting-earlier now later c clock h = ground (arith, clock, h)

module _ (before after : Credential → Credential) where
  -- A request and a refresh use the lock as they may and hold it no longer at the end, whatever the
  -- service returns and other goroutines do.
  pub authorize-unheld :
      (now later : ℕ) (create : Result Cause Credential) (c : Credential)
      → (run (authorize before after now later create c).2 unheld ≡ some unheld)
        × (run (trigger_refresh before after later create c).2 unheld ≡ some unheld)
  unfolding authorize trigger_refresh refresh_token_read_locked
  authorize-unheld now later create c = ground arith

  -- Where the service returns tokens that last, other goroutines put no other token in their place,
  -- and the clock does not go back, a request that is made has a token that lasts for an hour from
  -- the time it was made.
  pub authorize-IsLasting :
      (now later : ℕ) (create : Result Cause Credential) (c : Credential) (header : String)
      → now ≤ later
      → ((t : Credential) → create ≡ ok t → IsLasting later t)
      → ((t : Credential) → IsLasting later t → IsLasting later (after t))
      → (authorize before after now later create c).0 ≡ ok header
      → IsLasting now (authorize before after now later create c).1
        × (header ≡ String.◌++◌ "Bearer " (authorize before after now later create c).1.token)
  unfolding authorize refresh_token_read_locked
  authorize-IsLasting now later create c header clock fresh kept h = elim (Result-cases create) [
    | inl (t, created) ↦ ground (
      arith,
      fresh t created,
      kept t,
      kept (before c),
      IsLasting-earlier now later (after t) clock,
      IsLasting-earlier now later (after (before c)) clock,
    )
    | inr (e, refused) ↦
        ground (arith, kept (before c), IsLasting-earlier now later (after (before c)) clock)
  ]
