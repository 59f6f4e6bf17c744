-- ===== src/Manager/Tokens/Shared.antt =====
-- RoundTrip and TriggerRefresh of tokenRefreshRoundTripper of
-- controllers/managedresource_controller_manager.go, by any number of goroutines that share the token
-- and its lock, in steps that others come between.
pub mod Exclusion
pub mod Lasting
pub mod Runs
pub mod Progress
pub mod Rate
use espejote.Base.{ℕ, ◌≤◌, true, false, Option, none, some, List, [], ◌∷◌, ◌++◌, All, ◌≡◌, ◌≢◌}
use espejote.Kube.{Cause}
use espejote.Manager.Tokens.{Credential, token_needs_refresh}
use espejote.Manager.Tokens.Laws.{Held, unheld, read_held, write_held, IsLasting}

-- A call of RoundTrip, or of TriggerRefresh.
pub data Caller : Type 0 where
  request trigger : Caller

-- Where a goroutine stands, with the time at which its call got the lock first.
pub data Pc : Type 0 where
  idle : Pc
  locked upgrading writing creating : Caller → ℕ → Pc
  -- refreshTokenReadLocked is about to return, with an error or none: before Unlock, before RLock,
  -- and after it.
  unlocking downgrading returned : Caller → ℕ → Option Cause → Pc
  -- RoundTrip: before the header is set, and with the token that it was set to.
  ready : ℕ → Pc
  sending : ℕ → Credential → Pc

-- What a goroutine holds of tokenMux.
abbrev pub holds : Pc → Held
holds idle = unheld
holds (locked k since) = read_held
holds (upgrading k since) = unheld
holds (writing k since) = write_held
holds (creating k since) = write_held
holds (unlocking k since e) = write_held
holds (downgrading k since e) = unheld
holds (returned k since e) = read_held
holds (ready since) = read_held
holds (sending since c) = read_held

-- sync.RWMutex: a goroutine gets the lock for reading where no other holds it for writing, and for
-- writing where no other holds it.
abbrev pub MayRead : List Pc → Type 0
MayRead = All (λ p. holds p ≢ write_held)

abbrev pub MayWrite : List Pc → Type 0
MayWrite = All (λ p. holds p ≡ unheld)

-- A step of one goroutine, at a time, with the others. The service returns an error, or a token that
-- lasts.
pub data Move (now : ℕ) (c : Credential) (others : List Pc) : Pc → Credential → Pc → Type 0 where
  start : (k : Caller) → MayRead others → Move now c others idle c (locked k now)
  lasts :
      {since : ℕ}
      → token_needs_refresh now c ≡ false
      → Move now c others (locked request since) c (ready since)
  expires :
      {since : ℕ}
      → token_needs_refresh now c ≡ true
      → Move now c others (locked request since) c (upgrading request since)
  refresh : {since : ℕ} → Move now c others (locked trigger since) c (upgrading trigger since)
  upgrade :
      {k : Caller} {since : ℕ}
      → MayWrite others
      → Move now c others (upgrading k since) c (writing k since)
  keep :
      {k : Caller} {since : ℕ}
      → token_needs_refresh now c ≡ false
      → Move now c others (writing k since) c (unlocking k since none)
  create :
      {k : Caller} {since : ℕ}
      → token_needs_refresh now c ≡ true
      → Move now c others (writing k since) c (creating k since)
  refuse :
      {k : Caller} {since : ℕ} (e : Cause)
      → Move now c others (creating k since) c (unlocking k since (some e))
  replace :
      {k : Caller} {since : ℕ} (t : Credential)
      → IsLasting now t
      → Move now c others (creating k since) t (unlocking k since none)
  unlock :
      {k : Caller} {since : ℕ} {e : Option Cause}
      → Move now c others (unlocking k since e) c (downgrading k since e)
  relock :
      {k : Caller} {since : ℕ} {e : Option Cause}
      → MayRead others
      → Move now c others (downgrading k since e) c (returned k since e)
  refreshed : {since : ℕ} → Move now c others (returned request since none) c (ready since)
  fail : {since : ℕ} {e : Cause} → Move now c others (returned request since (some e)) c idle
  end_refresh : {since : ℕ} {e : Option Cause} → Move now c others (returned trigger since e) c idle
  set_header : {since : ℕ} → Move now c others (ready since) c (sending since c)
  send : {since : ℕ} {d : Credential} → Move now c others (sending since d) c idle

pub record System : Type 0 where
  pub now : ℕ
  pub credential : Credential
  pub goroutines : List Pc

-- Time goes on, or one goroutine takes a step.
pub data Step (s : System) : System → Type 0 where
  tick : (later : ℕ) → s.now ≤ later → Step s (record s { now = later })
  move :
      (before after : List Pc) (p : Pc) {c : Credential} {q : Pc}
      → s.goroutines ≡ before ++ p ∷ after
      → Move s.now s.credential (before ++ after) p c q
      → Step s (record s { credential = c; goroutines = before ++ q ∷ after })

pub data Steps (s : System) : System → Type 0 where
  here : Steps s s
  later : {t u : System} → Steps s t → Step t u → Steps s u

-- All goroutines are yet to call.
abbrev pub IsInitial : System → Type 0
IsInitial s = All (λ p. p ≡ idle) s.goroutines
