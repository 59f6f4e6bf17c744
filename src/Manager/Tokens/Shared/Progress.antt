-- ===== src/Manager/Tokens/Shared/Progress.antt =====
-- That goroutines do not wait for each other's locks for good.
use mathlib.Core.Path.{subst}
use espejote.Base.{
  ℕ, Bool, true, false, none, some, List, [], ◌∷◌, ◌++◌, All, All-imp, Listed, ◌≡◌, ◌≢◌, ◌⊎◌, inl,
  inr, refl, arith, sym, ap, ◌∙◌, Bool-cases,
}
use espejote.Manager.Tokens.Shared.Exclusion.{All-apart}
use espejote.Manager.Tokens.{Credential, token_needs_refresh}
use espejote.Manager.Tokens.Laws.{unheld, read_held, write_held}
use espejote.Manager.Tokens.Shared.{
  Pc, idle, locked, upgrading, writing, creating, unlocking, downgrading, returned, ready, sending,
  request, trigger, holds, MayRead, MayWrite, Move, lasts, expires, refresh, upgrade, keep, create,
  refuse, unlock, relock, refreshed, fail, end_refresh, set_header, send, System,
}

-- A goroutine waits to write, or to read.
abbrev pub is_upgrading : Pc → Bool
is_upgrading (upgrading k since) = true
is_upgrading p = false

abbrev pub is_downgrading : Pc → Bool
is_downgrading (downgrading k since e) = true
is_downgrading p = false

abbrev is_holding : Pc → Bool
is_holding p = elim (holds p) [ unheld ↦ false | read_held ↦ true | write_held ↦ true ]

-- A goroutine in the middle of a call can take a step, and does not read before one that waits to
-- write.
abbrev pub CanMove : System → Type 0
CanMove s =
    (before : List Pc) × (after : List Pc) × ((p : Pc) × (s.goroutines ≡ before ++ p ∷ after)
      × (p ≢ idle)
      × (is_downgrading p ≡ true → All (λ q. is_upgrading q ≡ false) (before ++ after))
      × ((c : Credential) × (q : Pc) × Move s.now s.credential (before ++ after) p c q))

true_ne_false : true ≡ false → ⊥
true_ne_false h = cc

-- The first that passes a test.
find :
    (f : Pc → Bool) (ps : List Pc)
    → All (λ p. f p ≡ false) ps
      ⊎ ((before : List Pc) × (after : List Pc) × ((p : Pc) × (ps ≡ before ++ p ∷ after)
            × (f p ≡ true)))
find f [] = inl tt
find f (p ∷ ps) = elim (Bool-cases (f p)) [
  | inl passes ↦ inr ([], ps, (p, refl, passes))
  | inr fails ↦ elim (find f ps) [
    | inl rest ↦ inl (fails, rest)
    | inr (before, after, (q, at, passes)) ↦
        inr (p ∷ before, after, (q, ap (λ l. p ∷ l) at, passes))
  ]
]

unheld_of : (p : Pc) → is_holding p ≡ false → holds p ≡ unheld
unheld_of p h = ground arith

module _ (now : ℕ) (c : Credential) (others : List Pc) where
  abbrev Moves : Pc → Type 0
  Moves p = (d : Credential) × (q : Pc) × Move now c others p d q

  holder-Moves : (p : Pc) → is_holding p ≡ true → Moves p
  holder-Moves idle h = cc
  holder-Moves (locked request since) h = elim (Bool-cases (token_needs_refresh now c)) [
    | inl old ↦ (_, _, expires old)
    | inr ok ↦ (_, _, lasts ok)
  ]
  holder-Moves (locked trigger since) h = (_, _, refresh)
  holder-Moves (upgrading k since) h = cc
  holder-Moves (writing k since) h = elim (Bool-cases (token_needs_refresh now c)) [
    | inl old ↦ (_, _, create old)
    | inr ok ↦ (_, _, keep ok)
  ]
  holder-Moves (creating k since) h = (_, _, refuse "refused")
  holder-Moves (unlocking k since e) h = (_, _, unlock)
  holder-Moves (downgrading k since e) h = cc
  holder-Moves (returned request since none) h = (_, _, refreshed)
  holder-Moves (returned request since (some e)) h = (_, _, fail)
  holder-Moves (returned trigger since e) h = (_, _, end_refresh)
  holder-Moves (ready since) h = (_, _, set_header)
  holder-Moves (sending since d) h = (_, _, send)

  upgrading-Moves : (p : Pc) → is_upgrading p ≡ true → MayWrite others → Moves p
  upgrading-Moves idle h may = cc
  upgrading-Moves (locked k since) h may = cc
  upgrading-Moves (upgrading k since) h may = (_, _, upgrade may)
  upgrading-Moves (writing k since) h may = cc
  upgrading-Moves (creating k since) h may = cc
  upgrading-Moves (unlocking k since e) h may = cc
  upgrading-Moves (downgrading k since e) h may = cc
  upgrading-Moves (returned k since e) h may = cc
  upgrading-Moves (ready since) h may = cc
  upgrading-Moves (sending since d) h may = cc

  downgrading-Moves : (p : Pc) → is_downgrading p ≡ true → MayRead others → Moves p
  downgrading-Moves idle h may = cc
  downgrading-Moves (locked k since) h may = cc
  downgrading-Moves (upgrading k since) h may = cc
  downgrading-Moves (writing k since) h may = cc
  downgrading-Moves (creating k since) h may = cc
  downgrading-Moves (unlocking k since e) h may = cc
  downgrading-Moves (downgrading k since e) h may = (_, _, relock may)
  downgrading-Moves (returned k since e) h may = cc
  downgrading-Moves (ready since) h may = cc
  downgrading-Moves (sending since d) h may = cc

holding_waits : (p : Pc) → is_holding p ≡ true → (p ≢ idle) × (is_downgrading p ≡ false)
holding_waits p h = ground arith

upgrading_waits : (p : Pc) → is_upgrading p ≡ true → (p ≢ idle) × (is_downgrading p ≡ false)
upgrading_waits p h = ground arith

waits_to_read :
    (p : Pc) → p ≢ idle → is_holding p ≡ false → is_upgrading p ≡ false → is_downgrading p ≡ true
waits_to_read p busy free h = ground arith

downgrading_busy : (p : Pc) → is_downgrading p ≡ true → p ≢ idle
downgrading_busy p h = ground arith

fails_at :
    (f : Pc → Bool) (p : Pc) (ps : List Pc) → Listed p ps → All (λ q. f q ≡ false) ps → f p ≡ false
fails_at f p [] h rest = elim h [ ]
fails_at f p (q ∷ ps) (inl same) (fails, rest) = ap f (sym same) ∙ fails
fails_at f p (q ∷ ps) (inr h) (fails, rest) = fails_at f p ps h rest

-- The others of a goroutine, where none passes a test.
others_fail :
    (f : Pc → Bool) (before after ps : List Pc) (p : Pc)
    → ps ≡ before ++ p ∷ after
    → All (λ q. f q ≡ false) ps
    → All (λ q. f q ≡ false) (before ++ after)
others_fail f before after ps p at rest =
    (All-apart (λ q. f q ≡ false) before after p (subst (All (λ q. f q ≡ false)) at rest)).1

MayWrite-others : (ps : List Pc) → All (λ q. is_holding q ≡ false) ps → MayWrite ps
MayWrite-others ps = All-imp (λ q. is_holding q ≡ false) (λ q. holds q ≡ unheld) ps unheld_of

MayRead-others : (ps : List Pc) → All (λ q. is_holding q ≡ false) ps → MayRead ps
MayRead-others ps =
    All-imp (λ q. is_holding q ≡ false) (λ q. holds q ≢ write_held) ps (λ q free. ground arith)

module _ (s : System) where
  -- Where no goroutine holds the lock, one that waits gets it, those that wait to write first.
  free-CanMove :
      (p : Pc)
      → Listed p s.goroutines
      → p ≢ idle
      → All (λ q. is_holding q ≡ false) s.goroutines
      → CanMove s
  free-CanMove p listed busy free = elim (find is_upgrading s.goroutines) [
    | inr (before, after, (q, at, waits)) ↦
        let others = others_fail is_holding before after s.goroutines q at free in
        let (busy', reads) = upgrading_waits q waits in
        (
          before,
          after,
          (
            q,
            at,
            busy',
            λ d. absurd (true_ne_false (sym d ∙ reads)),
            upgrading-Moves s.now s.credential (before ++ after) q waits
                (MayWrite-others (before ++ after) others),
          ),
        )
    | inl none_writes ↦ elim (find is_downgrading s.goroutines) [
      | inl none_reads ↦ absurd (
          true_ne_false (
            sym (
              waits_to_read p busy (fails_at is_holding p s.goroutines listed free)
                (fails_at is_upgrading p s.goroutines listed none_writes))
            ∙ fails_at is_downgrading p s.goroutines listed none_reads))
      | inr (before, after, (q, at, waits)) ↦
          let others = others_fail is_holding before after s.goroutines q at free in
          (
            before,
            after,
            (
              q,
              at,
              downgrading_busy q waits,
              λ d. others_fail is_upgrading before after s.goroutines q at none_writes,
              downgrading-Moves s.now s.credential (before ++ after) q waits
                  (MayRead-others (before ++ after) others),
            ),
          )
    ]
  ]

  -- Where a goroutine is in the middle of a call, one that is can take a step, and where that one
  -- waits to read, no other waits to write.
  pub Listed-CanMove : (p : Pc) → Listed p s.goroutines → p ≢ idle → CanMove s
  Listed-CanMove p listed busy = elim (find is_holding s.goroutines) [
    | inl free ↦ free-CanMove p listed busy free
    | inr (before, after, (q, at, held)) ↦
        let (busy', reads) = holding_waits q held in
        (
          before,
          after,
          (
            q,
            at,
            busy',
            λ d. absurd (true_ne_false (sym d ∙ reads)),
            holder-Moves s.now s.credential (before ++ after) q held,
          ),
        )
  ]
