-- ===== src/Tests/OfTokens.antt =====
-- The theorems on the token that goroutines share, at a run of two of them.
use Prim.Native.Nat.{◌*◌}
use espejote.Base.{ℕ, ◌+◌, ◌≤◌, arith, none, some, ok, [], ◌∷◌, ◌≡◌, ◌≢◌, ◌⊎◌, refl, inl}
use espejote.Manager.Tokens.{Credential, token_needs_refresh, trigger_refresh, authorize}
use espejote.Manager.Tokens.Laws.{IsLasting, unheld, run, authorize-unheld}
use espejote.Manager.Tokens.Shared.{
  Pc, idle, locked, upgrading, writing, creating, unlocking, downgrading, returned, ready, sending,
  request, start, expires, upgrade, create, replace, unlock, relock, refreshed, set_header, send,
  System, tick, Step, move, Steps, here, later,
}
use espejote.Manager.Tokens.Shared.Rate.{AllGrant, refreshes, refreshes-le}
use espejote.Manager.Tokens.Shared.Runs.{Steps-IsLasting, Replaces, Steps-Replaces}
use espejote.Manager.Tokens.Shared.Progress.{CanMove, Listed-CanMove}

abbrev no_token : Credential
no_token = record { token = ""; token_expiration = 0 }

abbrev fresh : Credential
fresh = record { token = "secret"; token_expiration = 86400000000000 }

-- The token is made by this request, and another goroutine does nothing to it.
authorize-unheld_example :
    (run (authorize (λ c. c) (λ c. c) 0 1 (ok fresh) no_token).2 unheld ≡ some unheld)
    × (run (trigger_refresh (λ c. c) (λ c. c) 1 (ok fresh) no_token).2 unheld ≡ some unheld)
authorize-unheld_example = authorize-unheld (λ c. c) (λ c. c) 0 1 (ok fresh) no_token

-- One goroutine makes a request, and another is yet to.
abbrev at : Credential → Pc → System
at c p = record { now = 0; credential = c; goroutines = p ∷ idle ∷ [] }

to_creating : Steps (at no_token idle) (at no_token (creating request 0))
unfolding token_needs_refresh
to_creating =
    later
      (later
        (later (later here (move [] (idle ∷ []) idle refl (start request ((λ h. cc), tt))))
          (move [] (idle ∷ []) (locked request 0) refl (expires refl)))
        (move [] (idle ∷ []) (upgrading request 0) refl (upgrade (refl, tt))))
      (move [] (idle ∷ []) (writing request 0) refl (create refl))

fresh_lasts : IsLasting 0 fresh
unfolding token_needs_refresh
fresh_lasts = refl

gets_token : Step (at no_token (creating request 0)) (at fresh (unlocking request 0 none))
gets_token = move [] (idle ∷ []) (creating request 0) refl (replace fresh fresh_lasts)

to_sending : Steps (at no_token idle) (at fresh (sending 0 fresh))
to_sending =
    later
      (later
        (later
          (later (later to_creating gets_token)
            (move [] (idle ∷ []) (unlocking request 0 none) refl unlock))
          (move [] (idle ∷ []) (downgrading request 0 none) refl (relock ((λ h. cc), tt))))
        (move [] (idle ∷ []) (returned request 0 none) refl refreshed))
      (move [] (idle ∷ []) (ready 0) refl set_header)

Steps-IsLasting_example : IsLasting 0 fresh × (fresh ≡ fresh)
Steps-IsLasting_example = Steps-IsLasting 0 fresh (refl, (refl, tt)) to_sending (inl refl)

Steps-Replaces_example : (fresh ≡ no_token) ⊎ Replaces (at no_token (creating request 0)) fresh
Steps-Replaces_example = Steps-Replaces (refl, (refl, tt)) to_creating gets_token

waits : downgrading request 0 none ≢ idle
waits h = cc

Listed-CanMove_example : CanMove (at fresh (downgrading request 0 none))
Listed-CanMove_example =
    Listed-CanMove (at fresh (downgrading request 0 none)) (downgrading request 0 none) (inl refl)
      waits

-- A day after the token was made, less an hour, a second request takes over another one.
abbrev next_day : ℕ
next_day = 82800000000001

abbrev renewed : Credential
renewed = record { token = "another"; token_expiration = 169200000000001 }

abbrev on_next_day : Credential → Pc → System
on_next_day c p = record { now = next_day; credential = c; goroutines = p ∷ idle ∷ [] }

to_next_day : Steps (at no_token idle) (on_next_day fresh idle)
to_next_day =
    later (later to_sending (move [] (idle ∷ []) (sending 0 fresh) refl send))
      (tick next_day (omega arith))

to_renewed : Steps (at no_token idle) (on_next_day renewed (unlocking request next_day none))
unfolding token_needs_refresh
to_renewed =
    later
      (later
        (later
          (later (later to_next_day (move [] (idle ∷ []) idle refl (start request ((λ h. cc), tt))))
            (move [] (idle ∷ []) (locked request next_day) refl (expires refl)))
          (move [] (idle ∷ []) (upgrading request next_day) refl (upgrade (refl, tt))))
        (move [] (idle ∷ []) (writing request next_day) refl (create refl)))
      (move [] (idle ∷ []) (creating request next_day) refl (replace renewed refl))

to_renewed-AllGrant : AllGrant 82800000000000 to_renewed
unfolding to_renewed to_next_day to_sending to_creating gets_token
to_renewed-AllGrant = ground arith

refreshes-le_example : 0 + refreshes to_renewed * 82800000000000 ≤ next_day + 82800000000000
refreshes-le_example = refreshes-le 82800000000000 to_renewed (refl, (refl, tt)) to_renewed-AllGrant
