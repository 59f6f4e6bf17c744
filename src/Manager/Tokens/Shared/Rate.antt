-- ===== src/Manager/Tokens/Shared/Rate.antt =====
-- How often a token is refreshed.
use Prim.Native.Nat.{◌*◌}
use espejote.Base.{ℕ, ◌+◌, ◌≤◌, true, List, All, ◌≡◌, ◌⊎◌, inl, refl, ap, ◌∙◌, arith}
use mathlib.Core.Path.{subst}
use espejote.Manager.Tokens.{Credential, hour, token_needs_refresh}
use espejote.Manager.Tokens.Shared.{
  Pc, Move, start, lasts, expires, refresh, upgrade, keep, create, refuse, replace, unlock, relock,
  refreshed, fail, end_refresh, set_header, send, System, tick, move, Steps, here, later, IsInitial,
}
use espejote.Manager.Tokens.Shared.Exclusion.{All-apart}
use espejote.Manager.Tokens.Shared.Lasting.{IsFit}
use espejote.Manager.Tokens.Shared.Runs.{Steps-Inv}

module _ {now : ℕ} {c : Credential} {others : List Pc} where
  -- `step` is added for a token of the service that is taken over.
  abbrev pub counted : {p : Pc} {d : Credential} {q : Pc} → ℕ → Move now c others p d q → ℕ → ℕ
  counted step (replace t l) n = step + n
  counted step m n = n

  -- A token that a step takes over lasts for an hour and `gap` more.
  abbrev pub Grants : {p : Pc} {d : Credential} {q : Pc} → ℕ → Move now c others p d q → Type 0
  Grants gap (replace t l) = now + hour + gap ≤ t.token_expiration
  Grants gap m = Unit

-- `step` for each token that was taken over.
abbrev pub total : {s t : System} → ℕ → Steps s t → ℕ
total step here = 0
total step (later steps (tick n clock)) = total step steps
total step (later steps (move before after p at m)) = counted step m (total step steps)

-- The tokens that were taken over.
abbrev pub refreshes : {s t : System} → Steps s t → ℕ
refreshes steps = total 1 steps

abbrev pub AllGrant : {s t : System} → ℕ → Steps s t → Type 0
AllGrant gap here = Unit
AllGrant gap (later steps (tick n clock)) = AllGrant gap steps
AllGrant gap (later steps (move before after p at m)) = Grants gap m × AllGrant gap steps

-- The time that the tokens taken over have bought: `bought` is `gap` for each of them.
abbrev Bought : ℕ → ℕ → ℕ → ℕ → Credential → Type 0
Bought gap since now bought c =
    (since ≤ now)
    × (since + bought ≤ now + gap)
    × ((bought ≡ 0) ⊎ (since + bought + hour ≤ c.token_expiration))

Bought-replace :
    (gap since now bought : ℕ) (c t : Credential)
    → token_needs_refresh now c ≡ true
    → now + hour + gap ≤ t.token_expiration
    → Bought gap since now bought c
    → Bought gap since now (gap + bought) t
unfolding token_needs_refresh
Bought-replace gap since now bought c t old long h = ground arith

module _ (gap since bought : ℕ) {now : ℕ} {c : Credential} {others : List Pc} where
  Move-Bought :
      {p : Pc} {d : Credential} {q : Pc} (m : Move now c others p d q)
      → IsFit now c p
      → Grants gap m
      → Bought gap since now bought c
      → Bought gap since now (counted gap m bought) d
  Move-Bought (start k may) fit long h = h
  Move-Bought (lasts ok) fit long h = h
  Move-Bought (expires old) fit long h = h
  Move-Bought refresh fit long h = h
  Move-Bought (upgrade may) fit long h = h
  Move-Bought (keep ok) fit long h = h
  Move-Bought (create old) fit long h = h
  Move-Bought (refuse e) fit long h = h
  Move-Bought (replace t l) fit long h = Bought-replace gap since now bought c t fit.1 long h
  Move-Bought unlock fit long h = h
  Move-Bought (relock may) fit long h = h
  Move-Bought refreshed fit long h = h
  Move-Bought fail fit long h = h
  Move-Bought end_refresh fit long h = h
  Move-Bought set_header fit long h = h
  Move-Bought send fit long h = h

module _ {now : ℕ} {c : Credential} {others : List Pc} where
  counted-eq :
      {p : Pc} {d : Credential} {q : Pc} (gap k : ℕ) (m : Move now c others p d q)
      → counted gap m (k * gap) ≡ counted 1 m k * gap
  counted-eq gap k (start _ may) = refl
  counted-eq gap k (lasts ok) = refl
  counted-eq gap k (expires old) = refl
  counted-eq gap k refresh = refl
  counted-eq gap k (upgrade may) = refl
  counted-eq gap k (keep ok) = refl
  counted-eq gap k (create old) = refl
  counted-eq gap k (refuse e) = refl
  counted-eq gap k (replace t l) = grind arith
  counted-eq gap k unlock = refl
  counted-eq gap k (relock may) = refl
  counted-eq gap k refreshed = refl
  counted-eq gap k fail = refl
  counted-eq gap k end_refresh = refl
  counted-eq gap k set_header = refl
  counted-eq gap k send = refl

total-eq : {s t : System} (gap : ℕ) (steps : Steps s t) → total gap steps ≡ refreshes steps * gap
total-eq gap here = grind arith
total-eq gap (later steps (tick n clock)) = total-eq gap steps
total-eq gap (later steps (move before after p at m)) =
    ap (counted gap m) (total-eq gap steps) ∙ counted-eq gap (refreshes steps) m

total-Bought :
    {s t : System} (gap : ℕ) (steps : Steps s t)
    → IsInitial s
    → AllGrant gap steps
    → Bought gap s.now t.now (total gap steps) t.credential
total-Bought gap here initial long = (omega arith, omega arith, inl refl)
total-Bought {s} gap (later {t} steps (tick n clock)) initial long =
    let (before, bought, left) = total-Bought gap steps initial long in
    (omega (arith, clock, before), omega (arith, clock, bought), left)
total-Bought {s} gap (later {t} steps (move before after p at m)) initial (one, long) =
    let fits = subst (All (IsFit t.now t.credential)) at (Steps-Inv initial steps).fits in
    Move-Bought gap s.now (total gap steps) m
      (All-apart (IsFit t.now t.credential) before after p fits).0 one
      (total-Bought gap steps initial long)

-- Where every token that is taken over from the service lasts for an hour and a gap more, from
-- goroutines that are yet to call and in every order of their steps, the tokens that are taken over
-- are at most one for each gap of the time that has passed, and one.
pub refreshes-le :
    {s t : System} (gap : ℕ) (steps : Steps s t)
    → IsInitial s
    → AllGrant gap steps
    → s.now + refreshes steps * gap ≤ t.now + gap
refreshes-le gap steps initial long =
    omega (arith, total-eq gap steps, (total-Bought gap steps initial long).1)
