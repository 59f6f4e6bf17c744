-- ===== src/Manager/Tokens/Shared/Runs.antt =====
-- What holds of the token and the goroutines that share it, in every order of their steps.
use mathlib.Core.Path.{subst}
use espejote.Base.{
  ℕ, true, List, [], ◌∷◌, ◌++◌, All, All-imp, Listed, ◌≡◌, ◌⊎◌, inl, inr, refl, sym, ap,
}
use espejote.Manager.Tokens.{Credential, token_needs_refresh}
use espejote.Manager.Tokens.Laws.{unheld, write_held, IsLasting}
use espejote.Manager.Tokens.Shared.{
  Pc, idle, sending, holds, MayWrite, System, Step, tick, move, Steps, here, later, IsInitial,
}
use espejote.Manager.Tokens.Shared.Exclusion.{
  Compatible, IsCompatible, Exclusive, All-apart, All-together, Exclusive-apart, Exclusive-together,
}
use espejote.Manager.Tokens.Shared.Lasting.{
  IsFit, IsFit-later, IsFit-replaced, unheld_fits, Move-IsFit, Move-replaced, Move-Compatible,
}

pub record Inv (s : System) : Type 0 where
  pub fits : All (IsFit s.now s.credential) s.goroutines
  pub exclusive : Exclusive s.goroutines

writer_alone : (p q : Pc) → holds p ≡ write_held → Compatible p q → holds q ≡ unheld
writer_alone p q writes c = subst (λ h. IsCompatible h (holds q)) writes c

alone_writes :
    (p : Pc) (others : List Pc) → holds p ≡ write_held → All (Compatible p) others → MayWrite others
alone_writes p others writes =
    All-imp (Compatible p) (λ q. holds q ≡ unheld) others (λ q. writer_alone p q writes)

replaced_fits :
    (now : ℕ) (c t : Credential) (ps : List Pc)
    → IsLasting now t
    → MayWrite ps
    → All (IsFit now c) ps
    → All (IsFit now t) ps
replaced_fits now c t [] l free fits = tt
replaced_fits now c t (p ∷ ps) l (none_held, free) (fit, fits) =
    (IsFit-replaced now c t p l none_held fit, replaced_fits now c t ps l free fits)

initial-Inv :
    (now : ℕ) (c : Credential) (ps : List Pc)
    → All (λ p. p ≡ idle) ps
    → All (IsFit now c) ps × Exclusive ps
initial-Inv now c [] h = (tt, tt)
initial-Inv now c (p ∷ ps) (free, h) =
    let (fits, exclusive) = initial-Inv now c ps h in
    ((subst (IsFit now c) (sym free) tt, fits), (unheld_fits ps p (ap holds free), exclusive))

pub Step-Inv : {s t : System} → Step s t → Inv s → Inv t
Step-Inv {s} (tick n clock) inv = record {
  fits =
      All-imp (IsFit s.now s.credential) (IsFit n s.credential) s.goroutines
        (λ p. IsFit-later s.now n s.credential p clock) inv.fits;
  exclusive = inv.exclusive;
}
Step-Inv {s} (move before after p {c} {q} at m) inv =
    let (fit, others) =
      All-apart (IsFit s.now s.credential) before after p
        (subst (All (IsFit s.now s.credential)) at inv.fits) in
    let (alone, rest) = Exclusive-apart before after p (subst Exclusive at inv.exclusive) in
    let others' : All (IsFit s.now c) (before ++ after) = elim (Move-replaced m fit) [
      | inl same ↦ subst (λ d. All (IsFit s.now d) (before ++ after)) (sym same) others
      | inr (old, l, writes) ↦
          replaced_fits s.now s.credential c (before ++ after) l
            (alone_writes p (before ++ after) writes alone) others
    ] in
    record {
      fits = All-together (IsFit s.now c) before after q (Move-IsFit m fit) others';
      exclusive = Exclusive-together before after q (Move-Compatible m alone) rest;
    }

pub Steps-Inv : {s t : System} → IsInitial s → Steps s t → Inv t
Steps-Inv {s} initial here =
    let (fits, exclusive) = initial-Inv s.now s.credential s.goroutines initial in
    record { fits = fits; exclusive = exclusive }
Steps-Inv initial (later steps step) = Step-Inv step (Steps-Inv initial steps)

Listed-IsFit :
    (now : ℕ) (c : Credential) (p : Pc) (ps : List Pc)
    → Listed p ps
    → All (IsFit now c) ps
    → IsFit now c p
Listed-IsFit now c p [] h fits = elim h [ ]
Listed-IsFit now c p (q ∷ ps) (inl same) (fit, fits) = subst (IsFit now c) same fit
Listed-IsFit now c p (q ∷ ps) (inr h) (fit, fits) = Listed-IsFit now c p ps h fits

-- Where the service returns tokens that last, from goroutines that are yet to call and in every
-- order of their steps, the token that a request's header is set to lasts for an hour from the time
-- at which the request got the lock first, and is the one that is shared until the request lets go
-- of the lock.
pub Steps-IsLasting :
    {s t : System} (since : ℕ) (c : Credential)
    → IsInitial s
    → Steps s t
    → Listed (sending since c) t.goroutines
    → IsLasting since c × (c ≡ t.credential)
Steps-IsLasting {t = t} since c initial steps sends =
    Listed-IsFit t.now t.credential (sending since c) t.goroutines sends
      (Steps-Inv initial steps).fits

-- The token of `s` is about to expire, the new one lasts, and all goroutines but one hold nothing.
abbrev pub Replaces : System → Credential → Type 0
Replaces s c =
    (token_needs_refresh s.now s.credential ≡ true)
    × IsLasting s.now c
    × ((before : List Pc) × (after : List Pc) × ((p : Pc) × (s.goroutines ≡ before ++ p ∷ after)
          × MayWrite (before ++ after)))

Step-Replaces :
    {s t : System} → Step s t → Inv s → (t.credential ≡ s.credential) ⊎ Replaces s t.credential
Step-Replaces (tick n clock) inv = inl refl
Step-Replaces {s} (move before after p at m) inv =
    let (fit, others) =
      All-apart (IsFit s.now s.credential) before after p
        (subst (All (IsFit s.now s.credential)) at inv.fits) in
    let (alone, rest) = Exclusive-apart before after p (subst Exclusive at inv.exclusive) in
    elim (Move-replaced m fit) [
      | inl same ↦ inl same
      | inr (old, l, writes) ↦
          inr (old, l, (before, after, (p, at, alone_writes p (before ++ after) writes alone)))
    ]

-- From goroutines that are yet to call and in every order of their steps, a step that changes the
-- token replaces one that lasts for less than an hour by one that lasts, while no other goroutine
-- holds the lock.
pub Steps-Replaces :
    {s t u : System}
    → IsInitial s
    → Steps s t
    → Step t u
    → (u.credential ≡ t.credential) ⊎ Replaces t u.credential
Steps-Replaces initial steps step = Step-Replaces step (Steps-Inv initial steps)
