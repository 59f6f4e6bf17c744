-- ===== src/Manager/Tokens/Shared/Lasting.antt =====
-- What a goroutine knows of the token that it shares, and what a step leaves of that.
use espejote.Base.{ℕ, ◌≤◌, true, none, some, List, [], ◌∷◌, All, ◌≡◌, ◌⊎◌, inl, inr, refl, arith}
use espejote.Manager.Tokens.{Credential, token_needs_refresh}
use espejote.Manager.Tokens.Laws.{Held, unheld, read_held, write_held, IsLasting, IsLasting-earlier}
use espejote.Manager.Tokens.Shared.{
  Pc, idle, locked, upgrading, writing, creating, unlocking, downgrading, returned, ready, sending,
  request, trigger, holds, Move, start, lasts, expires, refresh, upgrade, keep, create, refuse,
  replace, unlock, relock, refreshed, fail, end_refresh, set_header, send,
}
use espejote.Manager.Tokens.Shared.Exclusion.{Compatible, IsCompatible}

-- What a goroutine knows of the token that is shared.
abbrev pub IsFit : ℕ → Credential → Pc → Type 0
IsFit now c idle = Unit
IsFit now c (locked k since) = since ≤ now
IsFit now c (upgrading k since) = since ≤ now
IsFit now c (writing k since) = since ≤ now
IsFit now c (creating k since) = (since ≤ now) × (token_needs_refresh now c ≡ true)
IsFit now c (unlocking k since none) = (since ≤ now) × IsLasting since c
IsFit now c (unlocking k since (some e)) = since ≤ now
IsFit now c (downgrading k since none) = (since ≤ now) × IsLasting since c
IsFit now c (downgrading k since (some e)) = since ≤ now
IsFit now c (returned k since none) = (since ≤ now) × IsLasting since c
IsFit now c (returned k since (some e)) = since ≤ now
IsFit now c (ready since) = (since ≤ now) × IsLasting since c
IsFit now c (sending since d) = IsLasting since d × (d ≡ c)

needs_later :
    (now n : ℕ) (c : Credential)
    → now ≤ n
    → token_needs_refresh now c ≡ true
    → token_needs_refresh n c ≡ true
unfolding token_needs_refresh
needs_later now n c clock h = ground (arith, clock, h)

pub IsFit-later : (now n : ℕ) (c : Credential) (p : Pc) → now ≤ n → IsFit now c p → IsFit n c p
IsFit-later now n c idle clock h = tt
IsFit-later now n c (locked k since) clock h = omega (arith, clock, h)
IsFit-later now n c (upgrading k since) clock h = omega (arith, clock, h)
IsFit-later now n c (writing k since) clock h = omega (arith, clock, h)
IsFit-later now n c (creating k since) clock (h, needs) =
    (omega (arith, clock, h), needs_later now n c clock needs)
IsFit-later now n c (unlocking k since none) clock (h, l) = (omega (arith, clock, h), l)
IsFit-later now n c (unlocking k since (some e)) clock h = omega (arith, clock, h)
IsFit-later now n c (downgrading k since none) clock (h, l) = (omega (arith, clock, h), l)
IsFit-later now n c (downgrading k since (some e)) clock h = omega (arith, clock, h)
IsFit-later now n c (returned k since none) clock (h, l) = (omega (arith, clock, h), l)
IsFit-later now n c (returned k since (some e)) clock h = omega (arith, clock, h)
IsFit-later now n c (ready since) clock (h, l) = (omega (arith, clock, h), l)
IsFit-later now n c (sending since d) clock h = h

-- A goroutine that holds nothing is content with a token that lasts.
pub IsFit-replaced :
    (now : ℕ) (c t : Credential) (p : Pc)
    → IsLasting now t
    → holds p ≡ unheld
    → IsFit now c p
    → IsFit now t p
IsFit-replaced now c t idle l free h = tt
IsFit-replaced now c t (locked k since) l free h = h
IsFit-replaced now c t (upgrading k since) l free h = h
IsFit-replaced now c t (writing k since) l free h = h
IsFit-replaced now c t (creating k since) l free h = cc
IsFit-replaced now c t (unlocking k since e) l free h = cc
IsFit-replaced now c t (downgrading k since none) l free (h, old) =
    (h, IsLasting-earlier since now t h l)
IsFit-replaced now c t (downgrading k since (some e)) l free h = h
IsFit-replaced now c t (returned k since e) l free h = cc
IsFit-replaced now c t (ready since) l free h = cc
IsFit-replaced now c t (sending since d) l free h = cc

free-IsCompatible : (h k : Held) → h ≡ unheld → IsCompatible h k
free-IsCompatible unheld k e = tt
free-IsCompatible read_held k e = cc
free-IsCompatible write_held k e = cc

pub unheld_fits : (others : List Pc) (p : Pc) → holds p ≡ unheld → All (Compatible p) others
unheld_fits [] p free = tt
unheld_fits (q ∷ others) p free =
    (free-IsCompatible (holds p) (holds q) free, unheld_fits others p free)

module _ {now : ℕ} {c : Credential} {others : List Pc} where
  pub Move-IsFit :
      {p : Pc} {d : Credential} {q : Pc} → Move now c others p d q → IsFit now c p → IsFit now d q
  Move-IsFit (start k may) h = omega arith
  Move-IsFit (lasts {since} ok) h = (h, IsLasting-earlier since now c h ok)
  Move-IsFit (expires old) h = h
  Move-IsFit refresh h = h
  Move-IsFit (upgrade may) h = h
  Move-IsFit (keep {since = since} ok) h = (h, IsLasting-earlier since now c h ok)
  Move-IsFit (create old) h = (h, old)
  Move-IsFit (refuse e) h = h.0
  Move-IsFit (replace {since = since} t l) h = (h.0, IsLasting-earlier since now t h.0 l)
  Move-IsFit (unlock {e = none}) h = h
  Move-IsFit (unlock {e = some e}) h = h
  Move-IsFit (relock {e = none} may) h = h
  Move-IsFit (relock {e = some e} may) h = h
  Move-IsFit refreshed h = h
  Move-IsFit fail h = tt
  Move-IsFit end_refresh h = tt
  Move-IsFit set_header h = (h.1, refl)
  Move-IsFit send h = tt

  -- A token that is replaced was about to expire, lasts, and no other goroutine holds the lock.
  pub Move-replaced :
      {p : Pc} {d : Credential} {q : Pc}
      → Move now c others p d q
      → IsFit now c p
      → (d ≡ c) ⊎ ((token_needs_refresh now c ≡ true) × IsLasting now d × (holds p ≡ write_held))
  Move-replaced (start k may) h = inl refl
  Move-replaced (lasts ok) h = inl refl
  Move-replaced (expires old) h = inl refl
  Move-replaced refresh h = inl refl
  Move-replaced (upgrade may) h = inl refl
  Move-replaced (keep ok) h = inl refl
  Move-replaced (create old) h = inl refl
  Move-replaced (refuse e) h = inl refl
  Move-replaced (replace t l) h = inr (h.1, l, refl)
  Move-replaced unlock h = inl refl
  Move-replaced (relock may) h = inl refl
  Move-replaced refreshed h = inl refl
  Move-replaced fail h = inl refl
  Move-replaced end_refresh h = inl refl
  Move-replaced set_header h = inl refl
  Move-replaced send h = inl refl

  pub Move-Compatible :
      {p : Pc} {d : Credential} {q : Pc}
      → Move now c others p d q
      → All (Compatible p) others
      → All (Compatible q) others
  Move-Compatible (start k may) h = may
  Move-Compatible (lasts ok) h = h
  Move-Compatible (expires {since} old) h = unheld_fits others (upgrading request since) refl
  Move-Compatible (refresh {since}) h = unheld_fits others (upgrading trigger since) refl
  Move-Compatible (upgrade may) h = may
  Move-Compatible (keep ok) h = h
  Move-Compatible (create old) h = h
  Move-Compatible (refuse e) h = h
  Move-Compatible (replace t l) h = h
  Move-Compatible (unlock {k} {since} {e}) h = unheld_fits others (downgrading k since e) refl
  Move-Compatible (relock may) h = may
  Move-Compatible refreshed h = h
  Move-Compatible fail h = unheld_fits others idle refl
  Move-Compatible end_refresh h = unheld_fits others idle refl
  Move-Compatible set_header h = h
  Move-Compatible send h = unheld_fits others idle refl
