-- ===== src/Manager/Tokens/Shared/Exclusion.antt =====
-- A goroutine that writes the token is alone, as a list of who holds what.
use espejote.Base.{List, [], ◌∷◌, ◌++◌, All, ◌≡◌, ◌≢◌, refl}
use espejote.Manager.Tokens.Laws.{Held, unheld, read_held, write_held}
use espejote.Manager.Tokens.Shared.{Pc, holds}

-- Two goroutines that may hold what they hold at once.
abbrev pub IsCompatible : Held → Held → Type 0
IsCompatible write_held h = h ≡ unheld
IsCompatible unheld h = Unit
IsCompatible read_held h = h ≢ write_held

abbrev pub Compatible : Pc → Pc → Type 0
Compatible p q = IsCompatible (holds p) (holds q)

abbrev pub Exclusive : List Pc → Type 0
Exclusive [] = Unit
Exclusive (p ∷ ps) = All (Compatible p) ps × Exclusive ps

IsCompatible-sym : (h k : Held) → IsCompatible h k → IsCompatible k h
IsCompatible-sym unheld unheld c = tt
IsCompatible-sym unheld read_held c = λ e. cc
IsCompatible-sym unheld write_held c = refl
IsCompatible-sym read_held unheld c = tt
IsCompatible-sym read_held read_held c = c
IsCompatible-sym read_held write_held c = absurd (c refl)
IsCompatible-sym write_held unheld c = tt
IsCompatible-sym write_held read_held c = cc
IsCompatible-sym write_held write_held c = cc

module _ (P : Pc → Type 0) where
  -- One of a list, apart from the others.
  pub All-apart :
      (before after : List Pc) (p : Pc)
      → All P (before ++ p ∷ after)
      → P p × All P (before ++ after)
  All-apart [] after p h = h
  All-apart (q ∷ before) after p (first, h) =
      let (one, rest) = All-apart before after p h in (one, (first, rest))

  pub All-together :
      (before after : List Pc) (p : Pc)
      → P p
      → All P (before ++ after)
      → All P (before ++ p ∷ after)
  All-together [] after p one h = (one, h)
  All-together (q ∷ before) after p one (first, h) = (first, All-together before after p one h)

pub Exclusive-apart :
    (before after : List Pc) (p : Pc)
    → Exclusive (before ++ p ∷ after)
    → All (Compatible p) (before ++ after) × Exclusive (before ++ after)
Exclusive-apart [] after p h = h
Exclusive-apart (q ∷ before) after p (first, h) =
    let (one, rest) = Exclusive-apart before after p h in
    let (qp, others) = All-apart (Compatible q) before after p first in
    ((IsCompatible-sym (holds q) (holds p) qp, one), (others, rest))

pub Exclusive-together :
    (before after : List Pc) (p : Pc)
    → All (Compatible p) (before ++ after)
    → Exclusive (before ++ after)
    → Exclusive (before ++ p ∷ after)
Exclusive-together [] after p one rest = (one, rest)
Exclusive-together (q ∷ before) after p (pq, one) (others, rest) = (
  All-together (Compatible q) before after p (IsCompatible-sym (holds p) (holds q) pq) others,
  Exclusive-together before after p one rest,
)
