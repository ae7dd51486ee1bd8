-- ===== src/Effects/Requests.antt =====
-- The requests that a run made beyond those before it.
use elasticell_operator.Base.{List, ◌∷◌}
use elasticell_operator.Effects.Types.{Call, Result, ok, err, World}
use elasticell_operator.Effects.Exec.{M, continue, ◌>>=◌}

-- Every request of `after` that is not in `before` satisfies P.
pub data Grown (P : Call → Type 0) (before : List Call) : List Call → Type 0 where
  grown_same : Grown P before before
  grown_more :
      {c : Call} {after : List Call} → P c → Grown P before after → Grown P before (c ∷ after)

module _ {P : Call → Type 0} {a : List Call} where
  pub Grown-trans : {b c : List Call} → Grown P a b → Grown P b c → Grown P a c
  Grown-trans g grown_same = g
  Grown-trans g (grown_more p h) = grown_more p (Grown-trans g h)

module _ {A B : Type 0} (P : Call → Type 0) where
  continue-Grown :
      (r : Result A) (v : World) (f : A → M B)
      → ((a : A) → Grown P v.calls (f a v).1.calls)
      → Grown P v.calls (continue (r, v) f).1.calls
  continue-Grown (ok a) v f h = h a
  continue-Grown (err e) v f h = grown_same

  -- The requests of a sequence are those of its parts.
  pub bind-Grown :
      (m : M A) (f : A → M B) (w : World)
      → Grown P w.calls (m w).1.calls
      → ((a : A) → Grown P (m w).1.calls (f a (m w).1).1.calls)
      → Grown P w.calls ((m >>= f) w).1.calls
  bind-Grown m f w g h = Grown-trans g (continue-Grown (m w).0 (m w).1 f h)
