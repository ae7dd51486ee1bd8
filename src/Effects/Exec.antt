-- ===== src/Effects/Exec.antt =====
-- The state-and-error monad: what a function wrote before it returned an error stays written.
use elasticell_operator.Base.{Option, none, some, ◌∷◌, Bool, true, false, ◌≡◌, refl}
use native.Mathlib.Omega.{arith}
use elasticell_operator.Effects.Types.{Error, nil_pointer, Result, ok, err, Call, World, Env}

abbrev pub M : Type 0 → Type 0
M A = World → Result A × World

module _ {A : Type 0} where
  abbrev pub pure : A → M A
  pure a w = (ok a, w)

  abbrev pub fail : Error → M A
  fail e w = (err e, w)

  abbrev pub lift : Result A → M A
  lift r w = (r, w)

  abbrev pub gets : (World → A) → M A
  gets f w = (ok (f w), w)

  -- Following a pointer.
  abbrev pub deref : Option A → M A
  deref none w = (err nil_pointer, w)
  deref (some a) w = (ok a, w)

  -- An error path that writes before it returns the error.
  abbrev finally : Result A × World → (World → World) → Result A × World
  finally (ok a, w) f = (ok a, w)
  finally (err e, w) f = (err e, f w)

  abbrev pub on_error : (World → World) → M A → M A
  on_error f m w = finally (m w) f

abbrev pub modify : (World → World) → M (Unit {0})
modify f w = (ok tt, f w)

module _ {A B : Type 0} where
  abbrev pub continue : Result A × World → (A → M B) → Result B × World
  continue (ok a, w) f = f a w
  continue (err e, w) f = (err e, w)

  infixl 5 ◌>>=◌ ◌>>◌
  abbrev pub ◌>>=◌ : M A → (A → M B) → M B
  ◌>>=◌ m f w = continue (m w) f

  abbrev pub ◌>>◌ : M A → M B → M B
  m >> n = m >>= λ _. n

-- The outcome of a request: the request is recorded whether or not it succeeds.
abbrev answered : Option Error → World → Result (Unit {0}) × World
answered none w = (ok tt, w)
answered (some e) w = (err e, w)

unfoldable pub request : Env → Call → M (Unit {0})
request env c w = answered (env.reply w.calls c) (record w { calls = c ∷ w.calls })

-- An error that is only logged.
abbrev pub logged : M (Unit {0}) → M (Unit {0})
logged m w = (ok tt, (m w).1)

abbrev pub when : Bool → M (Unit {0}) → M (Unit {0})
when true m = m
when false m = pure tt

module _ {A B : Type 0} where
  continue-ok :
      (r : Result A) (w : World) (f : A → M B) (b : B) (w' : World)
      → continue (r, w) f ≡ (ok b, w')
      → (a : A) × (r ≡ ok a) × (f a w ≡ (ok b, w'))
  continue-ok (ok a) w f b w' h = (a, refl, h)
  continue-ok (err e) w f b w' h = ground arith

  -- A bind that succeeds has a first part that does.
  pub bind-ok :
      (m : M A) (f : A → M B) (w : World) {b : B} {w' : World}
      → (m >>= f) w ≡ (ok b, w')
      → (a : A) × ((m w).0 ≡ ok a) × (f a (m w).1 ≡ (ok b, w'))
  bind-ok m f w {b} {w'} h = continue-ok (m w).0 (m w).1 f b w' h
