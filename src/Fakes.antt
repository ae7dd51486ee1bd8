-- ===== src/Fakes.antt =====
-- The doubles that stand beside the object controls of pkg/controller for other packages' tests. A
-- `Tracker` (requestTracker of controller_utils.go) refuses one request when it is told to; the
-- objects are put into a cache of client-go.
pub mod Doubles
pub mod Controls
pub mod PdClient
pub mod Once
use elasticell_operator.Base.{
  ℕ, zero, suc, ◌+◌, String, Bool, true, false, Option, none, some, ℤ, pos, leb_ℤ, if◌then◌else◌,
}
use elasticell_operator.Effects.{Error, Result, ok, err}

pub record Tracker : Type 0 where
  pub requests : ℕ
  pub error : Option Error
  pub after : ℤ

abbrev pub new_tracker : Tracker
new_tracker = record { requests = 0; error = none; after = pos 0 }

-- `errorReady`, with the error that is returned then.
abbrev pub ready_error : Tracker → Option Error
ready_error t = elim t.error [
  | none ↦ none
  | some e ↦ if leb_ℤ t.after (pos t.requests) then some e else none
]

abbrev pub inc : Tracker → Tracker
inc t = record t { requests = t.requests + 1 }

abbrev pub reset : Tracker → Tracker
reset t = record t { error = none; after = pos 0 }

-- The setters, `Set…Error`.
abbrev pub set_error : Option Error → ℤ → Tracker → Tracker
set_error e after t = record t { error = e; after = after }

-- client-go's cache of objects: `Add`, `Update` and `Delete`.
pub record Indexer (X I : Type 0) : Type 0 where
  pub add : X → I → Result (Unit {0}) × I
  pub update : X → I → Result (Unit {0}) × I
  pub delete : X → I → Result (Unit {0}) × I

abbrev pub with_object : {X I : Type 0} → X → Result (Unit {0}) × I → Result X × I
with_object x (ok u, i) = (ok x, i)
with_object x (err e, i) = (err e, i)

module _ {F : Type 0} (get : F → Tracker) (put : Tracker → F → F) {A : Type 0} where
  -- The deferred `inc` runs last.
  abbrev pub counted : Result A × F → Result A × F
  counted (r, f) = (r, put (inc (get f)) f)

  -- The frame of every method: a request that is refused resets the tracker.
  unfoldable pub tracked : (F → Result A × F) → F → Result A × F
  tracked body f = elim (ready_error (get f)) [
    | some e ↦ (err e, put (inc (reset (get f))) f)
    | none ↦ counted (body f)
  ]
