-- ===== src/Controls/Retry.antt =====
-- `retry.RetryOnConflict` of client-go, by what its documentation promises: the function is called
-- again while it returns a conflict, up to the number of steps, and the last result is returned.
pub mod Rules
use elasticell_operator.Base.{ℕ, suc, ◌≤◌, Bool, true, false, ◌≡◌}
use elasticell_operator.Effects.{Error, nil_pointer, Result, ok, err}

-- The runs of `fn` that the documentation allows with a number of steps left.
pub data Runs {S A : Type 0} (is_conflict : Error → Bool) (fn : S → Result A × S)
    : ℕ → S → Result A × S → Type 0 where
  succeeded : {n : ℕ} {s t : S} {a : A} → fn s ≡ (ok a, t) → Runs is_conflict fn (suc n) s (ok a, t)
  failed :
      {n : ℕ} {s t : S} {e : Error}
      → fn s ≡ (err e, t)
      → is_conflict e ≡ false
      → Runs is_conflict fn (suc n) s (err e, t)
  spent :
      {s t : S} {e : Error}
      → fn s ≡ (err e, t)
      → is_conflict e ≡ true
      → Runs is_conflict fn 1 s (err e, t)
  again :
      {n : ℕ} {s t : S} {e : Error} {r : Result A × S}
      → fn s ≡ (err e, t)
      → is_conflict e ≡ true
      → Runs is_conflict fn n t r
      → Runs is_conflict fn (suc n) s r

-- A panic leaves the loop as an error that is no conflict does.
pub record Retry (S A : Type 0) : Type 0 where
  pub is_conflict : Error → Bool
  pub on_conflict : ℕ → (S → Result A × S) → S → Result A × S
  pub panic_ends : is_conflict nil_pointer ≡ false
  pub on_conflict_runs :
      (n : ℕ) (fn : S → Result A × S) (s : S) → 1 ≤ n → Runs is_conflict fn n s (on_conflict n fn s)

-- The steps of `retry.DefaultRetry` and of `retry.DefaultBackoff`.
abbrev pub default_retry : ℕ
default_retry = 5

abbrev pub default_backoff : ℕ
default_backoff = 4
