-- ===== src/Controls/Retry/Rules.antt =====
-- Rules for what is called with retries: an invariant, the first call's success and its conflict,
-- and a loop that meets the documentation.
use elasticell_operator.Base.{
  ℕ, zero, suc, ◌+◌, ◌≤◌, Bool, true, false, ◌≡◌, refl, arith, subst, sym, ap, ◌∙◌, if◌then◌else◌,
  Bool-cases, inl, inr,
}
use elasticell_operator.Effects.{Error, Result, ok, err}
use elasticell_operator.Controls.Retry.{Runs, succeeded, failed, spent, again}

module _ {S A : Type 0} (is_conflict : Error → Bool) (fn : S → Result A × S) where
  -- What holds before the first call and is kept by every call holds at the end.
  pub Runs-keeps {κ} :
      (P : S → Type κ)
      → ((s : S) → P s → P (fn s).1)
      → {n : ℕ} {s : S} {r : Result A × S} → Runs is_conflict fn n s r
      → P s
      → P r.1
  Runs-keeps P keep {s = s} (succeeded e) p = subst (λ (q : Result A × S). P q.1) e (keep s p)
  Runs-keeps P keep {s = s} (failed e _) p = subst (λ (q : Result A × S). P q.1) e (keep s p)
  Runs-keeps P keep {s = s} (spent e _) p = subst (λ (q : Result A × S). P q.1) e (keep s p)
  Runs-keeps P keep {s = s} (again e _ rest) p =
      Runs-keeps P keep rest (subst (λ (q : Result A × S). P q.1) e (keep s p))

  -- A measure that every call raises by one ends between one and the number of steps higher.
  pub Runs-measure :
      (m : S → ℕ)
      → ((s : S) → m (fn s).1 ≡ suc (m s))
      → {n : ℕ} {s : S} {r : Result A × S} → Runs is_conflict fn n s r
      → (suc (m s) ≤ m r.1) × (m r.1 ≤ m s + n)
  Runs-measure m grow {s = s} (succeeded e) = let g = grow s in grind (arith, e)
  Runs-measure m grow {s = s} (failed e _) = let g = grow s in grind (arith, e)
  Runs-measure m grow {s = s} (spent e _) = let g = grow s in grind (arith, e)
  Runs-measure m grow {s = s} (again e _ rest) =
      let g = grow s in let i = Runs-measure m grow rest in grind (arith, e)

  -- The first call settles the run unless it is a conflict with steps left.
  pub Runs-first_ok :
      {n : ℕ} {s t : S} {a : A} {r : Result A × S}
      → fn s ≡ (ok a, t)
      → Runs is_conflict fn n s r
      → r ≡ (ok a, t)
  Runs-first_ok h (succeeded e) = sym e ∙ h
  Runs-first_ok h (failed e _) = sym e ∙ h
  Runs-first_ok h (spent e _) = sym e ∙ h
  Runs-first_ok h (again e _ _) = ground (arith, sym h ∙ e)

  pub Runs-first_failed :
      {n : ℕ} {s t : S} {x : Error} {r : Result A × S}
      → fn s ≡ (err x, t)
      → is_conflict x ≡ false
      → Runs is_conflict fn n s r
      → r ≡ (err x, t)
  Runs-first_failed h c (succeeded e) = sym e ∙ h
  Runs-first_failed h c (failed e _) = sym e ∙ h
  Runs-first_failed h c (spent e _) = sym e ∙ h
  Runs-first_failed h c (again e d _) = ground (arith, sym h ∙ e)

  pub Runs-first_conflict :
      {n : ℕ} {s t : S} {x : Error} {r : Result A × S}
      → fn s ≡ (err x, t)
      → is_conflict x ≡ true
      → Runs is_conflict fn (suc (suc n)) s r
      → Runs is_conflict fn (suc n) t r
  Runs-first_conflict h c (succeeded e) = ground (arith, sym h ∙ e)
  Runs-first_conflict h c (failed e d) = ground (arith, sym h ∙ e)
  Runs-first_conflict {n} {r = r} h c (again e _ rest) =
      subst (λ u. Runs is_conflict fn (suc n) u r) (ap (λ q. q.1) (sym e ∙ h)) rest

  -- If every call is the same conflict, every step is spent and the conflict is the result.
  pub Runs-stuck {κ} :
      (P : S → Type κ) (x : Error)
      → is_conflict x ≡ true
      → ((s : S) → P s → ((fn s).0 ≡ err x) × P (fn s).1)
      → {n : ℕ} {s : S} {r : Result A × S} → Runs is_conflict fn n s r
      → P s
      → r.0 ≡ err x
  Runs-stuck P x c all {s = s} (succeeded e) p = let a = all s p in grind (arith, e)
  Runs-stuck P x c all {s = s} (failed e d) p = let a = all s p in grind (arith, e)
  Runs-stuck P x c all {s = s} (spent e _) p = let a = all s p in grind (arith, e)
  Runs-stuck P x c all {s = s} (again e _ rest) p =
      Runs-stuck P x c all rest (subst (λ (q : Result A × S). P q.1) e (all s p).1)

  pub Runs-stuck_measure {κ} :
      (P : S → Type κ) (x : Error)
      → is_conflict x ≡ true
      → ((s : S) → P s → ((fn s).0 ≡ err x) × P (fn s).1)
      → (m : S → ℕ) → ((s : S) → m (fn s).1 ≡ suc (m s))
      → {n : ℕ} {s : S} {r : Result A × S} → Runs is_conflict fn n s r
      → P s
      → m r.1 ≡ m s + n
  Runs-stuck_measure P x c all m grow {s = s} (succeeded e) p = let a = all s p in grind (arith, e)
  Runs-stuck_measure P x c all m grow {s = s} (failed e d) p = let a = all s p in grind (arith, e)
  Runs-stuck_measure P x c all m grow {s = s} (spent e _) p = let g = grow s in grind (arith, e)
  Runs-stuck_measure P x c all m grow {s = s} (again e _ rest) p =
      let g = grow s in
      let i =
        Runs-stuck_measure P x c all m grow rest
          (subst (λ (q : Result A × S). P q.1) e (all s p).1) in
      grind (arith, e)

  -- The loop that calls until there is no conflict or one step is left.
  unfoldable pub attempts : ℕ → S → Result A × S
  attempts zero s = fn s
  attempts (suc n) s =
      let (r, t) = fn s in
      elim r [ ok a ↦ (ok a, t) | err e ↦ if is_conflict e then attempts n t else (err e, t) ]

  attempts_ok : (n : ℕ) {s t : S} {a : A} → fn s ≡ (ok a, t) → attempts (suc n) s ≡ (ok a, t)
  unfolding attempts
  attempts_ok n e = grind (arith, e)

  attempts_failed :
      (n : ℕ) {s t : S} {x : Error}
      → fn s ≡ (err x, t)
      → is_conflict x ≡ false
      → attempts (suc n) s ≡ (err x, t)
  unfolding attempts
  attempts_failed n e c = grind (arith, e)

  attempts_conflict :
      (n : ℕ) {s t : S} {x : Error}
      → fn s ≡ (err x, t)
      → is_conflict x ≡ true
      → attempts (suc n) s ≡ attempts n t
  unfolding attempts
  attempts_conflict n e c = grind (arith, e)

  attempts_run :
      (n : ℕ) (s t : S) (q : Result A)
      → ((u : S) → Runs is_conflict fn (suc n) u (attempts n u))
      → fn s ≡ (q, t)
      → Runs is_conflict fn (suc (suc n)) s (attempts (suc n) s)
  attempts_run n s t (ok a) rest e = rw (attempts_ok n e) (succeeded e)
  attempts_run n s t (err x) rest e = elim (Bool-cases (is_conflict x)) [
    | inl c ↦ rw (attempts_conflict n e c) (again e c (rest t))
    | inr c ↦ rw (attempts_failed n e c) (failed e c)
  ]

  last_run : (s t : S) (q : Result A) → fn s ≡ (q, t) → Runs is_conflict fn 1 s (attempts 0 s)
  unfolding attempts
  last_run s t (ok a) e = rw e (succeeded e)
  last_run s t (err x) e = elim (Bool-cases (is_conflict x)) [
    | inl c ↦ rw e (spent e c)
    | inr c ↦ rw e (failed e c)
  ]

  pub attempts-Runs : (n : ℕ) (s : S) → Runs is_conflict fn (suc n) s (attempts n s)
  attempts-Runs zero s = last_run s (fn s).1 (fn s).0 refl
  attempts-Runs (suc n) s = attempts_run n s (fn s).1 (fn s).0 (attempts-Runs n) refl

  not-Runs-zero : {s : S} {r : Result A × S} → ¬ Runs is_conflict fn 0 s r
  not-Runs-zero u = elim u [ ]

  -- The documentation leaves no choice: every run with some steps is the loop's.
  pub Runs-attempts :
      (n : ℕ) (s : S) {r : Result A × S} → Runs is_conflict fn (suc n) s r → r ≡ attempts n s
  unfolding attempts
  Runs-attempts zero s (succeeded e) = sym e
  Runs-attempts zero s (failed e _) = sym e
  Runs-attempts zero s (spent e _) = sym e
  Runs-attempts zero s (again e _ rest) = absurd (not-Runs-zero rest)
  Runs-attempts (suc n) s (succeeded e) = grind (arith, e)
  Runs-attempts (suc n) s (failed e d) = grind (arith, e)
  Runs-attempts (suc n) s (again e c rest) = let i = Runs-attempts n _ rest in grind (arith, e)
