-- ===== src/Fakes/Once.antt =====
-- A double refuses exactly the request that it is told to (requestTracker of controller_utils.go).
use elasticell_operator.Base.{
  ℕ, zero, suc, ◌+◌, ◌≡◌, refl, ◌⊎◌, inl, inr, Bool, true, false, none, some, pos, leb, nat_eq,
  if◌then◌else◌, arith, ◌∙◌, ap, sym, subst,
}
use elasticell_operator.Effects.{Error, Result, err}
use elasticell_operator.Api.Objects.{Service}
use elasticell_operator.Fakes.{Tracker, Indexer, ready_error, inc, reset, tracked, with_object}
use elasticell_operator.Fakes.Doubles.{ServiceDouble, set_update_service_error}
use elasticell_operator.Fakes.Controls.{update_service, put_services}

-- The tracker of a double that was told at `r` requests to refuse the one after `k` more with `e`,
-- when it had `j` more.
abbrev told : ℕ → ℕ → Error → ℕ → Tracker
told r k e j =
    if leb j k
    then record { requests = r + j; error = some e; after = pos (r + k) }
    else record { requests = r + j; error = none; after = pos 0 }

ready-told :
    (r k j : ℕ) (e : Error) → ready_error (told r k e j) ≡ (if nat_eq j k then some e else none)
ready-told r k j e = ground arith

inc-told : (r k j : ℕ) (e : Error) → nat_eq j k ≡ false → inc (told r k e j) ≡ told r k e (suc j)
inc-told r k j e h = ground arith

reset-told :
    (r k j : ℕ) (e : Error) → nat_eq j k ≡ true → inc (reset (told r k e j)) ≡ told r k e (suc j)
reset-told r k j e h = ground arith

module _ {F : Type 0} (get : F → Tracker) (put : Tracker → F → F) {A : Type 0}
    (body : F → Result A × F) where
  -- The double after a number of requests.
  abbrev after : ℕ → F → F
  after zero f = f
  after (suc j) f = (tracked get put body (after j f)).1

module _ {F : Type 0} (get : F → Tracker) (put : Tracker → F → F) {A : Type 0}
    (body : F → Result A × F) (get-put : (t : Tracker) (f : F) → get (put t f) ≡ t)
    (get-body : (f : F) → get (body f).1 ≡ get f) where
  passes :
      (f : F)
      → ready_error (get f) ≡ none
      → ((tracked get put body f).0 ≡ (body f).0) × (get (tracked get put body f).1 ≡ inc (get f))
  unfolding tracked
  passes f h = ground (arith, h, get-body f, get-put (inc (get (body f).1)) (body f).1)

  refuses :
      (f : F) (e : Error)
      → ready_error (get f) ≡ some e
      → ((tracked get put body f).0 ≡ err e)
        × (get (tracked get put body f).1 ≡ inc (reset (get f)))
  unfolding tracked
  refuses f e h = ground (arith, h, get-put (inc (reset (get f))) f)

  Bool-cases : (b : Bool) → (b ≡ true) ⊎ (b ≡ false)
  Bool-cases true = inl refl
  Bool-cases false = inr refl

  step :
      (r k j : ℕ) (e : Error) (f : F)
      → get f ≡ told r k e j
      → (get (tracked get put body f).1 ≡ told r k e (suc j))
        × ((tracked get put body f).0 ≡ (if nat_eq j k then err e else (body f).0))
  step r k j e f h =
      let ready = ap ready_error h ∙ ready-told r k j e in
      elim (Bool-cases (nat_eq j k)) [
        | inl y ↦
            let refused = refuses f e (ready ∙ ap (λ b. if b then some e else none) y) in
            (refused.1 ∙ ap (λ t. inc (reset t)) h ∙ reset-told r k j e y, rw y refused.0)
        | inr n ↦
            let passed = passes f (ready ∙ ap (λ b. if b then some e else none) n) in
            (passed.1 ∙ ap inc h ∙ inc-told r k j e n, rw n passed.0)
      ]

  after-told :
      (r k : ℕ) (e : Error) (f : F)
      → get f ≡ told r k e 0
      → (j : ℕ) → get (after get put body j f) ≡ told r k e j
  after-told r k e f h zero = h
  after-told r k e f h (suc j) = (step r k j e (after get put body j f) (after-told r k e f h j)).0

  -- A double that was told to fail after `k` more requests refuses the request after them, and no
  -- other before or after: every other request does what the double's body does.
  fails_once :
      (k : ℕ) (e : Error) (f : F)
      → (get f).error ≡ some e
      → (get f).after ≡ pos ((get f).requests + k)
      → (j : ℕ)
      → (tracked get put body (after get put body j f)).0
        ≡ (if nat_eq j k then err e else (body (after get put body j f)).0)
  fails_once k e f has_error has_after j =
      let start : get f ≡ told (get f).requests k e 0 = ground (arith, has_error, has_after) in
      (step (get f).requests k j e (after get put body j f)
        (after-told (get f).requests k e f start j)).1

module _ {I : Type 0} (indexer : Indexer Service I) (svc : Service) where
  -- The double of services after a number of updates.
  abbrev pub updates : ℕ → ServiceDouble I → ServiceDouble I
  updates zero f = f
  updates (suc j) f = (update_service indexer svc (updates j f)).1

  abbrev tracker_of : ServiceDouble I → Tracker
  tracker_of f = f.update_tracker

  abbrev with_tracker : Tracker → ServiceDouble I → ServiceDouble I
  with_tracker t f = record f { update_tracker = t }

  abbrev stored : ServiceDouble I → Result Service × ServiceDouble I
  stored f = put_services f (with_object svc (indexer.update svc f.services))

  updates-after :
      (j : ℕ) (f : ServiceDouble I) → updates j f ≡ after tracker_of with_tracker stored j f
  unfolding update_service
  updates-after zero f = refl
  updates-after (suc j) f = ap (λ g. (update_service indexer svc g).1) (updates-after j f)

  -- A double of services that is told to refuse an update after `k` more returns the error at that
  -- update, and at every other what the cache of services answers.
  pub update_service_fails_once :
      (f : ServiceDouble I) (k : ℕ) (e : Error) (j : ℕ)
      → let told = set_update_service_error (some e) (pos (f.update_tracker.requests + k)) f in
        let g = updates j told in
        (update_service indexer svc g).0
        ≡ (if nat_eq j k then err e else (with_object svc (indexer.update svc g.services)).0)
  unfolding update_service set_update_service_error
  update_service_fails_once f k e j =
      let told = set_update_service_error (some e) (pos (f.update_tracker.requests + k)) f in
      subst
        (λ g.
          (update_service indexer svc g).0
          ≡ (if nat_eq j k then err e else (with_object svc (indexer.update svc g.services)).0))
        (sym (updates-after j told))
        (fails_once tracker_of with_tracker stored (λ t g. refl) (λ g. refl) k e told refl refl j)
