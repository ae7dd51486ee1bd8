-- ===== src/Controller/Lost.antt =====
-- Events, workers and the queue together: no cluster is lost (cell_cluster_controller.go).
use elasticell_operator.Base.{
  String, Bool, true, false, ◌≡◌, ◌⊎◌, inl, inr, refl, sym, ap, subst, ◌∙◌, Option, none, some,
  List, [], ◌∷◌, ◌++◌, ◌==◌, eq_iff, if◌then◌else◌, arith,
}
use elasticell_operator.Effects.{Error, ok, World, Env}
use elasticell_operator.Controller.{Caches, sync, finish, process, process_next_work_item}
use elasticell_operator.Controller.WorkQueue.{Queue}
use elasticell_operator.Controller.Owed.{
  Notice, concerns, react, react_pending, react_keeps, finish_keeps, failed_pending,
}

-- `owed` says of a key that its cluster changed, or its last sync failed, after a worker last took
-- it; `busy` are the keys that workers have.
pub record System (Q : Type 0) : Type 0 where
  pub queue : Q
  pub busy : List String
  pub owed : String → Bool

abbrev pub owe : Option String → (String → Bool) → String → Bool
owe none owed j = owed j
owe (some k) owed j = if k == j then true else owed j

abbrev pub clear : String → (String → Bool) → String → Bool
clear k owed j = if k == j then false else owed j

abbrev pub failed_key : String → List Error → Option String
failed_key k [] = none
failed_key k (e ∷ errs) = some k

module _ (caches : Caches) (env : Env) {Q : Type 0} (queue : Queue Q) where
  -- An informer reports, a worker takes a key, or a worker ends the sync of its key, in whatever
  -- state that the sync found.
  pub data Step (s : System Q) : System Q → Type 0 where
    noticed :
        (n : Notice) (r : Q)
        → react caches queue n s.queue ≡ ok r
        → Step s (record s { queue = r; owed = owe (concerns caches n) s.owed })
    taken :
        (k : String) (r : Q)
        → queue.get s.queue ≡ some (k, r)
        → Step s (record s { queue = r; busy = k ∷ s.busy; owed = clear k s.owed })
    finished :
        (before after : List String) (k : String) (w : World)
        → s.busy ≡ before ++ k ∷ after
        → Step s (record s {
          queue = finish caches env queue k (sync caches env k w).0 s.queue;
          busy = before ++ after;
          owed = owe (failed_key k (sync caches env k w).0) s.owed;
        })

  pub data Reach (s : System Q) : System Q → Type 0 where
    here : Reach s s
    next : {t u : System Q} → Reach s t → Step t u → Reach s u

  abbrev pub start : Q → System Q
  start q = record { queue = q; busy = []; owed = λ k. false }

  abbrev Covered : String → System Q → Type 0
  Covered k s = (s.owed k ≡ false) ⊎ (queue.pending k s.queue ≡ true)

  -- A key that became owed became pending with it.
  owe_covered :
      (k : String) (o : Option String) (owed : String → Bool) (q : Q)
      → ((j : String) → o ≡ some j → queue.pending j q ≡ true)
      → owed k ≡ false
      → (owe o owed k ≡ false) ⊎ (queue.pending k q ≡ true)
  owe_covered k none owed q p f = inl f
  owe_covered k (some j) owed q p f = ground (arith, eq_iff j k, p j refl)

  failed_is_pending :
      (k : String) (errs : List Error) (q : Q) (j : String)
      → failed_key k errs ≡ some j
      → queue.pending j (finish caches env queue k errs q) ≡ true
  failed_is_pending k [] q j h = ground arith
  failed_is_pending k (e ∷ errs) q j h = ground (arith, failed_pending caches queue env k e errs q)

  Step-Covered : (k : String) {s t : System Q} → Step s t → Covered k s → Covered k t
  Step-Covered k {s} (noticed n r h) (inr p) = inr (react_keeps caches queue n s.queue r k h p)
  Step-Covered k {s} (noticed n r h) (inl f) =
      owe_covered k (concerns caches n) s.owed r
        (λ j e. react_pending caches queue n s.queue r j h e) f
  Step-Covered k {s} (taken j r h) (inl f) = inl (ground arith)
  Step-Covered k {s} (taken j r h) (inr p) =
      ground (arith, eq_iff j k, queue.get_keeps k j s.queue r h p)
  Step-Covered k {s} (finished before after j w h) (inr p) =
      inr (finish_keeps caches queue env j (sync caches env j w).0 s.queue k p)
  Step-Covered k {s} (finished before after j w h) (inl f) =
      owe_covered k (failed_key j (sync caches env j w).0) s.owed _
        (failed_is_pending j (sync caches env j w).0 s.queue) f

  Reach-Covered : (k : String) {s t : System Q} → Covered k s → Reach s t → Covered k t
  Reach-Covered k c here = c
  Reach-Covered k c (next r st) = Step-Covered k st (Reach-Covered k c r)

  -- Whatever the informers report and the workers do, in any order: a cluster that changed or whose
  -- StatefulSet did, or whose sync failed, after a worker last took its key is pending in the queue.
  -- A run ends before a deletion that is reported by a tombstone, on which the code panics.
  pub owed_is_pending :
      (q : Q) (t : System Q)
      → Reach (start q) t
      → (k : String) → t.owed k ≡ true
      → queue.pending k t.queue ≡ true
  owed_is_pending q t r k o = let c = Reach-Covered k (inl refl) r in ground arith

  after_get :
      (q : Q) (w : World) (j : String) (o : Option (String × Q))
      → queue.get q ≡ o
      → queue.pending j q ≡ true
      → ((r : Q) × (queue.get q ≡ some (j, r)) × ((sync caches env j w).0 ≡ []))
        ⊎ (queue.pending j (process_next_work_item caches env queue q w).1 ≡ true)
  unfolding process_next_work_item
  after_get q w j none shut p =
      inr (subst (λ o. queue.pending j (process caches env queue o q w).1 ≡ true) (sym shut) p)
  after_get q w j (some (k, r)) got p =
      let errs = (sync caches env k w).0 in
      let ended : (process_next_work_item caches env queue q w).1
          ≡ finish caches env queue k errs r =
        ap (λ o. (process caches env queue o q w).1) got in
      let waits : queue.pending j (finish caches env queue k errs r) ≡ true
          → queue.pending j (process_next_work_item caches env queue q w).1 ≡ true =
        λ h. ap (queue.pending j) ended ∙ h in
      elim (queue.get_keeps j k q r got p) [
        | inr kept ↦ inr (waits (finish_keeps caches queue env k errs r j kept))
        | inl same ↦ elim (failed_cases errs) [
          | inl good ↦ inl (
            r,
            got ∙ ap (λ i. some (i, r)) (sym same),
            ap (λ i. (sync caches env i w).0) same ∙ good,
          )
          | inr bad ↦ inr (waits (failed_is_pending k errs r j (bad ∙ ap some (sym same))))
        ]
      ]
    where
      failed_cases : (errs : List Error) → (errs ≡ []) ⊎ (failed_key k errs ≡ some k)
      failed_cases [] = inl refl
      failed_cases (e ∷ errs) = inr refl

  -- A key that is pending when a worker calls processNextWorkItem is pending afterwards, unless the
  -- worker took it and its sync returned no error. (With the queue shut down nothing is taken.)
  pub process_keeps :
      (q : Q) (w : World) (j : String)
      → queue.pending j q ≡ true
      → ((r : Q) × (queue.get q ≡ some (j, r)) × ((sync caches env j w).0 ≡ []))
        ⊎ (queue.pending j (process_next_work_item caches env queue q w).1 ≡ true)
  process_keeps q w j p = after_get q w j (queue.get q) refl p
