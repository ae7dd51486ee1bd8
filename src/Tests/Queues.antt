-- ===== src/Tests/Queues.antt =====
-- A list as the work queue, and a PD that answers.
use elasticell_operator.Base.{
  String, Bool, true, false, ◌≡◌, ◌⊎◌, refl, some, none, Option, List, [], ◌∷◌, any, ◌==◌, eq_iff,
  arith, if◌then◌else◌,
}
use elasticell_operator.Effects.{remote, ok, err}
use elasticell_operator.Controller.{
  Caches, sync, finish, process_next_work_item, enqueue_cell_cluster,
}
use elasticell_operator.Controller.WorkQueue.{Queue}
use elasticell_operator.Controller.Owed.{cluster_changed}
use elasticell_operator.Controller.Lost.{
  System, noticed, taken, finished, Reach, here, next, start, owe, clear, owed_is_pending,
  process_keeps,
}
use elasticell_operator.Tests.Data.{env, world, cluster}

abbrev has : String → List String → Bool
has k q = any (λ x. x == k) q

abbrev add_once : String → List String → List String
add_once k q = if has k q then q else k ∷ q

abbrev first : List String → Option (String × List String)
first [] = none
first (k ∷ q) = some (k, q)

add_once-has : (k : String) (q : List String) → has k (add_once k q) ≡ true
add_once-has k q = ground (arith, eq_iff k k)

add_once_keeps : (j k : String) (q : List String) → has j q ≡ true → has j (add_once k q) ≡ true
add_once_keeps j k q h = ground arith

first_keeps :
    (j k : String) (q rest : List String)
    → first q ≡ some (k, rest)
    → has j q ≡ true
    → (j ≡ k) ⊎ (has j rest ≡ true)
first_keeps j k [] rest f h = ground arith
first_keeps j k (x ∷ q) rest f h = ground (arith, eq_iff x j)

abbrev list_queue : Queue (List String)
list_queue = record {
  get = first;
  add = add_once;
  add_rate_limited = add_once;
  forget = λ k q. q;
  done = λ k q. q;
  pending = has;
  add_pending = add_once-has;
  add_keeps = add_once_keeps;
  limited_pending = add_once-has;
  limited_keeps = add_once_keeps;
  forget_keeps = λ j k q h. h;
  done_keeps = λ j k q h. h;
  get_keeps = first_keeps;
}

-- The lister fails, so every sync does.
abbrev caches : Caches
caches = record {
  get_cluster = λ ns name. err (remote 500);
  key_of = λ c. ok "prod/demo";
  split_key = λ key. ok ("prod", "demo");
  controller_of = λ set. none;
}

-- The cluster changes, a worker takes its key and fails.
abbrev failed : System (List String)
failed = record {
  queue = finish caches env list_queue "prod/demo" (remote 500 ∷ []) [];
  busy = [];
  owed = owe (some "prod/demo") (clear "prod/demo" (owe (some "prod/demo") (λ k. false)));
}

failed-Reach : Reach caches env list_queue (start caches env list_queue []) failed
unfolding sync enqueue_cell_cluster
failed-Reach =
    next
      (next (next here (noticed (cluster_changed cluster) ("prod/demo" ∷ []) refl))
        (taken "prod/demo" [] refl))
      (finished [] [] "prod/demo" world refl)

owed_is_pending_example : list_queue.pending "prod/demo" failed.queue ≡ true
owed_is_pending_example =
    owed_is_pending caches env list_queue [] failed failed-Reach "prod/demo" refl

-- The key that a worker takes, and whose sync fails.
process_keeps_example :
    ((r : List String) × (list_queue.get ("prod/demo" ∷ []) ≡ some ("prod/demo", r))
      × ((sync caches env "prod/demo" world).0 ≡ []))
    ⊎ (list_queue.pending "prod/demo"
          (process_next_work_item caches env list_queue ("prod/demo" ∷ []) world).1
        ≡ true)
process_keeps_example =
    process_keeps caches env list_queue ("prod/demo" ∷ []) world "prod/demo" refl

-- The failed key waits again.
key_again :
    (process_next_work_item caches env list_queue ("prod/demo" ∷ []) world).1 ≡ "prod/demo" ∷ []
unfolding process_next_work_item sync finish
key_again = refl
