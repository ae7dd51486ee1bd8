-- ===== src/Tests/Doubles.antt =====
-- A double of services that refuses its third update.
use elasticell_operator.Base.{List, [], ◌∷◌, some, pos, ◌≡◌}
use elasticell_operator.Api.Objects.{Service}
use elasticell_operator.Effects.{not_found, ok, err}
use elasticell_operator.Member.Builders.Services.{get_new_pd_service}
use elasticell_operator.Fakes.{Indexer}
use elasticell_operator.Fakes.Doubles.{ServiceDouble, new_service_double, set_update_service_error}
use elasticell_operator.Fakes.Controls.{update_service}
use elasticell_operator.Fakes.Once.{updates, update_service_fails_once}
use elasticell_operator.Tests.Data.{cluster}

-- The last version of each object is first.
abbrev indexer : Indexer Service (List Service)
indexer = record {
  add = λ s l. (ok tt, s ∷ l);
  update = λ s l. (ok tt, s ∷ l);
  delete = λ s l. (ok tt, []);
}

abbrev svc : Service
svc = get_new_pd_service cluster

-- The double before its third update.
abbrev third : ServiceDouble (List Service)
third =
    updates indexer svc 2
      (set_update_service_error (some not_found) (pos 2) (new_service_double []))

update_service_fails_once_example : (update_service indexer svc third).0 ≡ err not_found
unfolding new_service_double
update_service_fails_once_example =
    update_service_fails_once indexer svc (new_service_double []) 2 not_found 2
