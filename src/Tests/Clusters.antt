-- ===== src/Tests/Clusters.antt =====
-- A cluster with two pages of services.

use mathlib.Core.List.Perm
use ecstoolkit.Base.{
  ℕ, ◌+◌, refl, List, [], ◌∷◌, ◌++◌, map, Option, some, none, ok, err, invalid, arith,
}
use ecstoolkit.Buffer.{Bytes}
use ecstoolkit.Cluster.{Aws, Service, describe_all_services}
use ecstoolkit.Cluster.Pages.{IsDescribed, Listed, last, page, describe_all_services-IsDescribed}

abbrev service_of : Bytes → Service
service_of name = record {
  service_name = name;
  task_definition = none;
  awsvpc_configuration = none;
}

-- Eleven names are on the first page, and one on the second, which comes with an empty token.
abbrev first_page : List Bytes
first_page =
    (1 ∷ [])
    ∷ (2 ∷ [])
    ∷ (3 ∷ [])
    ∷ (4 ∷ [])
    ∷ (5 ∷ [])
    ∷ (6 ∷ [])
    ∷ (7 ∷ [])
    ∷ (8 ∷ [])
    ∷ (9 ∷ [])
    ∷ (10 ∷ [])
    ∷ (11 ∷ [])
    ∷ []

abbrev second_page : List Bytes
second_page = (12 ∷ []) ∷ []

abbrev page_at : Option Bytes → List Bytes × Option Bytes
page_at none = (first_page, some (84 ∷ []))
page_at (some token) = (second_page, some [])

-- The world counts the calls.
abbrev sample_aws : Aws ℕ
sample_aws = record {
  cluster_name = 99 ∷ [];
  region = 114 ∷ [];
  list_services = λ token w. (ok (page_at token), w + 1);
  describe_services = λ names w. (ok (map service_of names), w + 1);
  run_task = λ i w. (err invalid, w);
  wait_for_task = λ arn w. (ok tt, w);
  describe_task_definition = λ family w. (err invalid, w);
  register_task_definition = λ d w. (err invalid, w);
  update_service = λ name u w. (ok tt, w);
  list_tasks = λ name w. (ok [], w);
  get_caller_identity = λ w. (ok (none, none), w);
  describe_tasks = λ arn w. (ok [], w);
  describe_scalable_targets = λ id w. (ok [], w);
  register_scalable_target = λ id s w. (ok tt, w);
  parse_arn = λ b. ok b;
  parse_int = λ b. err invalid;
}

sample_aws-Listed : Listed sample_aws none (first_page ++ second_page) 2
sample_aws-Listed =
    page none (84 ∷ []) first_page second_page 1 (λ e. cc) (λ w. refl)
      (last (some (84 ∷ [])) (some []) second_page refl (λ w. refl))

describe_all_services-IsDescribed_example :
    IsDescribed service_of
      (first_page ++ second_page)
      (describe_all_services sample_aws 5 (record { user_id = []; account_id = []; world = 0 })).0
describe_all_services-IsDescribed_example =
    describe_all_services-IsDescribed sample_aws service_of
      (λ names w some_name few. record {
        services = map service_of names;
        returns = refl;
        complete = Perm.rfl;
      })
      (first_page ++ second_page) 2 5 (record { user_id = []; account_id = []; world = 0 })
      sample_aws-Listed (omega arith)
