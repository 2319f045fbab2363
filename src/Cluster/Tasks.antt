-- ===== src/Cluster/Tasks.antt =====
-- cluster/cluster.go: the tasks and the task definitions of a service.
use ecstoolkit.Base.{ℕ, List, [], ◌∷◌, ◌++◌}
use ecstoolkit.Buffer.{Bytes}
use ecstoolkit.Message.Types.{codes}
use ecstoolkit.Method.{Method, pure, lift, ◌>>=◌}
use ecstoolkit.Cluster.{
  Aws, Cluster, Service, TaskDefinition, calling, deref, describe_all_services, get_account_id,
}
use ecstoolkit.Cluster.Images.{split_task_definition_arn}
use ecstoolkit.Cluster.Lookup.{replace_tags, first_task, runtime_id, log_groups}

module _ {W : Type 0} (aws : Aws W) where
  unfoldable pub describe_task_definition : Bytes → Method (Cluster W) TaskDefinition
  describe_task_definition family = calling (aws.describe_task_definition family)

  -- The ARN of the new task definition, which is made of the latest of the family of the given one.
  unfoldable pub replace_task_definition_tag :
      Bytes → (Bytes → Bytes → Bytes → Bytes) → Method (Cluster W) Bytes
  replace_task_definition_tag resource replacer = do
    family ← lift (split_task_definition_arn aws.parse_int resource)
    described ← describe_task_definition family.0
    replaced ← lift (replace_tags replacer described.container_definitions)
    arn ←
        calling
          (aws.register_task_definition (record described { container_definitions = replaced }))
    text ← lift (deref arn)
    _ ← lift (aws.parse_arn text)
    pure text

  unfoldable pub get_first_task_arn : Bytes → Method (Cluster W) Bytes
  get_first_task_arn service_name = do
    arns ← calling (aws.list_tasks service_name)
    arn ← lift (first_task arns)
    _ ← lift (aws.parse_arn arn)
    pure arn

  unfoldable pub get_container_runtime_id : Bytes → Bytes → Method (Cluster W) Bytes
  get_container_runtime_id task_arn container_name = do
    tasks ← calling (aws.describe_tasks task_arn)
    lift (runtime_id container_name tasks)

  -- The loop of `DescribeServiceTaskDefinitions`.
  unfoldable pub with_task_definitions :
      List Service → Method (Cluster W) (List (Service × TaskDefinition))
  with_task_definitions [] = pure []
  with_task_definitions (s ∷ ss) =
      let rest = with_task_definitions ss in
      do
        family ← lift (deref s.task_definition)
        described ← describe_task_definition family
        others ← rest
        pure ((s, described) ∷ others)

  unfoldable pub describe_service_task_definitions :
      ℕ → Method (Cluster W) (List (Service × TaskDefinition))
  describe_service_task_definitions fuel = do
    services ← describe_all_services aws fuel
    with_task_definitions services

  -- The first loop of `AggregateLogGroupARNs`.
  unfoldable pub collect_log_groups : List Service → List Bytes → Method (Cluster W) (List Bytes)
  collect_log_groups [] names = pure names
  collect_log_groups (s ∷ ss) names =
      let rest = collect_log_groups ss in
      do
        family ← lift (deref s.task_definition)
        described ← describe_task_definition family
        rest (log_groups described.container_definitions names)

  log_group_arns : Bytes → List Bytes → List Bytes
  log_group_arns account_id [] = []
  log_group_arns account_id (n ∷ ns) =
      (codes "arn:aws:logs:" ++ aws.region ++ codes ":" ++ account_id ++ codes ":log-group:" ++ n)
      ∷ log_group_arns account_id ns

  unfoldable pub aggregate_log_group_arns : List Service → Method (Cluster W) (List Bytes)
  unfolding log_group_arns
  aggregate_log_group_arns services = do
    names ← collect_log_groups services []
    account ← get_account_id aws
    pure (log_group_arns account names)
