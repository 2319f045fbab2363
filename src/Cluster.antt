-- ===== src/Cluster.antt =====
-- cluster/cluster.go, cluster/scale.go and cluster/autoscale.go: the services of an ECS cluster. The AWS
-- clients are a parameter; a pointer that may be nil is an option, and reading it when it is nil panics.
pub mod Chunk
pub mod Images
pub mod Scaling
pub mod Lookup
pub mod Pages
pub mod Tasks
pub mod Attach
use ecstoolkit.Base.{
  ℕ, suc, zero, ℤ, pos, Bool, true, false, not, List, [], ◌∷◌, ◌++◌, map, Option, some, none,
  Result, ok, err, panic, blocked, Error, if◌then◌else◌, eq_bytes, service_not_found,
  container_not_found, task_not_found, no_tasks, relabel,
}
use ecstoolkit.Buffer.{Bytes}
use ecstoolkit.Message.Types.{codes}
use ecstoolkit.Method.{Method, pure, fail, lift, catch, continue, ◌>>=◌, ◌>>◌, get_state, modify}
use ecstoolkit.Cluster.Chunk.{chunk}
use ecstoolkit.Cluster.Images.{Image, split_image, join_image, split_task_definition_arn}

-- The subnets, whether there is a public address, and the security groups.
pub record AwsVpcConfiguration : Type 0 where
  pub subnets : List Bytes
  pub assign_public_ip : Bytes
  pub security_groups : List Bytes

pub record Service : Type 0 where
  pub service_name : Bytes
  pub task_definition : Option Bytes
  pub awsvpc_configuration : Option AwsVpcConfiguration

-- `log_group` is the option awslogs-group of a log configuration whose driver is awslogs.
pub record ContainerDefinition : Type 0 where
  pub image : Option Bytes
  pub log_group : Option Bytes

-- What the API knows of a task definition besides its containers is known by a number.
pub record TaskDefinition : Type 0 where
  pub container_definitions : List ContainerDefinition
  pub others : ℕ

pub record Container : Type 0 where
  pub name : Option Bytes
  pub runtime_id : Option Bytes

-- What `RunTask` is asked for, besides the cluster and the constants.
pub record RunTaskInput : Type 0 where
  pub task_definition : Option Bytes
  pub awsvpc : AwsVpcConfiguration
  pub container_name : Bytes
  pub started_by : Bytes

pub record ScalableTarget : Type 0 where
  pub min_capacity : Option ℤ
  pub max_capacity : Option ℤ

-- What `UpdateService` is asked for.
pub data Update : Type 0 where
  desired_count : ℤ → Update
  new_deployment : Update
  new_task_definition : Bytes → Update

-- What autoscaling suspends: scaling in, scaling out and scheduled scaling, each as it is where there is none.
pub record SuspendedState : Type 0 where
  pub scaling_in : Option Bool
  pub scaling_out : Option Bool
  pub scheduled : Option Bool

-- The AWS clients, for one cluster. `list_services` gives a page and the token of the next; a container of
-- a task, and a task, are lists. `parse_arn` gives the resource of a valid ARN, `parse_int` is that of strconv.
pub record Aws (W : Type 0) : Type 0 where
  pub cluster_name : Bytes
  pub region : Bytes
  pub list_services : Option Bytes → W → Result (List Bytes × Option Bytes) × W
  pub describe_services : List Bytes → W → Result (List Service) × W
  pub run_task : RunTaskInput → W → Result (List (Option Bytes)) × W
  pub wait_for_task : Bytes → W → Result (Unit {0}) × W
  pub describe_task_definition : Bytes → W → Result TaskDefinition × W
  pub register_task_definition : TaskDefinition → W → Result (Option Bytes) × W
  pub update_service : Bytes → Update → W → Result (Unit {0}) × W
  pub list_tasks : Bytes → W → Result (List Bytes) × W
  pub get_caller_identity : W → Result (Option Bytes × Option Bytes) × W
  pub describe_tasks : Bytes → W → Result (List (List Container)) × W
  pub describe_scalable_targets : Bytes → W → Result (List ScalableTarget) × W
  pub register_scalable_target : Bytes → SuspendedState → W → Result (Unit {0}) × W
  pub parse_arn : Bytes → Result Bytes
  pub parse_int : Bytes → Result ℤ

-- The fields of `Cluster` that change, and the world.
pub record Cluster (W : Type 0) : Type 0 where
  pub user_id : Bytes
  pub account_id : Bytes
  pub world : W

-- Reads a pointer.
abbrev pub deref : {A : Type 0} → Option A → Result A
deref none = panic
deref (some a) = ok a

-- The element at the index 0.
abbrev pub first : {A : Type 0} → List A → Result A
first [] = panic
first (a ∷ rest) = ok a

-- A call of a client.
abbrev pub calling : {W A : Type 0} → Method W A → Method (Cluster W) A
calling m c = let (r, w) = m c.world in (r, record c { world = w })

module _ {W : Type 0} (aws : Aws W) where
  unfoldable pub describe_chunks : List (List Bytes) → Method (Cluster W) (List Service)
  describe_chunks [] = pure []
  describe_chunks (names ∷ rest) =
      let later = describe_chunks rest in
      do
        described ← calling (aws.describe_services names)
        others ← later
        pure (described ++ others)

  -- The loop over the pages. The fuel bounds their number. The paginator of the SDK ends also at a token that
  -- is empty.
  next_pages :
      (Option Bytes → Method (Cluster W) (List Service))
      → Option Bytes
      → Method (Cluster W) (List Service)
  next_pages go none = pure []
  next_pages go (some token) = if eq_bytes token [] then pure [] else go (some token)

  unfoldable pub describe_pages : ℕ → Option Bytes → Method (Cluster W) (List Service)
  unfolding next_pages
  describe_pages zero token = lift blocked
  describe_pages (suc fuel) token =
      let go = describe_pages fuel in
      do
        page ← calling (aws.list_services token)
        described ← describe_chunks (chunk page.0 (pos 10))
        others ← next_pages go page.1
        pure (described ++ others)

  unfoldable pub describe_all_services : ℕ → Method (Cluster W) (List Service)
  describe_all_services fuel = describe_pages fuel none

  found : List Service → Result Service
  found [] = err service_not_found
  found (s ∷ rest) = ok s

  unfoldable pub describe_service : Bytes → Method (Cluster W) Service
  unfolding found
  describe_service name = do
    described ← calling (aws.describe_services (name ∷ []))
    lift (found described)

  unfoldable pub get_caller_identity : Method (Cluster W) (Unit {0})
  get_caller_identity = do
    res ← calling aws.get_caller_identity
    user ← lift (deref res.0)
    modify (λ c. record c { user_id = user })
    account ← lift (deref res.1)
    modify (λ c. record c { account_id = account })

  unfoldable pub get_user_id : Method (Cluster W) Bytes
  get_user_id = do
    c ← get_state
    if eq_bytes c.user_id []
        then (do get_caller_identity; d ← get_state; pure d.user_id)
        else pure c.user_id

  unfoldable pub get_account_id : Method (Cluster W) Bytes
  get_account_id = do
    c ← get_state
    if eq_bytes c.account_id []
        then (do get_caller_identity; d ← get_state; pure d.account_id)
        else pure c.account_id

  -- The ARN of the task. Where the answer has no task, the index is out of range.
  unfoldable pub run_console : Bytes → Bytes → Method (Cluster W) Bytes
  run_console service_name container_name = do
    service ← describe_service service_name
    user ← get_user_id
    vpc ← lift (deref service.awsvpc_configuration)
    tasks ← calling (
        aws.run_task (record {
          task_definition = service.task_definition;
          awsvpc = vpc;
          container_name = container_name;
          started_by = user;
        }))
    task ← lift (first tasks)
    arn ← lift (deref task)
    _ ← lift (aws.parse_arn arn)
    calling (aws.wait_for_task arn)
    pure arn
