-- ===== src/Cluster/Scaling.antt =====
-- cluster/scale.go and cluster/autoscale.go, and the operations of cluster/cluster.go that update a service.
use ecstoolkit.Base.{
  ℤ, pos, Bool, true, false, not, ◌||◌, List, [], ◌∷◌, ◌++◌, Option, some, none, Result, ok, err,
  Error, if◌then◌else◌, invalid_option, relabel,
}
use ecstoolkit.Buffer.{Bytes}
use ecstoolkit.Message.Types.{codes}
use ecstoolkit.Util.{safe_int32}
use ecstoolkit.Method.{Method, fail, lift, catch, ◌>>=◌, ◌>>◌}
use ecstoolkit.Cluster.{
  Aws, Cluster, ScalableTarget, desired_count, new_deployment, new_task_definition, calling,
}

-- `AutoscalingOptions`
pub record AutoscalingOptions : Type 0 where
  pub scale_in : Option Bool
  pub scale_out : Option Bool
  pub scheduled_scaling : Option Bool

-- `ScaleOptions`
pub record ScaleOptions : Type 0 where
  pub min : Bool
  pub max : Bool
  pub size : ℤ

-- What is not wanted is suspended.
abbrev pub suspends : Option Bool → Option Bool
suspends none = none
suspends (some b) = some (not b)

-- The capacity that a target is scaled to; neither minimum nor maximum is the count 0.
abbrev pub capacity : Bool → Bool → ScalableTarget → Option ℤ
capacity true is_max t = t.min_capacity
capacity false true t = t.max_capacity
capacity false false t = some (pos 0)

-- The first error of a group.
abbrev pub first_error : Option Error → Result (Unit {0}) → Result (Unit {0})
first_error (some e) r = err e
first_error none r = r

module _ {W : Type 0} (aws : Aws W) where
  unfoldable pub resource_id : Bytes → Bytes
  resource_id service_name = codes "service/" ++ aws.cluster_name ++ codes "/" ++ service_name

  unfoldable pub autoscale : Bytes → AutoscalingOptions → Method (Cluster W) (Unit {0})
  autoscale service_name options = calling (
      aws.register_scalable_target (resource_id service_name) (record {
        scaling_in = suspends options.scale_in;
        scaling_out = suspends options.scale_out;
        scheduled = suspends options.scheduled_scaling;
      }))

  unfoldable pub set_desired_count : Bytes → ℤ → Method (Cluster W) (Unit {0})
  set_desired_count service_name count =
      calling (aws.update_service service_name (desired_count count))

  abbrev all_options : Bool → AutoscalingOptions
  all_options b = record { scale_in = some b; scale_out = some b; scheduled_scaling = some b }

  unfoldable pub start : Bytes → Method (Cluster W) (Unit {0})
  start service_name = autoscale service_name (all_options true)

  unfoldable pub stop : Bytes → Method (Cluster W) (Unit {0})
  stop service_name = do
    autoscale service_name (all_options false)
    set_desired_count service_name (pos 0)

  unfoldable pub restart : Bytes → Method (Cluster W) (Unit {0})
  restart service_name = calling (aws.update_service service_name new_deployment)

  unfoldable pub deploy : Bytes → Bytes → Method (Cluster W) (Unit {0})
  deploy service_name task_definition_arn =
      calling (aws.update_service service_name (new_task_definition task_definition_arn))

  scale_each :
      Bytes
      → Option ℤ
      → (Option Error → Method (Cluster W) (Unit {0}))
      → Option Error
      → Method (Cluster W) (Unit {0})
  scale_each service_name none rest failed = fail invalid_option
  scale_each service_name (some count) rest none = do
    e ← catch (set_desired_count service_name count)
    rest e
  scale_each service_name (some count) rest (some e) = do
    _ ← catch (set_desired_count service_name count)
    rest (some e)

  -- The loop of `scaleMinMax`. The calls of the group run in the order of the targets, each to its end; the
  -- first error is that of the group, and a target without the capacity ends the loop with the calls that
  -- it has started.
  unfoldable pub scale_targets :
      Bytes → Bool → Bool → List ScalableTarget → Option Error → Method (Cluster W) (Unit {0})
  unfolding scale_each
  scale_targets service_name is_min is_max [] failed = lift (first_error failed (ok tt))
  scale_targets service_name is_min is_max (t ∷ ts) failed =
      let rest = scale_targets service_name is_min is_max ts in
      scale_each service_name (capacity is_min is_max t) rest failed

  unfoldable pub scale_min_max : Bytes → Bool → Bool → Method (Cluster W) (Unit {0})
  scale_min_max service_name is_min is_max = do
    targets ← calling (aws.describe_scalable_targets (resource_id service_name))
    scale_targets service_name is_min is_max targets none

  unfoldable pub scale : Bytes → ScaleOptions → Method (Cluster W) (Unit {0})
  scale service_name options =
      if options.min || options.max then scale_min_max service_name options.min options.max else (do
        count ← lift (relabel invalid_option (safe_int32 options.size))
        set_desired_count service_name count)
