-- ===== src/Cluster/Attach.antt =====
-- cluster/cluster.go: AttachPortForwardingSession and AttachShellSession, which start a session of the executor.
use ecstoolkit.Base.{List, [], ◌∷◌, ◌++◌, ℤ}
use ecstoolkit.Buffer.{Bytes}
use ecstoolkit.Method.{Method, ◌>>=◌}
use ecstoolkit.Cluster.{Aws, Cluster, calling}
use ecstoolkit.Cluster.Tasks.{get_container_runtime_id}
use ecstoolkit.DataChannel.State.{Env}
use ecstoolkit.Executor.{Clients, port_forward_session, shell_session}

-- `strings.Join` with a space.
unfoldable pub joined : List Bytes → Bytes
joined [] = []
joined (word ∷ []) = word
joined (word ∷ next ∷ rest) = word ++ (32 ∷ joined (next ∷ rest))

module _ {W F : Type 0} (aws : Aws W) (env : Env W F) (clients : Clients W F) where
  -- `itoa` is that of strconv.
  unfoldable pub attach_port_forwarding_session :
      (ℤ → Bytes) → Bytes → Bytes → Bytes → ℤ → ℤ → Method (Cluster W) (Unit {0})
  attach_port_forwarding_session itoa task_arn container_name host port_number local_port_number =
      do
        id ← get_container_runtime_id aws task_arn container_name
        calling (
            port_forward_session env clients (record {
              cluster_name = aws.cluster_name;
              task_arn = task_arn;
              container_runtime_id = id;
              host = host;
              port_number = itoa port_number;
              local_port_number = itoa local_port_number;
            }))

  unfoldable pub attach_shell_session : Bytes → Bytes → List Bytes → Method (Cluster W) (Unit {0})
  attach_shell_session task_arn container_name command = do
    id ← get_container_runtime_id aws task_arn container_name
    calling (
        shell_session env clients (record {
          cluster_name = aws.cluster_name;
          task_arn = task_arn;
          container_name = container_name;
          container_runtime_id = id;
          command = joined command;
        }))
