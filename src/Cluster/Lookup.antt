-- ===== src/Cluster/Lookup.antt =====
-- cluster/cluster.go: what is looked up in the answers of the API, and the tags that are replaced.
use ecstoolkit.Base.{
  Bool, true, false, List, [], ◌∷◌, ◌++◌, Option, some, none, Result, ok, err, ◌>>=◌, if◌then◌else◌,
  eq_bytes, container_not_found, task_not_found, no_tasks,
}
use ecstoolkit.Buffer.{Bytes}
use ecstoolkit.Cluster.{ContainerDefinition, Container, deref}
use ecstoolkit.Cluster.Images.{Image, split_image, join_image}

-- The image with the tag that the replacer gives.
retagged : (Bytes → Bytes → Bytes → Bytes) → Image → Bytes
retagged replacer i = join_image (record i { tag = replacer i.repo i.image i.tag })

-- The loop of `ReplaceTaskDefinitionTag` over the containers.
unfoldable pub replace_tags :
    (Bytes → Bytes → Bytes → Bytes) → List ContainerDefinition → Result (List ContainerDefinition)
unfolding retagged
replace_tags replacer [] = ok []
replace_tags replacer (c ∷ cs) =
    let rest = replace_tags replacer cs in
    do
      uri ← deref c.image
      i ← split_image uri
      done ← rest
      ok (record c { image = some (retagged replacer i) } ∷ done)

same_name : Bytes → Option Bytes → Option Bytes → Option Bytes
same_name container_name none id = none
same_name container_name (some name) none = none
same_name container_name (some name) (some id) =
    if eq_bytes name container_name then some id else none

or_else : Option Bytes → Option Bytes → Option Bytes
or_else none rest = rest
or_else (some id) rest = some id

-- The first container with the name, among those with a name and an id, of the first task that has one.
unfoldable pub runtime_id_in : Bytes → List Container → Option Bytes
unfolding same_name or_else
runtime_id_in container_name [] = none
runtime_id_in container_name (c ∷ cs) =
    let rest = runtime_id_in container_name cs in
    or_else (same_name container_name c.name c.runtime_id) rest

unfoldable pub runtime_id_of : Bytes → List (List Container) → Option Bytes
unfolding or_else
runtime_id_of container_name [] = none
runtime_id_of container_name (t ∷ ts) =
    let rest = runtime_id_of container_name ts in or_else (runtime_id_in container_name t) rest

found : Option Bytes → Result Bytes
found none = err container_not_found
found (some id) = ok id

unfoldable pub runtime_id : Bytes → List (List Container) → Result Bytes
unfolding found
runtime_id container_name [] = err task_not_found
runtime_id container_name (t ∷ ts) = found (runtime_id_of container_name (t ∷ ts))

member : Bytes → List Bytes → Bool
member name [] = false
member name (n ∷ ns) = let rest = member name ns in if eq_bytes n name then true else rest

add_group : Option Bytes → List Bytes → List Bytes
unfolding member
add_group none names = names
add_group (some name) names = if member name names then names else names ++ (name ∷ [])

-- The set of the names of the log groups, in the order in which they come first.
unfoldable pub log_groups : List ContainerDefinition → List Bytes → List Bytes
unfolding add_group
log_groups [] names = names
log_groups (c ∷ cs) names = log_groups cs (add_group c.log_group names)

unfoldable pub first_task : List Bytes → Result Bytes
first_task [] = err no_tasks
first_task (arn ∷ rest) = ok arn
