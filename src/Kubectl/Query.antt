-- ===== src/Kubectl/Query.antt =====
-- kubectl/query.go: the lookups over what the Kubernetes client last gave. What a fetch stores is a
-- parameter; a cache that is empty is `none`. What the code only prints is left out, but for the status of a
-- pod.
pub mod Status
use text.Mathlib.Text.{◌==◌ as str_eq}
use low_latency_faa_s.Prelude.{String, Bool, ◌&&◌, List, [], ◌∷◌, Option, none, some, if◌then◌else◌}
use low_latency_faa_s.Prelude.Int.{ℤ}
use low_latency_faa_s.Kubectl.Deploy.{itoa, join}

-- The state of a container: each of the three pointers of the library's type may be nil.
pub record ContainerState : Type 0 where
  pub running : Bool
  pub waiting : Option String
  pub terminated : Bool

-- What the code reads of a pod. `labelled` says that it has labels, and `app` is
-- the one of that name, "" where there is none.
pub record Pod : Type 0 where
  pub name : String
  pub labelled : Bool
  pub app : String
  pub deleting : Bool
  pub containers : List ContainerState

-- The status that PrintPods shows, from the first container.
unfoldable pub printed_status : Pod → String
printed_status p = if p.deleting then "Terminating" else elim p.containers [
  | [] ↦ "Error"
  | c ∷ cs ↦ if c.running then "Running" else elim c.waiting [
    | some reason ↦ reason
    | none ↦ if c.terminated then "Terminating" else ""
  ]
]

-- The body of the loop of GetPodStatusByName: the new status.
unfoldable pub next_status : String → Pod → String
next_status status p = if p.deleting then "Terminating" else elim p.containers [
  | [] ↦ status
  | c ∷ cs ↦ if c.running then "Running" else if c.terminated then "Terminating" else status
]

unfoldable pub status_of : String → List Pod → String
status_of status [] = status
status_of status (p ∷ ps) = status_of (next_status status p) ps

-- GetPodStatusByName, over the pods with the label that the client gives.
abbrev pub get_pod_status_by_name : List Pod → String
get_pod_status_by_name pods = status_of "NotExist" pods

unfoldable pub has_label : String → Pod → Bool
has_label label p = p.labelled && str_eq p.app label

unfoldable pub first_labelled : String → List Pod → Option Pod
first_labelled label [] = none
first_labelled label (p ∷ ps) =
    let rest = first_labelled label ps in if has_label label p then some p else rest

-- GetPodByLabel.
unfoldable pub get_pod_by_label : Option (List Pod) → String → String → ℤ → Option Pod
get_pod_by_label none node_name func_type host_port = none
get_pod_by_label (some pods) node_name func_type host_port =
    first_labelled (join "-" (node_name ∷ func_type ∷ itoa host_port ∷ [])) pods

-- GetDeployment, over the names and the rest of the deployments.
unfoldable pub first_named {ℓ} : {A : Type ℓ} → String → List (String × A) → Option A
first_named name [] = none
first_named name ((n, a) ∷ ds) =
    let rest = first_named name ds in if str_eq name n then some a else rest

unfoldable pub get_deployment {ℓ} : {A : Type ℓ} → Option (List (String × A)) → String → Option A
get_deployment none name = none
get_deployment (some ds) name = first_named name ds
