-- ===== src/Kubectl/Spec.antt =====
-- kubectl/deploy.go: the deployments that the Kubernetes client is sent. `master_ip` and `cluster` are
-- what SetFaaSClusterInfo stored: the IP of the controller, and the workers with their numbers of cores.
use Prim.Native.String.{◌++◌ as str_append}
use text.Mathlib.Text.{◌==◌ as str_eq}
use low_latency_faa_s.Prelude.{ℕ, String, Bool, true, false, List, [], ◌∷◌, map, if◌then◌else◌}
use low_latency_faa_s.Prelude.Int.{ℤ, pos, negsuc, ◌+ℤ◌}
use low_latency_faa_s.Kubectl.Deploy.{
  itoa, join, deployment_name, sched_deployment_name, module_name_mappings, module_of,
}

-- A value of the nested maps.
mutual
  pub data Json : Type 0 where
    string : String → Json
    number : ℤ → Json
    flag : Bool → Json
    items : Items → Json
    object : Fields → Json

  pub data Items : Type 0 where
    no_items : Items
    item : Json → Items → Items

  pub data Fields : Type 0 where
    no_fields : Fields
    field : String → Json → Fields → Fields

unfoldable pub items_of : List Json → Items
items_of [] = no_items
items_of (x ∷ xs) = item x (items_of xs)

unfoldable pub fields_of : List (String × Json) → Fields
fields_of [] = no_fields
fields_of ((k, v) ∷ m) = field k v (fields_of m)

abbrev pub obj : List (String × Json) → Json
obj m = object (fields_of m)

abbrev pub arr : List Json → Json
arr xs = items (items_of xs)

abbrev pub words : List String → Json
words ws = arr (map string ws)

unfoldable pub format_bool : Bool → String
format_bool true = "true"
format_bool false = "false"

-- A volume of the host, and its mount in the container.
abbrev pub mount : String → String → Json
mount name path =
    obj (("name", string name) ∷ ("mountPath", string path) ∷ ("readOnly", flag false) ∷ [])

abbrev pub volume : String → String → Json
volume name path = obj (("name", string name) ∷ ("hostPath", obj (("path", string path) ∷ [])) ∷ [])

abbrev pub labels : String → Json
labels name = obj (("app", string name) ∷ [])

abbrev pub privileged : Json
privileged = obj (("privileged", flag true) ∷ ("runAsUser", number (pos 0)) ∷ [])

abbrev pub port_pair : ℕ → ℤ → Json
port_pair container_port host_port =
    obj (("containerPort", number (pos container_port)) ∷ ("hostPort", number host_port) ∷ [])

-- The frame that both deployments have, around the specification of the pod.
unfoldable pub deployment_of : String → Json → Json
deployment_of name pod = obj (
    ("apiVersion", string "apps/v1")
    ∷ ("kind", string "Deployment")
    ∷ ("metadata", obj (("name", string name) ∷ []))
    ∷ (
      "spec",
      obj (
          ("replicas", number (pos 1))
          ∷ ("selector", obj (("matchLabels", labels name) ∷ []))
          ∷ (
            "template",
            obj (("metadata", obj (("labels", labels name) ∷ [])) ∷ ("spec", pod) ∷ []),
          )
          ∷ []),
    )
    ∷ [])

unfoldable pub modules_of : List String → List String
modules_of [] = []
modules_of (t ∷ ts) = module_of module_name_mappings t ∷ modules_of ts

abbrev pub flag_of : String → String → String
flag_of name value = str_append name value

unfoldable pub nf_command :
    String → String → List String → ℤ → String → ℤ → Bool → Bool → Bool → ℤ → ℤ → List String
nf_command master_ip node_name nf_types host_port pcie host_core is_primary is_ingress is_egress
      v_inc v_out =
    let server = str_append master_ip (str_append ":" "10515") in
    "/app/main"
    ∷ flag_of "--node_name=" node_name
    ∷ flag_of "--port=" (itoa host_port)
    ∷ flag_of "--module=" (join "," (modules_of nf_types))
    ∷ flag_of "--primary=" (format_bool is_primary)
    ∷ flag_of "--ingress=" (format_bool is_ingress)
    ∷ flag_of "--egress=" (format_bool is_egress)
    ∷ flag_of "--isolation_key=" pcie
    ∷ flag_of "--device=" pcie
    ∷ flag_of "--worker_core=" (itoa host_core)
    ∷ flag_of "--vport_inc_idx=" (itoa v_inc)
    ∷ flag_of "--vport_out_idx=" (itoa v_out)
    ∷ flag_of "--faas_grpc_server=" server
    ∷ flag_of "--monitor_grpc_server=" server
    ∷ "--redis_ip=128.105.144.32"
    ∷ "--redis_port=6380"
    ∷ "--redis_password=faas-nfv-cool"
    ∷ []

unfoldable pub dpdk_mounts : List Json
dpdk_mounts =
    mount "pcidriver" "/sys/bus/pci/drivers"
    ∷ mount "hugepage" "/sys/kernel/mm/hugepages"
    ∷ mount "huge" "/mnt/huge"
    ∷ mount "dev" "/dev"
    ∷ mount "numa" "/sys/devices/system/node"
    ∷ mount "runtime" "/var/run"
    ∷ mount "port" "/tmp/sn_vports"
    ∷ mount "pcidevice" "/sys/devices"
    ∷ []

unfoldable pub dpdk_volumes : List Json
dpdk_volumes =
    volume "pcidriver" "/sys/bus/pci/drivers"
    ∷ volume "hugepage" "/sys/kernel/mm/hugepages"
    ∷ volume "huge" "/mnt/huge"
    ∷ volume "dev" "/dev"
    ∷ volume "numa" "/sys/devices/system/node"
    ∷ volume "runtime" "/var/run"
    ∷ volume "port" "/tmp/sn_vports"
    ∷ volume "pcidevice" "/sys/devices"
    ∷ []

unfoldable pub dpdk_container : List String → ℤ → List String → Json
dpdk_container nf_types host_port command = obj (
    ("securityContext", privileged)
    ∷ (
      "resources",
      obj (
          ("limits", obj (("memory", string "128Mi") ∷ ("hugepages-2Mi", string "128Mi") ∷ []))
          ∷ []),
    )
    ∷ ("name", string (join "-" nf_types))
    ∷ ("image", string "ch8728847/nf:debug")
    ∷ ("imagePullPolicy", string "Always")
    ∷ ("ports", arr (port_pair 50051 host_port ∷ []))
    ∷ ("command", words command)
    ∷ ("volumeMounts", arr dpdk_mounts)
    ∷ [])

-- makeDPDKDeploymentSpec: the name and the deployment.
unfoldable pub make_dpdk_deployment_spec :
    String → String → List String → ℤ → String → ℤ → Bool → Bool → Bool → ℤ → ℤ → String × Json
make_dpdk_deployment_spec master_ip node_name nf_types host_port pcie host_core prim ing eg v_inc
      v_out =
    let name = deployment_name node_name nf_types host_port in
    let command =
      nf_command master_ip node_name nf_types host_port pcie host_core prim ing eg v_inc v_out in
    (
      name,
      deployment_of name (
          obj (
            ("hostPID", flag true)
            ∷ ("containers", arr (dpdk_container nf_types host_port command ∷ []))
            ∷ ("nodeName", string node_name)
            ∷ ("volumes", arr dpdk_volumes)
            ∷ [])),
    )

-- The number of cores of CooperativeSched: of the last worker with the name, less one for other threads.
unfoldable pub core_num : List (String × ℤ) → String → String → String
core_num [] node_name found = found
core_num ((name, cores) ∷ ws) node_name found =
    core_num ws node_name (if str_eq name node_name then itoa (cores +ℤ negsuc 0) else found)

unfoldable pub sched_container : String → ℤ → Json
sched_container cores host_port = obj (
    ("securityContext", privileged)
    ∷ ("resources", obj (("limits", obj (("memory", string "50Mi") ∷ [])) ∷ []))
    ∷ ("name", string "sched")
    ∷ ("image", string "ch8728847/coopsched:debug")
    ∷ ("imagePullPolicy", string "IfNotPresent")
    ∷ ("ports", arr (port_pair 10515 host_port ∷ []))
    ∷ (
      "command",
      words (
          "/app/cooperative_sched" ∷ flag_of "--cores=" cores ∷ "--cli=0" ∷ "--logtostderr=1" ∷ []),
    )
    ∷ [])

-- makeSchedDeploymentSpec.
unfoldable pub make_sched_deployment_spec : List (String × ℤ) → String → ℤ → String × Json
make_sched_deployment_spec cluster node_name host_port =
    let name = sched_deployment_name node_name in
    (
      name,
      deployment_of name (
          obj (
            ("hostPID", flag true)
            ∷ ("containers", arr (sched_container (core_num cluster node_name "15") host_port ∷ []))
            ∷ ("nodeName", string node_name)
            ∷ [])),
    )
