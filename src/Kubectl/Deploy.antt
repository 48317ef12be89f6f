-- ===== src/Kubectl/Deploy.antt =====
-- kubectl/deploy.go: the names of deployments, and the trials to create one. Whether a call of the
-- Kubernetes client succeeds is a parameter.
use Prim.Native.String.{◌++◌ as str_append}
use text.Mathlib.Text.{◌==◌ as str_eq}
use low_latency_faa_s.Prelude.{
  ℕ, zero, suc, ◌/◌, ◌%◌, String, Bool, List, [], ◌∷◌, Option, none, some, ltb, ◌==◌, if◌then◌else◌,
}
use low_latency_faa_s.Prelude.Int.{ℤ, pos, negsuc}
use low_latency_faa_s.Go.{Error, deploy_failed}

-- strconv.Itoa of Go: the digits of the quotient by 10 first, on fuel above the number of digits.
unfoldable pub digit : ℕ → String
digit d =
    if d == 0
    then "0"
    else if d == 1
    then "1"
    else if d == 2
    then "2"
    else if d == 3
    then "3"
    else if d == 4
    then "4"
    else if d == 5
    then "5"
    else if d == 6
    then "6"
    else if d == 7
    then "7"
    else if d == 8
    then "8"
    else "9"

unfoldable pub itoa_loop : ℕ → ℕ → String
itoa_loop zero n = ""
itoa_loop (suc fuel) n =
    let rest = itoa_loop fuel (n / 10) in
    if ltb n 10 then digit n else str_append rest (digit (n % 10))

unfoldable pub itoa : ℤ → String
itoa (pos n) = itoa_loop (suc n) n
itoa (negsuc n) = str_append "-" (itoa_loop (suc (suc n)) (suc n))

-- strings.Join.
unfoldable pub join : String → List String → String
join sep [] = ""
join sep (x ∷ []) = x
join sep (x ∷ y ∷ xs) = str_append x (str_append sep (join sep (y ∷ xs)))

unfoldable pub deployment_name : String → List String → ℤ → String
deployment_name node_name nf_types host_port =
    join "-" (node_name ∷ join "-" nf_types ∷ itoa host_port ∷ [])

unfoldable pub sched_deployment_name : String → String
sched_deployment_name node_name = str_append node_name "-coopsched"

-- moduleNameMappings.
abbrev pub module_name_mappings : List (String × String)
module_name_mappings =
    ("original", "None")
    ∷ ("fc", "FlowCounter")
    ∷ ("nat", "NAT")
    ∷ ("filter", "Filter")
    ∷ ("chacha", "CHACHA")
    ∷ ("aesenc", "AESCBCEnc")
    ∷ ("aesdec", "AESCBCDec")
    ∷ ("acl", "ACL")
    ∷ ("bypass", "Bypass")
    ∷ []

unfoldable pub module_of : List (String × String) → String → String
module_of [] nf_type = "None"
module_of ((k, v) ∷ m) nf_type =
    let rest = module_of m nf_type in if str_eq k nf_type then v else rest

-- The loop of CreateDeployment, over the outcomes of the tries that fit into its 20 seconds, from the
-- error so far: the first success ends it.
unfoldable pub create_tries : Option Error → List Bool → Option Error
create_tries err [] = err
create_tries err (ok ∷ more) =
    let rest = create_tries (some deploy_failed) more in if ok then none else rest
