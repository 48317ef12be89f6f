-- ===== src/Cli/Parse.antt =====
-- cli/executor.go: which command a line of words is. The words are those of strings.Fields, which are none
-- where the line is empty; `atoi` is the number that strconv.Atoi gives, with its error dropped.
pub mod Roundtrip
use text.Mathlib.Text.{◌==◌ as str_eq}
use low_latency_faa_s.Prelude.{
  ℕ, ◌+◌, ◌-◌, ◌%◌, ◌^◌, ◌<◌, ◌≡◌, refl, String, Bool, true, false, List, [], ◌∷◌, Option, none,
  some, if◌then◌else◌,
}
use low_latency_faa_s.Prelude.Int.{ℤ, pos, negsuc}
use low_latency_faa_s.Kubectl.Deploy.{itoa}
use low_latency_faa_s.Controller.Flowlet.{Flow}

pub data Scenario : Type 0 where
  exp_a exp_b exp_c : Scenario

-- What a line asks for; `nothing` where it is empty, or no branch takes it.
pub data Command : Type 0 where
  nothing quit pods deps nodes usage : Command
  workers : Option String → Command
  add : String → String → List String → Command
  rm : String → ℤ → Command
  attach : String → ℤ → ℤ → Command
  detach : String → ℤ → Command
  kubectl_rm : String → Command
  flow : Flow → Command
  deploy : String → String → Command
  connect : String → ℤ → ℤ → Command
  show : String → Command
  activate : String → Command
  exp : Scenario → Command
  cycle : String → ℤ → ℤ → Command
  batch : String → ℤ → ℤ → ℤ → Command

-- uint32 of an int.
unfoldable pub uint32 : ℤ → ℕ
uint32 (pos n) = n % 2 ^ 32
uint32 (negsuc n) = 2 ^ 32 - 1 - n % 2 ^ 32

unfoldable pub parse_workers : List String → Command
parse_workers [] = workers none
parse_workers (name ∷ _) = workers (some name)

unfoldable pub parse_add : List String → Command
parse_add (node ∷ nf ∷ nfs) = add node nf nfs
parse_add _ = nothing

unfoldable pub parse_kubectl : List String → Command
parse_kubectl (command ∷ name ∷ _) = if str_eq command "rm" then kubectl_rm name else nothing
parse_kubectl _ = nothing

unfoldable pub parse_deploy : List String → Command
parse_deploy (user ∷ func_type ∷ _) = deploy user func_type
parse_deploy _ = nothing

unfoldable pub parse_show : List String → Command
parse_show (user ∷ _) = show user
parse_show [] = nothing

unfoldable pub parse_activate : List String → Command
parse_activate (user ∷ _) = activate user
parse_activate [] = nothing

unfoldable pub parse_exp : List String → Command
parse_exp (name ∷ []) =
    if str_eq name "a"
    then exp exp_a
    else if str_eq name "b"
    then exp exp_b
    else if str_eq name "c"
    then exp exp_c
    else nothing
parse_exp _ = usage

unfoldable pub parse_quit : List String → Command
parse_quit [] = quit
parse_quit (_ ∷ _) = nothing

module _ (atoi : String → ℤ) where
  unfoldable pub parse_rm : List String → Command
  parse_rm (node ∷ id ∷ _) = rm node (atoi id)
  parse_rm _ = nothing

  unfoldable pub parse_attach : List String → Command
  parse_attach (node ∷ id ∷ core ∷ _) = attach node (atoi id) (atoi core)
  parse_attach _ = nothing

  unfoldable pub parse_detach : List String → Command
  parse_detach (node ∷ id ∷ _) = detach node (atoi id)
  parse_detach _ = nothing

  unfoldable pub parse_flow : List String → Command
  parse_flow (src_ip ∷ src_port ∷ dst_ip ∷ dst_port ∷ protocol ∷ _) = flow (record {
    src_ip = src_ip;
    dst_ip = dst_ip;
    src_port = uint32 (atoi src_port);
    dst_port = uint32 (atoi dst_port);
    proto = uint32 (atoi protocol);
  })
  parse_flow _ = nothing

  unfoldable pub parse_connect : List String → Command
  parse_connect (user ∷ up ∷ down ∷ _) = connect user (atoi up) (atoi down)
  parse_connect _ = nothing

  unfoldable pub parse_cycle : List String → Command
  parse_cycle (node ∷ port ∷ cycles ∷ _) = cycle node (atoi port) (atoi cycles)
  parse_cycle _ = nothing

  unfoldable pub parse_batch : List String → Command
  parse_batch (node ∷ port ∷ size ∷ number ∷ _) = batch node (atoi port) (atoi size) (atoi number)
  parse_batch _ = nothing

  unfoldable pub parse_words : String → List String → Command
  parse_words w args =
      if str_eq w "quit"
      then parse_quit args
      else if str_eq w "pods"
      then pods
      else if str_eq w "deps"
      then deps
      else if str_eq w "nodes"
      then nodes
      else if str_eq w "workers"
      then parse_workers args
      else if str_eq w "add"
      then parse_add args
      else if str_eq w "rm"
      then parse_rm args
      else if str_eq w "attach"
      then parse_attach args
      else if str_eq w "detach"
      then parse_detach args
      else if str_eq w "kubectl"
      then parse_kubectl args
      else if str_eq w "flow"
      then parse_flow args
      else if str_eq w "deploy"
      then parse_deploy args
      else if str_eq w "connect"
      then parse_connect args
      else if str_eq w "show"
      then parse_show args
      else if str_eq w "activate"
      then parse_activate args
      else if str_eq w "exp"
      then parse_exp args
      else if str_eq w "cycle"
      then parse_cycle args
      else if str_eq w "batch"
      then parse_batch args
      else nothing

  unfoldable pub parse : List String → Command
  parse [] = nothing
  parse (w ∷ args) = parse_words w args
