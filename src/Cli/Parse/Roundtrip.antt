-- ===== src/Cli/Parse/Roundtrip.antt =====
-- cli/executor.go: the words that stand for a command, in the syntax that the comment on Execute lists.
use low_latency_faa_s.Prelude.{ℕ, ◌^◌, ◌<◌, ◌≡◌, refl, String, List, [], ◌∷◌, none, some, arith}
use low_latency_faa_s.Prelude.Int.{ℤ, pos}
use low_latency_faa_s.Prelude.Count.{count}
use low_latency_faa_s.Utils.MinHeap.Count.{count as ℤ_count, equal_iff}
use low_latency_faa_s.Kubectl.Deploy.{itoa}
use low_latency_faa_s.Cli.Parse.{
  Scenario, exp_a, exp_b, exp_c, Command, nothing, quit, pods, deps, nodes, usage, workers, add, rm,
  attach, detach, kubectl_rm, flow, deploy, connect, show, activate, exp, cycle, batch, uint32,
  parse_workers, parse_add, parse_kubectl, parse_deploy, parse_show, parse_activate, parse_exp,
  parse_quit, parse_rm, parse_attach, parse_detach, parse_flow, parse_connect, parse_cycle,
  parse_batch, parse_words, parse,
}

abbrev scenario_name : Scenario → String
scenario_name exp_a = "a"
scenario_name exp_b = "b"
scenario_name exp_c = "c"

-- The words of a command.
pub render : Command → List String
render nothing = []
render quit = "quit" ∷ []
render pods = "pods" ∷ []
render deps = "deps" ∷ []
render nodes = "nodes" ∷ []
render usage = "exp" ∷ []
render (workers none) = "workers" ∷ []
render (workers (some name)) = "workers" ∷ name ∷ []
render (add node nf nfs) = "add" ∷ node ∷ nf ∷ nfs
render (rm node id) = "rm" ∷ node ∷ itoa id ∷ []
render (attach node id core) = "attach" ∷ node ∷ itoa id ∷ itoa core ∷ []
render (detach node id) = "detach" ∷ node ∷ itoa id ∷ []
render (kubectl_rm name) = "kubectl" ∷ "rm" ∷ name ∷ []
render (flow x) =
    "flow"
    ∷ x.src_ip
    ∷ itoa (pos x.src_port)
    ∷ x.dst_ip
    ∷ itoa (pos x.dst_port)
    ∷ itoa (pos x.proto)
    ∷ []
render (deploy user func_type) = "deploy" ∷ user ∷ func_type ∷ []
render (connect user up down) = "connect" ∷ user ∷ itoa up ∷ itoa down ∷ []
render (show user) = "show" ∷ user ∷ []
render (activate user) = "activate" ∷ user ∷ []
render (exp s) = "exp" ∷ scenario_name s ∷ []
render (cycle node port cycles) = "cycle" ∷ node ∷ itoa port ∷ itoa cycles ∷ []
render (batch node port size number) = "batch" ∷ node ∷ itoa port ∷ itoa size ∷ itoa number ∷ []

-- The numbers of a command, and those that have 32 bits in the program.
unfoldable pub numbers : Command → List ℤ
numbers (rm node id) = id ∷ []
numbers (attach node id core) = id ∷ core ∷ []
numbers (detach node id) = id ∷ []
numbers (flow x) = pos x.src_port ∷ pos x.dst_port ∷ pos x.proto ∷ []
numbers (connect user up down) = up ∷ down ∷ []
numbers (cycle node port cycles) = port ∷ cycles ∷ []
numbers (batch node port size number) = port ∷ size ∷ number ∷ []
numbers _ = []

unfoldable pub words_of_32_bits : Command → List ℕ
words_of_32_bits (flow x) = x.src_port ∷ x.dst_port ∷ x.proto ∷ []
words_of_32_bits _ = []

uint32_lem : (n : ℕ) → n < 2 ^ 32 → uint32 (pos n) ≡ n
unfolding uint32
uint32_lem n h = omega (arith, h)

-- Where atoi reads the numbers of a command, and the numbers of a flow fit into 32 bits, the words of the
-- command are read as that command: no branch of Execute takes the words of another command, and each
-- word goes where it belongs.
pub parse-render :
    (atoi : String → ℤ) (c : Command)
    → ((n : ℤ) → 0 < ℤ_count n (numbers c) → atoi (itoa n) ≡ n)
    → ((n : ℕ) → 0 < count n (words_of_32_bits c) → n < 2 ^ 32)
    → parse atoi (render c) ≡ c
unfolding parse parse_words parse_workers parse_add parse_kubectl parse_deploy parse_show
    parse_activate parse_exp parse_quit parse_rm parse_attach parse_detach parse_flow parse_connect
    parse_cycle parse_batch numbers words_of_32_bits count ℤ_count render
parse-render atoi nothing r b = refl
parse-render atoi quit r b = refl
parse-render atoi pods r b = refl
parse-render atoi deps r b = refl
parse-render atoi nodes r b = refl
parse-render atoi usage r b = refl
parse-render atoi (workers none) r b = refl
parse-render atoi (workers (some name)) r b = refl
parse-render atoi (add node nf nfs) r b = refl
parse-render atoi (kubectl_rm name) r b = refl
parse-render atoi (deploy user func_type) r b = refl
parse-render atoi (show user) r b = refl
parse-render atoi (activate user) r b = refl
parse-render atoi (exp exp_a) r b = refl
parse-render atoi (exp exp_b) r b = refl
parse-render atoi (exp exp_c) r b = refl
parse-render atoi (rm node id) r b = rw (r id (ground (arith, equal_iff id id))) refl
parse-render atoi (detach node id) r b = rw (r id (ground (arith, equal_iff id id))) refl
parse-render atoi (attach node id core) r b =
    rw (r id (ground (arith, equal_iff id id)), r core (ground (arith, equal_iff core core))) refl
parse-render atoi (connect user up down) r b =
    rw (r up (ground (arith, equal_iff up up)), r down (ground (arith, equal_iff down down))) refl
parse-render atoi (cycle node port cycles) r b =
    rw
      (
        r port (ground (arith, equal_iff port port)),
        r cycles (ground (arith, equal_iff cycles cycles)),
      )
      refl
parse-render atoi (batch node port size number) r b =
    rw
      (
        r port (ground (arith, equal_iff port port)),
        r size (ground (arith, equal_iff size size)),
        r number (ground (arith, equal_iff number number)),
      )
      refl
parse-render atoi (flow x) r b =
    rw
      (
        r (pos x.src_port) (ground arith),
        r (pos x.dst_port) (ground arith),
        r (pos x.proto) (ground arith),
        uint32_lem x.src_port (b x.src_port (ground arith)),
        uint32_lem x.dst_port (b x.dst_port (ground arith)),
        uint32_lem x.proto (b x.proto (ground arith)),
      )
      refl
