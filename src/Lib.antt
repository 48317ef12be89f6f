-- ===== src/Lib.antt =====
-- The controller of Low-Latency-FaaS, which deploys chains of network functions (NFs) on workers, gives
-- each new flow to a group of NF instances, and schedules the groups on the workers' CPU cores.
--
-- The parts, and the files that model them:
--   Go                    the errors of the controller, and how a call ends: it returns, panics or hangs
--   Utils.MinHeap         utils/min_heap.go, with Init, Push and Pop of Go's container/heap
--   Utils.IndexPool       utils/index_pool.go: the pools of ports and of PCIe indices; IndexPool.Spec is what a pool
--                         is to do, as a sorted list
--   Utils.Backoff         utils/backoff.go
--   Controller.Flowlet    controller/flowlet.go: Match is matches_flow
--   Controller.Profile    controller/profile.go: the cycle costs of NFs
--   Controller.Dag        controller/dag.go: a user's graph of NFs, connectNFs and Activate
--   Controller.State      the structs Instance, SGroup, Core and Worker of controller/, in one store
--   Controller.Instance   controller/instance.go: a new instance, and the trials of calls to it
--   Controller.Core       controller/core.go: the groups of a core
--   Controller.Attach     attachSGroup and detachSGroup of controller/worker.go and controller/sgroup.go,
--                         over AttachChain and DetachChain of grpc/scheduler.go
--   Controller.Schedule   controller/schedule.go: noPackingScheduleOnce, getIdleCore, and scheduleOnce in
--                         Schedule.Packing; Schedule.Interleaving is the rounds of ScheduleLoop, with reports of
--                         instances and flows between them
--   Controller.Traffic    UpdateTrafficInfo and the loads of controller/sgroup.go and
--                         controller/instance.go
--   Controller.LoadBalance  controller/load_balance.go: UpdateFlow and the choice of a group
--   Controller.Pool       controller/pool.go
--   Controller.Logger     controller/sys_measure.go: a round of RunFaaSLogger with its report; Logger.Stop is the
--                         field state, by which StopFaaSLogger stops it
--   Controller.Requests   requests of controller/controller.go, and getSGroup of controller/worker.go
--   Controller.Groups     instances and groups come and go: NewWorker, createInstance and the destroy methods of
--                         controller/worker.go, newSGroup and Reset of controller/sgroup.go, createFreeSGroup and
--                         destroyFreeSGroup of controller/background.go; Groups.Startup is createSGroup and
--                         metronCreateSGroup, Groups.Ready is preprocessBeforeReady
--   Controller.Lifecycle  createSched and Close of a worker, InstanceSetUp, CreateSGroup,
--                         DestroySGroup, ActivateDAG, SetCycles and SetBatch of controller/controller.go;
--                         Lifecycle.Start is NewFaaSController, and Lifecycle.Factory the threads that it leaves
--                         running: RunFreeSGroupFactory of each worker, and those of createFreeSGroup
--   Controller.Metron     controller/metron.go: UpdatePort, metronStartUp and what they call
--   Grpc.Server           grpc/grpc_server.go: the handlers of the requests that reach the controller
--   Grpc.Ofctl            grpc/ofctl.go: the texts of the messages to the OpenFlow controller
--   Kubectl.Deploy        kubectl/deploy.go: the names of deployments, and the tries of CreateDeployment
--   Kubectl.Spec          kubectl/deploy.go: makeDPDKDeploymentSpec and makeSchedDeploymentSpec
--   Kubectl.Query         kubectl/query.go: the lookups in what the Kubernetes client last gave
--   Cli.Parse, Cli.Execute  cli/executor.go: which command a line is, and what Execute does for it
--   Tests                 concrete runs
--
-- How they meet: NewFaaSController makes the workers, and each makes free groups, which hold a PCIe index of its
-- pool, and starts CooperativeSched (Lifecycle, Groups). A user's DAG is activated, and its chain is deployed on free
-- groups, an instance with a port of the pool for each NF (Startup). Each instance tells its thread's ID
-- (InstanceSetUp), and with the last one its group is ready (Ready). An instance reports its traffic (Requests,
-- Traffic), which makes its group active or not; a worker's scheduler takes groups to cores and off them (Schedule,
-- Attach, Core), by requests to CooperativeSched; a flow of a switch is matched to a DAG and sent to a group
-- (LoadBalance), which may wake the group or take a free one; in the Metron mode a switch's report of a port makes
-- the controller add groups (Metron). The requests come by gRPC (Grpc.Server) or from the command line (Cli).
--
-- A pointer is a number, and World is the store that pointers lead into. A method that takes a lock is one step, and
-- of a method that makes several requests the other threads run before or after, except in its waits (so no instance
-- tells its thread's ID while createSGroup still deploys); of other threads that a method starts and waits for, one runs
-- after the other, and where a method waits for others, what these do is a parameter. What leaves the program is a
-- parameter: Env gives the answer to the n-th request and deployment, and the order in which Go ranges over a map;
-- Floats gives the float64 operations. Counters, rates and cycles are natural numbers; ids and what the code sets to
-- -1 are integers. The attempt counter of a backoff wraps at 64 bits, and at 32 bits do the port of
-- findAvailableSGroupOnIdleWorker, that of a new worker, and the numbers of a flow from the command line; other
-- numbers stay far below the bounds of Go's int.
--
-- Fuel: Activate's walk takes fuel, and any fuel above the rank of the ingress NF is enough where edges
-- lower a rank; the waits for other threads (wait_connected, wait_pending) take fuel for their rounds, and any above
-- the round in which the condition holds is enough; start_groups takes fuel for the free groups of a worker, and
-- draw_other for the draws of rand.Intn. A wait that the code ends after 20 seconds makes a number of turns that is a
-- parameter. up and down of container/heap run on the length of the slice, which bounds their moves;
-- the trials of a call to an instance are 3 and 5, as in the code; every other loop is a recursion on a
-- list.
--
-- Not modelled: what the clients of Kubernetes, gRPC and Redis do (grpc/grpc_client.go, grpc/redis_client.go,
-- grpc/instance.go and kubectl/k8s_controller.go), which call other libraries; the wait for the status of a pod, which
-- changes nothing; what is printed and logged, and the completion of the command line (cli/completer.go); the reading
-- of the cluster file (utils/cluster_info.go) and the flags of main.go; the stubs generated from proto/; the scripts
-- of the switch and of the traffic generator, which are other programs.
pub mod Prelude
pub mod Go
pub mod Utils
pub mod Kubectl
pub mod Cli
pub mod Controller
pub mod Grpc
mod Tests
