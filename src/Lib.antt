-- ===== src/Lib.antt =====
-- ELNSSM is a service manager for Windows: a Guardian process starts configured programs, watches
-- them, restarts them by their policy, checks their health and serves an HTTP API. This library
-- models its core and proves what keeps it correct.
--
-- Parts and files:
-- - Model: the domain types of internal/model/service.go, health.go and events.go. A string
--   enumeration is a data type with a constructor for the strings that no constant names.
-- - Config: internal/config/service_config.go, config.go and defaults.go. Load is ToService with
--   parseHookYAML, Save is ServiceToYAML, ByteSize parseByteSize and formatByteSize. What Go's time,
--   strconv, fmt and strings make of a text is the argument `Texts`, with what is relied on in `IsGo`.
--   Secrets is EncryptSecrets, DecryptSecrets and Load; DPAPI is the argument `Dpapi`.
-- - Scheduler: internal/scheduler/scheduler.go. robfig/cron is the argument `Cron`, with its laws in
--   `IsCron`.
-- - Process/Wrapper: internal/process/wrapper.go. `start`, `stop`, `close`, `detach` and `adopt` are
--   the methods Start, Stop, Close, Detach and Adopt. What Windows answers is an argument (`Launch`,
--   `Shutdown`, `Adoption`); the calls that Stop makes are listed in its result.
-- - Process/ResourceMonitor: internal/process/resource_monitor.go. `on_tick` is a round of Run with the
--   sample that takeSample returns; Sample is takeSample, with the answers of Windows as arguments.
-- - Manager: internal/manager/manager.go and managed_service.go, for one service. State holds the
--   ManagedService with the goroutines and channels that run for it; Start is startService, Stop
--   stopService, Restart doRestart and restartAfterBreach, Monitor one round of monitorService,
--   Policy shouldRestart and calculateRestartDelay, Handover a service's part of DetachAll and
--   AdoptOrphans. Where the code releases the lock (waiting for dependencies, a restart's delay),
--   the argument `interfere` is what others do to the service meanwhile.
-- - Manager/Supervision: an abstract machine of stop channels, monitor goroutines and processes,
--   and Start, Stop, AdoptOrphans and the rounds of monitorService as its moves. Manager/Leaks, Limits
--   and Races: resource monitors, captures and health runners that stay reachable, the limit of
--   restarts, and stops that meet a start or a restart. Manager/Orphans: what the hand-over leaves.
-- - Manager/Dependencies: internal/manager/dependencies.go, TopologicalSort and WaitForDependencies.
--   The edges are taken in one of the orders in which Go may range over the map; a wait is the list of
--   what its ticks see.
-- - Manager/Registry: internal/manager/manager.go, the map of services with its files, store and
--   schedules: LoadAll, AutoStart, Add, Remove and Update.
-- - Manager/Everyone: StopAll, DetachAll and AdoptOrphans over the map of services.
-- - Process/Hooks and TempScript: internal/process/hooks.go, ExecuteHook and the file of its script; what
--   is done is a list of effects, which Process/Removed carries out.
-- - Process/HostMonitor: internal/process/host_monitor.go, with the answers of Windows as arguments; Filetime
--   is what it and resource_monitor.go make of a FILETIME, in the arithmetic of Common/Words.
-- - Process/Environment and Logon: buildEnvBlock and logonServiceUser of internal/process/wrapper.go;
--   Credential is internal/process/credential.go over DPAPI and base64.
-- - Health: internal/health/history.go (the ring buffer) and runner.go (runCheck, tick by tick; Run and
--   Stop in Runner/Life). Checkers: http_check.go, tcp_check.go, script_check.go and checker.go; what the
--   network and the process answer is a `CheckWorld`.
-- - Notify: internal/notify/dispatcher.go (NewDispatcher, Dispatch with the cooldown of each service and
--   event type); Channels and Mail are Send of webhook.go, telegram.go, ntfy.go and email.go, with
--   what they send as values and the answers as a `NotifyWorld` and an `SmtpWorld`.
-- - Logging: internal/logging. Streamer is the hub of streamer.go with the goroutines of each client as
--   a step relation; a panic is no step. Capture is capture.go, a goroutine being its stream and file.
-- - Guardian: internal/guardian. Defs is New, Run before and after its wait and the restart state file of
--   restart.go, over the manager's map of services; Service is Execute. The bytes that
--   encoding/json makes are the argument `Json`.
-- - Api: internal/api/ratelimit.go, internal/sspi/session.go, internal/api/auth.go and middleware.go, and
--   in UpdateConfig handleUpdateConfig of internal/api/handlers_config.go; in Services the
--   validation of internal/api/validation.go, and handleAddService, handleUpdateService and
--   handleDeleteService of internal/api/handlers_services.go.
--   Server is internal/api/server.go: the order of the middleware up to the handlers, and all that
--   arrives at a server. Nodes is handlers_cluster.go, Readings the handlers that read the store
--   (handlers_health.go, handlers_performance.go, handleListEvents), and Control the starts, stops and
--   restarts of handlers_services.go and handlers_system.go with Manager.Start, Stop and Restart.
--   Listing is what shows services: Manager.List, the rest of handlers_services.go, and handlers_resources.go,
--   whose streams and their counter are a step relation in Listing/Streams. ConfigView is handleGetConfig.
--   Logs is internal/api/handlers_logs.go, with the file system as an argument.
--   A session is a shared object in Go; what the middleware writes to it goes back into the store.
-- - Cluster: internal/cluster/cluster.go. net and net/http are the arguments `Net` and `Answer`; the request
--   that is sent is part of the result.
-- - Store: internal/store/bolt.go and migrations.go. A bucket of bbolt is the argument `Bolt`, with what
--   the code relies on in `IsBolt`; Services has the services, states and events, History and Downsample the
--   histories, and Events is ListEvents over the entries in the order of the cursor.
-- - Examples: concrete services, checks and requests.
-- - Common: shared lists, integers and maps. A Go map is an association list.
--
-- The registry reads and writes services through Config and keeps the Scheduler in step with its map;
-- the manager of one service uses the wrapper, the health runner's failure channel makes monitorService restart,
-- and the API stands in front of the manager.
--
-- Numbers: int and time.Duration are integers without a bound, since no modelled value comes near
-- the machine range but a duration under backoff; a float64 is its bits, and the one product with a
-- float64 is an argument (`Floats`). The counters of Windows are 64 bits that wrap. PIDs are checked against uint32 as in the code. The loop over the
-- queue of TopologicalSort has as much fuel as there are services, which is enough, since no service
-- enters the queue twice; every other loop is a recursion on a list or on the number of attempts.
--
-- Not modelled: Windows, bcrypt, base64, YAML, the network and the file system (arguments); log lines; the
-- file watcher; the handlers of native services, which only call the service control manager; the table
-- of routes; job objects and console signals; the command line.
pub mod Common
pub mod Model
pub mod Config
pub mod Scheduler
pub mod Process
pub mod Manager
pub mod Health
pub mod Notify
pub mod Logging
pub mod Guardian
pub mod Api
pub mod Cluster
pub mod Store
pub mod Examples
