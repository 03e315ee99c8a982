-- ===== src/Lib.antt =====
-- Koprobe: Kubernetes cost attribution.
--
-- The daemon (cmd/koprobe/main.go) counts what each cgroup uses, finds the pod that a cgroup belongs
-- to, prices the usage, keeps a history of snapshots, and serves it over HTTP, to Prometheus and to
-- Slack. cmd/local/main.go serves a simulated cluster in the same way.
--
-- The parts and their files:
-- - Collector: internal/collector/manager.go. `update_cpu`, `update_network` and `update_disk` are
--   the methods of `Manager`, `snapshot` is `Snapshot`. Children: Events (what the collectors send),
--   Tally (the counters against the list of updates), Copies (`Snapshot`).
-- - Enricher: internal/enricher/k8s.go. `sync_pods` is `syncPods`, `resolve` is `Resolve`. Children:
--   ContainerId (`sanitizeContainerID`), Walk (`resolveCgroupID`), Sync and Attributed (`Resolve`
--   after `syncPods`), Syncing (`StartSync`).
-- - Pricing: internal/pricing/engine.go. `new_pricer` is `New`, `get` is `Get`. Children: Ready (the
--   prices after each call), Regions (the regional prices).
-- - Aggregator: internal/aggregator/aggregator.go. `collect` is split at its loops: `new_costs` is
--   the loop over the metrics, `build_snapshot` the loop over the costs, `store` the part under the
--   lock. Costing is the cost of one pod. Pods, Teams, Waste and History prove each part, Nonneg and
--   Signs the signs of the costs; Runs is the step relation of the daemon, with the other goroutines
--   between two ticks, Attribution what a run charges to a pod, and Running the loop `Run`.
-- - Tickers: the loop over a context and a ticker that `Run`, `StartSync` and the two loops of the Slack
--   exporter share. Rounds is the rule by which each of them is proved.
-- - Baselines: the loop over teams and baselines that the two programs share, for any way to judge a
--   cost.
-- - Slack: internal/exporter/slack.go. `check_anomalies` is `checkAnomalies`, `build_bar` is
--   `buildBar`. Children: Anomalies and Bars, Posts (the texts and `sendAlert`), Loops
--   (`StartAnomalyAlerts` and `StartWeeklyDigest`), Alerts (what the first of them posts).
-- - Local: cmd/local/main.go. `update` is `Store.Update`. Children: Recent (what a store keeps over a
--   run of updates), Totals (team totals and baselines).
-- - Api: internal/exporter/api.go. `by_team`, `by_pod` and so on are the handlers. Children: Teams and
--   Pages, Ranked, Recent, Server (the routes and the middleware) and Serving (`Start`). Sorting stands for `sort.Slice`.
-- - Web: what the three servers use of `net/http` (Routes, and Serving, which is `ListenAndServe`). Exports: the API and Prometheus on one snapshot.
-- - Local.Pages: the simulator's handlers (Rows and Reversed prove them). Local.Queries: the pages by
--   pod, for the history and for Prometheus. Local.Simulate: `Simulator` (Ticks, Loads, Signs).
--   Local.Cluster: `buildCluster`. Local.Loop: `main` from its first tick on (Costs).
--   Local.Server: the routes. Local.Serving: `Start`. Local.Served: the answer to Prometheus.
--   Local.Dashboard: `printDashboard` (Bars, Rows, Screens). Local.Options and Local.Main: `main`, with
--   requests between its ticks (Outcomes, Quiet).
-- - Prometheus: internal/exporter/prometheus.go. `scrape` is `handleMetrics`. Children:
--   Totals, Lines (a sample as printed), Server (the routes), Serving (`Start`), and Reading, Pages and
--   Served (a reader of the text, for lines, pages and answers).
-- - Daemon: cmd/koprobe/main.go, and cmd/main.go, which is the same file. `start` is `main` up to its
--   wait. Children: Start (how the start ends), Steps (the goroutines), Quiet and Served (what it
--   serves).
-- - Slack.Digest: the weekly digest. Children: Rows (what it lists), Weekly (how often it is sent).
-- - Float, GoMap, Window, Prelude: what the parts share.
--
-- Conventions. A Go string is the list of its bytes; a literal beyond ASCII is one number for each
-- of its characters. A `uint64` is a natural number with its wrap-around written out; `int64` and
-- instants in nanoseconds are integers; a duration made of a query, and its negation, wrap at 64 bits,
-- and what `int` makes of a number that does not fit is left to the machine.
-- A map is an association list with distinct keys, and each `range` over a map takes the order of
-- the visit as an argument (`GoMap.Ranging.Order`), so that theorems hold for every order. `float64`
-- is any type with the operations that the program uses (`Float.Double`); theorems that compare
-- numbers take the laws of `Float.Laws` as a hypothesis, and tests run over `Float.Pico`. Every
-- product, quotient and sum is rounded by itself, as on amd64. Locks make each method one step. Loops
-- are recursions on the lists that they walk, so no fuel is needed.
--
-- Parameters: the Kubernetes client (the outcome of a listing), the cgroup file system (the entries
-- that a walk meets), the HTTP client (the outcome of a request), clocks, the order of loops over
-- maps, `sort.Slice` (whose result rearranges and sorts the slice), `fmt.Sscanf`, `math.Sin`, the random
-- source, the JSON encoding of an answer, the printing of numbers and dates, what `http.ServeMux` answers
-- where no route has the path, and which addresses can be bound.
--
-- Not modelled: the eBPF programs under bpf/, which the Go code does not load; log output, flags of
-- the command line beyond their effect, and the connections of the servers and of the web
-- hook: a request that is under way when a server is closed counts as answered or as not received.
-- Nor the layout of what the simulator prints on the terminal.
pub mod Prelude
pub mod GoMap
pub mod Window
pub mod Float
pub mod Collector
pub mod Enricher
pub mod Pricing
pub mod Aggregator
pub mod Api
pub mod Baselines
pub mod Daemon
pub mod Exports
pub mod Local
pub mod Prometheus
pub mod Slack
pub mod Sorting
pub mod Tickers
pub mod Web
