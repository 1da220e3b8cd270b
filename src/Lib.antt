-- ===== src/Lib.antt =====
-- The verification library of System-Monitor-Go, an agent that collects the metrics of a Linux host
-- and sends them to a server over a websocket.
--
-- The program. `main` (cmd/system-monitor/main.go) loads a configuration (internal/config), starts
-- the master collector (internal/collectors/collector.go) and the client (internal/network/client).
-- The master collector lets the collectors run side by side at each tick of a ticker, merges what
-- they give into one report and pushes that into a bounded queue (internal/common/queue.go). The
-- client's data sender takes the reports from the queue at the ticks of its own ticker and writes
-- them on the connection.
--
-- The files. Base: shared types, texts, machine integers, times and outcomes. A `string` is the list
-- of its code points (Base.Texts), an `int` is a signed integer with its wrap-around written out
-- (Base.Ints), a `float64` is an abstract type with its operations and no assumed law (Base.Floats),
-- a pair of a value and an error is a `Result`, a panic is an `Outcome` (Base.Outcomes), a map is an
-- association list (Base.Maps), a `time.Time` is its nanoseconds (Base.Times).
--   Models: internal/models/metrics.go, one record for each struct.
--   Queue: internal/common/queue.go. `push` and `try_pop` are the methods; Queue.Window compares them
--     with the list of what was pushed; Queue.Schedule has the blocking `Pop`, with its condition
--     variable, as steps of goroutines in any order; Safety has its invariant, Progress what the
--     goroutines in `Pop` get.
--   Client: internal/network/client. DataSender and SystemClient hold the methods of the two structs
--     and pass on the changed record; Lifecycle has the events that reach a client as steps, with
--     `sendMetrics` and a round of `receiveMessages` in two, Races when a `Disconnect` tears these
--     apart, Kept the single events, Orders every order of them, and Delivery what comes on the
--     network.
--   Config: internal/config/config.go. Settings has the structs, Storage the file system, Loading the
--     functions; Reload and Frame have their theorems.
--   ExternalIp: internal/utils/network.go.
--   Startup: cmd/system-monitor/main.go, from the flags to the connected client; Saved has what a
--     start leaves in the file, and Restart two starts, one after the other.
--   Collectors.Master: internal/collectors/collector.go. A run of `CollectAll` asks each
--     collector and merges the replies in the order in which the goroutines get the lock; Registered
--     lists the eight collectors, Fields has their report, Ticks joins it with the queue.
--   Collectors.Memory, Collectors.System: internal/collectors/memory.go and system.go: the cache, the
--     static part that is read once and the part that is read each time. Steps cuts a collection where
--     it takes or leaves the lock, Alone compares that with the one step, and Overlap lets many of
--     them run in any order of their steps, by Collectors.Goroutines. Collectors.Disk:
--     internal/collectors/disk.go; Expected describes the statistics of a partition, Mounts and Ends a
--     collection. Collectors.Service: internal/collectors/service.go.
--   Collectors.Container: internal/collectors/container.go. Usage and Convert have the functions on
--     the answers of Docker, Collection the goroutines of a collection in the order in which they end,
--     Parts the replies without nil pointers, Gather what is reported; Bag forgets the order.
--   Collectors.Cpu: internal/collectors/cpu.go. Details reads the output of lscpu, Sensors the
--     temperatures, Collection is `Collect` with its cache; Size, Cores and Safety have the theorems.
--   Collectors.Process: internal/collectors/process.go. Report is the report on one process, Collection
--     a collection and the cache; Steps, Alone and Overlap are as for the memory collector.
--   Collectors.Network: internal/collectors/network.go. Metrics is a round and the cache, Reported the
--     interfaces of a run of rounds, Rates two rounds in a row. Collectors.Composed follows the
--     network collector's reply into the report.
--   Background: the goroutines with a `time.Ticker` of the collectors, of `Start` in
--     internal/collectors/collector.go and of `sendLoop` in internal/network/client/data_sender.go.
--   Logging: internal/logger/logger.go. Handover has the directory, the file and the owners, Writers the
--     settings and the functions that write a line, Filtered a run of calls of them.
--   Pipeline: the ticks of `Start` and of `sendLoop` on their common queue, in any order; Arrival asks
--     when nothing is lost.
--   The files called Tests hold runs at concrete inputs.
--
-- Bounds. A loop over a list is a recursion on it. Fuel has `get_disk_info`, which follows the slaves
-- of device-mapper devices without a bound of its own, and `format_uint`, whose twenty digits hold
-- every `uint64`. A collection is one step, except in the files called Steps, and so is a tick of
-- `sendLoop` in Pipeline, where nothing disconnects; in Client.Lifecycle `sendMetrics` and a round of
-- `receiveMessages` are two steps each, since their checks are not under the lock. A goroutine of
-- Background runs alone; its ticks are a list, and the one of the disks panics if it has not enough
-- fuel, as the endless recursion would.
--
-- Arguments of the model. What the operating system, the gopsutil, ghw and Docker libraries, the
-- websocket, zerolog, the JSON library, `strconv.ParseFloat` and the HTTP services answer is an
-- argument of the function that asks. `strings.ToLower` is modelled on ASCII letters.
--
-- Not modelled: the rotation and the form of the log's lines, which lumberjack and zerolog make, and
-- the calls that write a line where nothing depends on it; the JSON printing of the records (a
-- library's), the wait for a signal in `main`, the installer, the build files and the integration
-- test. `prevProcesses` of the process collector, which is only written, is left out.
pub mod Background
pub mod Logging
pub mod Pipeline
pub mod Base
pub mod Models
pub mod Queue
pub mod ExternalIp
pub mod Client
pub mod Config
pub mod Startup
pub mod Collectors
