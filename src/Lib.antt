-- ===== src/Lib.antt =====
-- The per-node CSI driver: every node keeps its own copy of a volume, as a directory, and one pod
-- of the node holds it at a time.
--
-- The parts, and the files that model them:
-- - handle.go: `checkHandle` is `check_handle` of Handle.antt. Regex.antt has the regular
--   expressions that it needs and their matcher `match_string`, Regex/Sound.antt compares the
--   matcher with the relation `Matches`. Handle/Shape.antt and Handle/Check.antt describe the
--   accepted handles by their parts.
-- - store.go: the paths, the copies and their sizes are in Store.antt, with filepath.Join and
--   filepath.Clean in Path.antt. Sizes and products are bit patterns of int64, so they wrap at
--   2 ^ 64.
-- - mount.go: `bind`, `unbind` and the two kinds of bind are in Mount.antt.
-- - events.go: `podOf`, `eventsFrom` and `post` are in Events.antt; the Events that were sent to
--   the API server are the list `posted` of the state.
-- - metrics.go: the gauges and counters are the record `Readings` of Metrics.antt, the families
--   that `newMetrics` registers are in Metrics/Registry.antt.
-- - holds.go: the map of the holds and their files are in Holds.antt, the reader of
--   /proc/self/mountinfo is in Holds/MountInfo.antt.
-- - node.go: the calls of the Node service are in Node/Publish.antt, Node/Unpublish.antt and
--   Node/Stats.antt, their requests and errors in Node.antt.
-- - sweep.go: `handlesOf` and one pass are in Sweep.antt. Follow.antt has the loop of `follow` as
--   a step relation, with the first list, the one slot of its channel, the ticker and the events of
--   the informer, and the watch that counts its restarts. A pass of the loop makes one access at a
--   time there, and the calls of the kubelet come between them. Follow/Removal.antt is about the
--   copies that go, Follow/Spares.antt about a pod that runs meanwhile.
-- - identity.go: Identity.antt, and what Probe leaves in Identity/Ready.antt.
-- - server.go: `newServer` and the interceptor of the metrics are in Server.antt, both
--   interceptors around a call in Server/Chain.antt, `serve` in Server/Serve.antt. The start of
--   the driver and its calls, one after the other, are in Calls.antt.
-- - cli.go and main.go: Cli.antt, and `run` and `main`, the composition of the whole program, in
--   Cli/Run.antt.
--
-- The state of the driver is the record `Driver` of Driver.antt: the machine (`os`), the holds,
-- the metrics and the posted Events. The settings that never change are in `Settings`. A call is
-- a function from the state to a result and a state; a gRPC error is a `Status` of Status.antt. A
-- publish takes the hold that an unpublish gives up, and a sweep spares what PersistentVolumes
-- name and what pods hold. A restart reads the holds back from the disk and asks the mount table
-- which of them are real; Holds/Resume.antt and Calls/Restart.antt are about that. Go leaves the
-- order of a map's entries open, and Calls/Order compares drivers that differ in nothing else.
--
-- Lease.antt is what the driver promises of its handles, with neither a machine nor a map: Step
-- is what a call may do to the leases. Lease/Implemented.antt compares the calls with it.
--
-- gRPC serves every call in a goroutine of its own, and the sweep has one too. Concurrent.antt
-- has goroutines as `Thread`s, which change the state one access at a time, and
-- Concurrent/Schedule.antt lets them take turns in any order. Concurrent/Operations.antt has
-- every call again as a goroutine. An access is one call of the kernel, one critical section of
-- the lock `mu`, one change of a metric, or one Event. What os.RemoveAll does is one access, and
-- so are the walk and the statfs of NodeGetVolumeStats, which only read.
-- Concurrent/Operations/Alone.antt compares the goroutines with the calls, Concurrent/Apart is
-- about calls of different handles that run at the same time, Concurrent/Running about a pod that
-- runs while calls come and go, with what it needs of the machine in Needs.antt, and
-- Concurrent/Races.antt has schedules that go wrong.
--
-- A driver can stop at any access. Concurrent/Starting.antt has `resume` as a goroutine, and
-- Concurrent/Crashes.antt lets a process stop while it serves calls or in its start, and starts the
-- next one on the machine as it was left. Concurrent/Running/Recorded.antt has what a pod needs to
-- be found again, Concurrent/Crashes/Published.antt is about the publish that leaves it, and
-- Concurrent/Crashes/Survival.antt about any number of restarts.
--
-- What the driver calls of the kernel, of os, of encoding/json and of fmt's %q is the record
-- `Host` of Host.antt, a parameter of every definition that uses it; the package net is the
-- record `Network` of Server.antt, and the gRPC server is `GrpcServer` of Server/Serve.antt.
-- Records state what is relied on: `MountTable` of Host/Laws.antt for mount(2) and umount2(2),
-- `FileTable` of Host/Files.antt for the files that are removed, written and read, and, for what
-- outlives a driver, `DiskFile`, `ListedDirectory` and `PublishedMounts` of Host/Disk.antt for one
-- file, its directory and the file of the mount table. They speak of paths as they are written: a
-- symbolic link, or a second mount that shows the same directory, is not followed. A write of a
-- file is one access, so that a process does not stop inside it. Host/Memory.antt is a small
-- machine on which the first two hold, Tests/Crashing.antt one on which all do, and the files of
-- Tests run the code on them.
--
-- Choices: a text is a list of its bytes. A float64 that the code sets from an integer is that
-- integer. Times are the number that the host returns. The scanner of the mount table ends at a
-- line of 65536 bytes, the limit of bufio.Scanner, and the theorem about it speaks of shorter
-- lines. Decimal numbers are printed on fuel, one unit for every unit of the number, which is
-- more than its digits: Text/Decimal.antt reads them back. No other function needs fuel.
--
-- Not modelled: the log lines other than those of the calls, the inside of the gRPC server, of
-- the Kubernetes client and of its informer, and the HTTP server of the metrics: they are calls
-- of libraries, with no state of the driver.
pub mod Prelude
pub mod Text
pub mod Regex
pub mod Status
pub mod Handle
pub mod Path
pub mod Map
pub mod Host
pub mod Store
pub mod Mount
pub mod Metrics
pub mod Events
pub mod Driver
pub mod Holds
pub mod Node
pub mod Sweep
pub mod Identity
pub mod Calls
pub mod Follow
pub mod Server
pub mod Cli
pub mod Lease
pub mod Concurrent
mod Tests
