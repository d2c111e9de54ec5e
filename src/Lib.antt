-- ===== src/Lib.antt =====
-- The Nomad runtime pack of gc: a process that gives each session of gc a box, which is one child
-- job of a parent job in a Nomad cluster, and keeps one sidecar file for each session.
--
-- The parts, and the files that model them:
--
-- * The wire formats. Wire/Quote.antt is `shellQuote` (runtime/staging.go) and
--   `parseExecWireArgv` (runtime/ops.go), on bytes, Wire/Texts.antt `separableTransportLaunch`
--   (runtime/ops.go), on texts. Wire/Frames.antt is the WebSocket frames of alloc-exec on both
--   sides: `wsWriteMaskedFrame` and `wsReadFrame` of runtime/exec_ws.go, `wsReadFrame` and
--   `wsWriteFrame` of fakenomad/ws.go. The network hands over what was written, in order.
-- * What is staged into a box, as functions, under Staging/. Env.antt (which variables go where:
--   runtime/staging.go, image_env.go, codex_home.go), Options.antt (launchOptionEnv), Script.antt
--   (buildEnvScript, buildRemoteContextFile), Codex.antt (buildCodexHomeFiles), StagePath.antt
--   (validateStagePath with filepath.Clean, buildTar), Capture.antt (agentCaptureBody,
--   paneCwdPrelude of runtime/ops.go, absolutePathArgs of runtime/host_path_args.go),
--   LaunchCommand.antt (buildLaunchCommandForPane of runtime/ops.go), Sources.antt (what is read
--   on this host: copyFilesToStageFiles, runtime/arg_file_stage.go), Secrets.antt (the files that
--   `stage` of runtime/ops.go writes into the secrets directory).
-- * The lifecycle of a session, under Lifecycle/. Types.antt has the records of
--   runtime/sidecar.go, runtime/client.go and runtime/staging.go, Error.antt the package's error
--   values with `errors.Is`. World.antt has the state: the outside (the cluster, the boxes, the
--   clock, the disk's health), the sidecar directory, and the trace of what the process did,
--   newest first. A Go function of type `(T, error)` is a function from a world to a result and a
--   world, so an error keeps what was done before it. The operations of runtime/ops.go call each
--   other as in the source: Sidecar.antt (runtime/sidecar.go: load, save, remove, list,
--   tombstone), Recover.antt (recoverBinding, findOrphanByNonce, liveChild), Alloc.antt
--   (currentAllocRecord, runDrivingVerb, retryAllocExecReady, awaitExecAllocReadyWithin),
--   Driving.antt (opNudge, opPeek, opInterrupt, opSendKeys, opClearScrollback), Alive.antt
--   (namedProcessAlive), Stop.antt (egressAllocFiles, flushLogShipper, opStop), Dispatch.antt
--   (ensureParentRegistered, dispatch), Launch.antt (verifyPaneRunsAgent, confirmLaunched),
--   Adopt.antt (classifyAdoption, adoptExisting, reapChild), Running.antt (opIsRunning, with
--   syncPromptedMarker and syncCityCheckoutMarker of runtime/prime.go and reapDrainedOneShot of
--   runtime/drain_ack.go), Roster.antt (opListRunning), Excerpt.antt (execExcerpt),
--   Diagnosis.antt (provisionFailureDetail), Stage.antt (stageTracked, stage, execStage),
--   Prime.antt (startupPrimeDetached of runtime/prime.go), Launching.antt (launch, markLaunched,
--   markTransportLaunched), Placing.antt (confirmDispatchPlaced), Doors.antt (opProvision, opStart,
--   opRelaunch, opExec). Sessions.antt runs any sequence of the operations.
-- * The command line, Command.antt: `run` of runtime/main.go for the operations on sessions, with
--   the gate of runtime/gc_capability.go.
-- * The fake Nomad server of the pack's tests, fakenomad/fakenomad.go, under Fake/: State.antt
--   (its records), Faults.antt (scripted faults), Allocs.antt (allocations and tasks),
--   Messages.antt (requests and answers), Jobs.antt (the handlers), Routes.antt (serveHTTP).
--
-- Each part's theorems stand in the files below it, named for what they are about.
-- World/Keeping.antt and World/Triples.antt have the rules for invariants and for what holds after
-- a function, World/Outcomes.antt those that go from a function's success to what it was made of,
-- World/Fuel.antt those that compare two amounts of fuel. Tests/ has a small cluster and applies
-- each theorem at it. Base.antt passes on what all files share.
--
-- How the source is read:
--
-- * What the process asks of the outside is a field of `Lifecycle` or `Client`: any function, so
--   a theorem holds whatever the cluster answers, the disk fails and the clock says.
-- * A message keeps its fixed words and drops what is interpolated, but for what a box printed
--   where the retry reads it. Lines of a log are dropped, with the reads that only add to an
--   error's text.
-- * A map from texts to texts is a list of pairs with each key once. A text is its code points.
-- * A tar archive is its entries, and the writing of one does not fail. The scripts that run in a
--   box are their texts; the prime script, a constant, is a parameter.
-- * A time or duration is its nanoseconds from Go's zero time, so 0 is the zero time; a creation
--   time after now gives age 0. An exit code is only compared with 0.
-- * A sidecar file is keyed by its session's name, which its path encodes one to one; the
--   temporary files of a save and their permissions are left out, as is a file that a second
--   process writes between two of this one's steps.
-- * Contexts are not cancelled, except by the deadlines that are written out.
-- * The fake server's index, job count and port count are 64-bit and wrap around.
--
-- Fuel: `flushLogShipper` gets 601 rounds, as each but the last sleeps 25 of 15000 milliseconds;
-- `verifyPaneRunsAgent` gets 7 looks, as each but the last sleeps 500 of 3000 milliseconds.
-- `awaitExecAllocReady` gets 361 looks, as each but the last sleeps 500 of 180000 milliseconds,
-- and `confirmDispatchPlaced` 32, as each but the last two sleep 1 of 30 seconds. A loop that runs
-- out answers with an error.
--
-- Not modelled: the HTTP client and the exec session under it, the parent's job specification with
-- the image tarball, the operations `check`, `protocol` and `help`, the reading of the environment
-- and the diagnostics file, the warnings about the gc binary, the reading of a pane in
-- runtime/startup.go, the drills and the shell scripts. The fake server's subprocesses, scratch
-- directories and blocked readers belong to the operating system.
pub mod Base
pub mod Wire
pub mod Staging
pub mod Lifecycle
pub mod Command
pub mod Fake
pub mod Tests
