-- ===== src/Lib.antt =====
-- A model of the core of go-watch-file: the queue of uploads and its file, the pool of upload workers,
-- the control plane that hands tasks to agents, the alert engine on log files, the knowledge base, the
-- watcher of directories with the rules of paths that it uses, the state behind the dashboard, and the
-- service that puts files into the queue and retries uploads.
--
-- The parts and how they interact
--   The watcher waits until a file that matches has not been written to for a while, and then hands it
--   to the service, which puts it into the upload pool unless the dashboard has switched its directory
--   off or the queue is nearly full. The pool writes its path to the persistent queue before it sends it
--   to its workers, which call the service to upload it with retries, and deletes it there when that has
--   succeeded; a start reads the file of the queue and sends what is left again. Agents of the control
--   plane pull tasks over HTTP and report on them; every change of a task is written to SQLite before
--   the map in memory. The alert tailer polls log files, hands lines to the engine, and the decisions go
--   to the alert state.
--
-- Files, and the code they model (paths below go-watch-file/internal)
--   Base              tests, lists, byte strings, `strings.TrimSpace` exactly on UTF-8 bytes (Base/Trim),
--                     association lists for Go maps, and the newest of a list (Base/Newest).
--   PersistQueue      persistqueue/file_queue.go. FileQueue and its methods; Disk is writeFileAtomic,
--                     Search the loops of RemoveOne and RemoveLastOne, Durable a run and a restart,
--                     Refine the list that callers see.
--   Upload            upload/worker_pool.go. AddFile, the rounds of worker, recoverPersistedItems and the
--                     closing; Store is the interface QueueStore with its laws and FileQueue as one,
--                     Safe the interleavings, Restart a crash, Failures the uploads that fail.
--   Control           api/control_*.go. Types, Db (control_store.go), Agents, Tasks (control_handlers.go),
--                     Sort, Timeouts, Dispatch, Complete (control_dispatch.go); Machine is the diagram of
--                     a task, Writes, Serve, Keys, Expiry and Pull what each request does to the
--                     tasks, Life what holds of a task, Sound of all, Numbers the ids given out, Requests
--                     sequences of requests, Sorted and Order which task is assigned, Registry an agent
--                     that registers again.
--   Alert             alert/engine.go and types.go (Types, Texts, Engine), state.go (State), tailer.go
--                     (Tailer); Run is the engine over lines, Stamps, Spacing, Escalation and Times
--                     what it sends, Lines, Polls and Growth the reading of a growing file.
--   Kb                kb/service.go and types.go. Types, Normal (the fields of an input), Store (tables,
--                     statements and transactions), Queries, Annexes and Writes (CreateArticle,
--                     UpdateArticle, ApplyAction, RollbackArticle), Lists (ListArticles, PendingReviews),
--                     Tokens and Search (Search, Ask), Docs (ImportDocs); Logic, Commits, Frame,
--                     Statements and Changes are what each write does, Effects the rows that it promises,
--                     Status the diagram of an article, Serve the writes as requests, History and Reviews
--                     sequences of them, Imports, Fates and Tally an import, Bounds how much a search
--                     returns.
--   Paths             match/matcher.go (Matcher), pathutil/exclude.go (Exclude), pathutil/pathutil.go and
--                     watch_dirs.go (Objects), on the functions of Split; Extensions shows suffixes and
--                     reads them back, Subtree is what an exclusion covers, Deepest the choice of a directory.
--   Watch             watcher/file_watcher.go. Files (times of writes, timers), Dirs (watched directories),
--                     Events (events, Start, Reset, and `Act`, what may happen in any order); Frame,
--                     Settled, Armed and Reached hold over any acts, Delivery is when a file is handed on.
--   Dashboard         state/state.go. Switches (automatic upload by path), Records (the state, its start,
--                     SetAutoUpload), Marks (MarkQueued to SetQueueStats); Below is what a switch of a
--                     directory decides, Climb that its search ends, Tally what is shown after any calls.
--   Service           service/file_service.go. Retry (buildUploadRetryPlan), Attempts
--                     (uploadFileWithRetry), Uploads (enqueueFile, processFile in two parts); Enqueue,
--                     Manual and Reasons hold of them.
--   A module Tests has concrete runs.
--
-- How state is modelled
--   A method takes the state and returns the new one; a mutex makes a method one step, and the steps of
--   different goroutines come in any order. Receivers are not nil. Time is an argument, a number of
--   nanoseconds since Go's zero time; `now.Sub(t) <= d` is `now <= t + d`. Counters on uint64 wrap. A
--   number of a request or a setting that is not positive is given as 0. Calls of the operating system
--   and of SQLite take their success from a schedule, a list of Booleans that is arbitrary in every
--   theorem; past its end they succeed. A file of the queue is its JSON value: nothing, a list of paths,
--   or a text that does not parse, so the paths are taken to be valid UTF-8, which `encoding/json` keeps.
--   The tables of SQLite are association lists. `range` over a map goes in the order of the list.
--   `sort.Slice` is insertion sort by the same comparison. `strings.ToLower` changes ASCII letters only.
--   What the knowledge base takes from outside is a record of functions, `Host`: time.Parse, LIKE,
--   unicode.IsLetter and the like; so is what path/filepath and links give for the paths, `PathHost`. The
--   separator of paths is `/`. `filepath.WalkDir` is the list of the calls that it makes. A timer of
--   time.AfterFunc is its path and deadline; it fires, and its callback runs, at any time after that, and
--   calls AddFile at any time after it has given the mutex back.
--   The ratio 0.8 of the queue warning is compared over whole numbers, which agrees with the floats below
--   a capacity of 2^50. No definition needs fuel but the loops of a pull (the number of tasks asked for),
--   the digits of a number, the trimming of a string (both bounded by the length of
--   their argument), the loop of searchByTokens (ten pages, which its test allows at most) and the climb
--   to the parents of a path (two more than its length: each parent is shorter, itself or an end).
--   What the pool, the object store, os.Stat and the context answer to the service is given with each
--   call; the notes of a file are a data type of the fixed texts, sizes and latencies are numbers.
--
-- Not modelled
--   Metrics and logs; HTTP, routing and JSON texts; listings and statistics; the waiting in a shutdown;
--   the compiling of alert rules (time.ParseDuration and a regular expression), so that `reset` takes
--   compiled rules; pollOnce over several files; the HTTP handlers of the knowledge base; the texts of
--   durations that the watcher's silence window is read from; download URLs; the cards and trees that the
--   dashboard builds to be shown; how the service makes, replaces and stops its components; the
--   configuration, the notifiers, the object store and the console.
pub mod Base
pub mod PersistQueue
pub mod Upload
pub mod Control
pub mod Alert
pub mod Kb
pub mod Paths
pub mod Watch
pub mod Dashboard
pub mod Service
