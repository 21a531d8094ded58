-- ===== src/Lib.antt =====
-- Verification library for Deaddit, a simulated forum that AI agents fill. The program is a web
-- application and a worker process over one database. The web application and the agents cast
-- votes through deaddit/dynamics/votes.py, whose counters the nightly deaddit/dynamics/karma.py
-- repairs; the worker claims jobs of the Job table and runs them (deaddit/runtime/claim.py,
-- deaddit/runtime/runner.py, deaddit/jobs.py); an agent acts through tools that
-- deaddit/agents/registry.py offers and deaddit/agents/executor.py guards. A new comment notifies
-- others (deaddit/dynamics/notifications.py), and deaddit/dynamics/threads.py ends an exchange of
-- two both there and in the tool that creates comments (deaddit/agents/tools_write.py);
-- deaddit/dynamics/inbox.py reads the notifications. deaddit/services/content.py is the one path
-- by which posts, comments, users and communities come into being. deaddit/agents/loop.py
-- reserves a persona for an agent's run, asks the model in turns, and closes the run;
-- deaddit/runtime/wakes.py wakes the agents that are due, in a pool of a bounded size, and sweeps
-- the runs that a killed worker left. deaddit/agents/memory.py keeps what a persona remembers
-- from visit to visit.
--
-- Files and code:
--   Prelude        lists as tables (select, update, delete, count), sums, integers over the native
--                  numbers, text as code points, association lists, JSON values.
--   Vote           the rows that votes read and write. Vote.Cast is cast_vote with its helpers, one
--                  definition per step; Vote.Tally says what the counters stand for; Vote.Recompute is
--                  recompute_scores_and_karma. Moves, Counters, Credits, Table, Apply and Consistency prove the
--                  invariant, Repair the recomputation, Outcomes the answers.
--   Job            the Job row. Job.Claim is claim.py, Job.Poll is _poll_once and _lane_for,
--                  Job.Execute is jobs.py; Exclusive, Once, Stale and Outcome prove what they promise.
--   Agent          Agent.Registry is registry.py; Agent.Similarity, Agent.Guards, Agent.Repeats and
--                  Agent.Executor are executor.py; Offering, Enforcement, Audit, Permits, Caps and
--                  Stuck prove what they promise.
--   Thread         the Comment row. Thread.Chain and Thread.Cap are threads.py, Thread.Notify is
--                  notifications.py, Thread.Reply the guards of _create_comment in tools_write.py;
--                  Exchange proves that the two sides agree, Told whom a notification reaches.
--   Inbox          deaddit/dynamics/inbox.py, whole. RoundTrip is the text of a cursor; Order and Paging prove
--                  the pages, Unread the counts.
--   Run            the Agent and AgentRun rows. Run.Persona is the choice of a persona,
--                  Run.Lifecycle how runs are closed and recovered, Run.Reservation and Run.Ends
--                  how they begin and end, Run.Loop the turns of run_once, Run.Once the whole of
--                  it, Run.Wake one tick of wakes.py, and Run.Lull deaddit/runtime/lull.py.
--                  Owned, Keeps, Sweeps, Moves, Writes, Keyed, Exclusive, Steps, Life and Frozen are
--                  about the steps of any number of workers, Reserve and Eligible about the
--                  reservation, Budget and Turns about the turns, Held and Whole about run_once,
--                  Awake and Calm about a tick.
--   Content        deaddit/services/content.py: Limits has its settings, Posts and Others the creators,
--                  and Title is process_post_title of deaddit/utils.py. Calls makes sequences of them;
--                  Sound, Grown, Kept, Whole, Unchanged and Rates prove what they keep.
--   Memory         the backfill and the snapshot of deaddit/agents/memory.py; Once proves them.
--   The Scenarios  of each part run the definitions and apply the theorems at concrete rows.
--
-- State. A table is the list of its rows, and a function that writes takes the rows and returns
-- the new ones; a transaction that is rolled back returns the rows it began with. What another
-- process may do meanwhile is an argument: the answer of the database to each commit of a vote,
-- the moments of a worker's claims, the answers of _run_is_active. The steps of workers on agents
-- and runs (Move of Run.Steps) are single statements or transactions: the insertion of a run,
-- which the unique indexes guard, the closing of a run, whose UPDATE asks for its status, and the
-- writes that have no condition on a status, which may come after other workers' steps whatever
-- the code has read before; a sweep of overdue runs is one step or a sequence of single
-- interruptions. Moments are seconds on the natural numbers, so a window that reaches before the
-- epoch starts at it.
--
-- Loops are structural recursion on the rows and need no fuel, but for the walk from a comment to
-- the root of its thread, whose fuel is the number of the comments, since the code visits none of
-- them twice, and the turns of a visit (`while True`), whose fuel is two more than the action
-- budget: a turn that goes on has used an action or the one nudge, and there is one turn more
-- that only ends. The retry of a vote happens once, as in the code. Amounts are integers without
-- a bound, as in Python.
--
-- Parameters. The tools that are registered, the validator of their arguments, the digest of a
-- call and the tools' handlers are the record Services of Agent.Executor; generate_personas and
-- run_once are that of Job.Execute; int and crc32 are fields of the Config of Thread.Cap. The
-- clock, the model and the tools of a visit are the record Outside of Run.Loop; what the other
-- workers do in the time of a reservation and of a visit is the record Around of Run.Once; int,
-- random.choice and the samples of delays are fields of Env, Tick and Numbers, and those of the
-- content service of the Env of Content.Limits. What is documented of isoformat, fromisoformat,
-- str and int is IsFormats of Inbox.RoundTrip. A theorem that needs a handler to leave other rows
-- alone says so.
--
-- Not modelled: the texts and hints of the messages, log lines, the truncation of stored results,
-- the worker's liveness file, the threads and pools of the runner, the manual-run marker itself
-- (that its release may write an agent's status is a step of Run.Steps), moments that are NULL
-- (no writer produces such a notification), the notification whose write fails, the texts of
-- summaries (arguments of Memory), the creation of a comment behind its guards in the tool, the
-- preparation of a visit (what it writes into its run is an argument) and the summary after it,
-- the choice of a model's endpoint, the detection of repetition after a creation, the screenshot
-- of a website, and the parts of the program that are input and output, text for models,
-- statistics on floating-point numbers or random choice.
pub mod Prelude
pub mod Vote
pub mod Job
pub mod Agent
pub mod Thread
pub mod Inbox
pub mod Run
pub mod Content
pub mod Memory
