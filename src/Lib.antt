-- ===== src/Lib.antt =====
-- A hub that lends robot arms to remote operators, and the market that judges and pays their work:
-- the TypeScript of apps/web/src.
--
-- The program. A rig (a robot arm with its agent) polls the hub with telemetry and takes commands
-- and inputs away; an operator's browser claims the lease of a rig, sends inputs and queues
-- commands; a leader arm on the operator's side streams joint targets for the browser that holds
-- the lease. In front of the claim and command routes, the market checks sessions, bonds and
-- booked slots, and opens and closes a ledger row for each attempt. The referee's verdicts in that
-- ledger decide which recorded episodes ship. While a row is open a sampler gathers its evidence from the
-- hub. A worker ends a slot when its time has run out, takes each closed row through its grade, its
-- payment or rejection and its anchoring, gives idle stakes back and settles slots. On the rig, its
-- own services run the attempts, hand the arm back after each, and keep the tasks; its link advertises
-- the tasks to the hub, passes inputs to the driver and runs the commands.
--
-- The files.
--   Base             shared types: tests, lists, maps, signed numbers, texts and JSON values
--   Hub/Rig          the record of a rig: apps/web/src/hub/store.ts, with its parts of api/contract.ts
--   Hub/Lease        leaseHolder, claimLease, revokeLease, releaseLease of hub/store.ts
--   Hub/Queue        drainCommands of hub/store.ts, and the bounded push of the routes
--   Hub/Odometer     noteInputOdometer of hub/store.ts
--   Hub/Frames       setFrame, waitForFrame of hub/store.ts, and the sweep of frames in upsertRig
--   Hub/Registry     upsertRig, getRig, isOnline, listRigs of hub/store.ts
--   Hub/Leaders      the leader arms of hub/store.ts
--   Hub/Verbs        the verb table of hub/verbs.ts
--   Hub/Routes       the handlers of hub/routes.ts that change state: Command (with excludeFor), Input,
--                    Link (/link, /frame, /leaders/link), Drive (/leaders/:name/command) and Post, which
--                    chooses among the actions on a rig; Reply has the answers
--   Hub/Ws           open, close and message of hub/ws.ts
--   Market/Row       the rows, bonds and state of market/store.ts
--   Market/Ledger    openRow, openRowFor, closeRow, bonds and earnings of market/store.ts
--   Market/Exclusion failedEpisodeIndices and passedEpisodeCount of market/store.ts
--   Market/Slots     the slot mirror of market/slots.ts, with SlotView of market/zg-slots.ts
--   Market/Gate      slotGate and marketIntercept of market/interceptor.ts
--   Market/Abandon   abandonStaleRows of market/worker.ts
--   Market/Grader    grade of market/grader/index.ts and gradeLocal of market/grader/local.ts
--   Market/Enforce   enforceSlots and endSlotOnRig of market/worker.ts
--   Market/Settle    advance, settle and payBonus of market/worker.ts: the life of a row
--   Market/Dues      releaseIdleStakes, settleDueSlots and skipNoShows of market/worker.ts
--   Market/Tick      tick and slowTick of market/worker.ts, which put those together
--   Market/Sampler   startSampler, stopSampler, sample, trackJointGripper and pickCam of market/sampler.ts
--   Agent/Attempts   start, finish and the watcher of api/services/attempts.ts
--   Agent/Restore    restoreTeleop of api/services/attempts.ts
--   Agent/Tasks      list, upsert and remove of api/services/tasks-registry.ts
--   Agent/Link       link and applyInput of rig/link.ts; its child Commands has runCommand
-- Beside a component, the child modules hold what is proved of it; the Tests modules run it.
--
-- How the code is modelled. A rig, a leader and the ledger are records that each operation takes
-- and returns. A rig is one object that the registry and every handler share, and it is never
-- removed, so a write through the reference is `put_rig`. Each synchronous call reads the clock
-- once, as the argument `now` in milliseconds; `now - t < x` is written `now < t + x`, which also
-- holds of a stamp in the future. A handler that awaits `impair()` is two functions, for the code
-- before and after it, since other requests run in between; whether an input is dropped is an
-- argument. Errors are constructors with their status code. The sequences of calls in the lease,
-- queue, mailbox and frame theorems are explicit lists, each call with its time.
-- `MarketState.rehydrated` is left out.
--
-- Numbers. Angles, axis values and fractions are whole thousandths, an attempt's seconds too, the
-- odometer's motion is in ten-thousandths, money is in tinybar; JSON numbers are whole. JavaScript
-- numbers are exact here: no rounding, no overflow. All recursion is structural. Counts of
-- rounds: the digits of n, in `json_length` and `cam_codes`, have n + 1, which is more than there
-- are; the loops of Agent/Restore have the 240 and 20 rounds, and that of `free_repo_name` the 50,
-- that the source gives them.
-- A request body has fields of the types that the code declares for it. A row's id is the pair of
-- numbers that its text is made of. Lower case is that of the ASCII letters and the Kelvin sign.
--
-- Outside the model. Matching of paths, JSON parsing and printing (but for the length of a printed
-- value), cookies and signatures, the read-only summaries and the video stream; the remote graders;
-- the chains, which third-party packages call; of the rig's link the uploads, the socket and the
-- hash of a list, and those of the rig's services that drive processes, cameras and the disk; the
-- pages; the driver, the headset client and the contracts. What those give to the modelled code is
-- an argument: the session and the slot token that the cookies were read as, the slots that a
-- chain read gave, what a remote grader answers, whether the market and its slots are switched on,
-- what each call of a chain, of the recorder and of the robot gives (`thrown` where it throws),
-- what becomes of the log file, and what the disk holds.

mod Base
pub mod Hub
pub mod Market
pub mod Agent
