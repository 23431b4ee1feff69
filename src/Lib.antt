-- ===== src/Lib.antt =====
-- The core of the Bitaxe Fleet integration for Home Assistant (custom_components/bitaxe_fleet): what it
-- reads from miners, what it keeps of them, and when it restarts them on its own. The paths below are from
-- that directory.
--
-- The parts and the files that model them:
-- - Python: the language. Text is a list of code points (Python/Text), a float is an exact multiple of
--   2 ^ -1074, an infinity or nan (Python/Float), an untrusted object is a tree of JSON values with
--   foreign objects (Python/Value), a dict is an association list (Python/Dict). Python/Library is a
--   record of what the standard library does and no definition here models: printability of a character,
--   lower case, the reader of floats, the five regular expressions, and the text form of a moment.
-- - Axeos/Errors: axeos/errors.py. A fallible function returns a Result whose error names the exception.
-- - Axeos/Models: axeos/models.py. Models has the records, Models/Profile and Models/Policy the validated
--   ones with their constructors, Models/Equality what == compares. Policy numbers are naturals, as every
--   bound is at least 0. A moment is a number of microseconds.
-- - Axeos/Parser: axeos/parser.py. Address is parse_private_ipv4, MinerId is normalize_miner_id, Fields has
--   the readers of single fields, SystemInfo is parse_system_info, Asic is parse_system_asic and Logs is
--   parse_system_logs.
-- - Axeos/Client: axeos/client.py. Client has the request, the reply and what becomes of a reply,
--   Client/Read the read of a body in chunks, Client/Profile the body of a patch, Client/Calls the methods
--   of AxeOSClient. The session is a function from the requests sent so far and the next request to its
--   reply; a method is a function from the requests sent so far to a result and the requests sent then.
--   json.loads, which may return an object, raise one of the errors that the client catches or raise a
--   plain ValueError, and the text of a float are a record of parameters. Client/Reading, Client/Faults and
--   Client/Outcomes are about these.
-- - Redaction: redaction.py.
-- - Storage: storage.py. State has the registry, Serialize, Deserialize and Load the document, Operations
--   the methods of MinerRegistry as functions from a registry to a result and a registry. The registry
--   holds its document, which is what the Store holds. Each method runs under the lock of the registry, so
--   it is one step. Operations/Requests composes them in any order. An operation writes its whole state.
-- - Recovery: recovery.py. State has the state of one miner and the guards, Report what an evaluation
--   is given by its callbacks and reports (the new state, the calls made, and whether it ends without an
--   exception), Handlers the handlers, Evaluate one evaluation as a function from a state
--   to a report, Engine the engine with its states, locks and tasks.
-- - Discovery: discovery/. Manager has the candidates and the probe, approval and rejection of one, over
--   the registry of Storage; the client that reads a miner is an argument. Service is the handler of mDNS
--   announcements. Network is the validation of a network in active_scan.py, and ActiveScan its workers:
--   a step resumes one worker, up to its next await, so that a sequence of steps is an interleaving. Scan
--   has the status and the task of a scan in manager.py.
-- - Fleet: aggregates.py, coordinator.py and runtime.py. Aggregates has the totals over snapshots, with
--   fsum and the division of floats as parameters. Device is AxeOSClientProtocol, a client whose answers
--   may depend on all that was asked before, and AxeosDevice the client of Axeos/Client as one. Coordinator
--   has the state of MinerCoordinator and Coordinator/Methods its methods, on the coordinator, the registry and the calls on record; what
--   the base class of Home Assistant keeps of a refresh is a parameter, with its documented behaviour as
--   a record of laws. Actions has the operations of the runtime on one miner, Runtime the state of the
--   runtime and Runtime/Methods its other operations.
-- - History: history.py. The entity registry and the recorder are parameters; History/Sampling is about the
--   points that a series keeps.
-- - The modules named Tests have concrete inputs.
--
-- How they interact: the client sends requests and gives the replies to the parsers, which give snapshots;
-- the registry takes over their endpoint and identity and keeps the settings; the engine reads miners and
-- snapshots through its providers and the recorded incidents of the registry when it makes a new state; the
-- discovery writes approvals and rejections to the registry. The history reads what the sensors of
-- the miners have recorded. A coordinator reads a miner through the client
-- and updates the registry; the runtime keeps the coordinators, and the actions that the engine or an
-- administrator asks for run on a coordinator.
--
-- Bounds: most loops are structural recursion. The read of a body has as much fuel as the bytes that it may
-- still read, and every chunk that does not end it has at least one. The readers of UTF-8 have the number
-- of bytes as fuel, and take at least one of them in each step; the digits of a number have the number
-- as fuel, which is more than it has digits. The search for the distance between doubles in Python/Float has
-- 971 doublings, which lead to the largest double. At most 100 incidents are kept, a scan has at most 256
-- hosts and 16 workers, a response at most the bytes of its call, and the tail of a log its last bytes; a
-- series of the history has at most 1440 points.
--
-- Not modelled: the websocket interface and the entities; the setup and the release script; logging;
-- a failing save of the Store; a miner that is forgotten in the middle of its evaluation, whose state the
-- source goes on to change after it was dropped; dates before the year 1 in differences of times; workers of
-- a failed scan that go on while a newer scan runs; two probes of the discovery at the same time; the
-- signals to the entities other than that of an added miner, and when a refresh calls its listeners; the
-- shutdown of a coordinator that was dropped. An operation of a coordinator or of the runtime is one step,
-- also where the source awaits in it outside of a lock.
pub mod Prelude
pub mod Python
pub mod Axeos
pub mod Redaction
pub mod Storage
pub mod Recovery
pub mod Discovery
pub mod Fleet
pub mod History
