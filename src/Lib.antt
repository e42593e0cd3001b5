-- ===== src/Lib.antt =====
-- A crew of agents works on software projects: a control plane opens projects for a founder, spawns
-- agents into them under caps, carries their messages, records what happens, and bills the tokens
-- that they spend; each agent runs a loop of its own, with the tools of its role. This library
-- models the Python of the repository and proves what it does.
--
-- The parts, and where they are modelled:
--
-- Exec: Python's methods. They change a state and return or raise; what was written before a raise
-- stays written. Exec/Keeps has the rules by which a method keeps an invariant.
-- Caps: apps/control_plane/domain/caps.py, the roles, both tables of limits, `check_spawn` and
-- `check_new_project`. Caps/Bounds compares them with the limits as numbers.
-- Project: apps/control_plane/domain/project.py; Project/Defs has the record and its transitions,
-- Project/Naming the proofs about `rename`.
-- Contract: contracts/events.py and contracts/agent_env.py, with the values of a payload; Json is how
-- Python reads a field of a value.
-- Wire: how events and projects are written as JSON and read back, by adapters/redis_store.py,
-- adapters/redis_events.py and agents/shared/agent_loop.py. JSON and ISO dates are a parameter, Codec.
-- Subscription is what the two readers of a channel make of the messages that they poll, Publishing what
-- `publish` puts on the channels.
-- Store, Runtime, Bus: apps/control_plane/ports. A port is a record of operations and a record of the
-- laws that its clients rely on, over what a client sees of the state. Store/Memory and Runtime/Fake
-- are adapters/memory_store.py and adapters/fake_runtime.py with the proofs that they keep the laws.
-- Store/Redis is adapters/redis_store.py over a Redis that is a parameter: Client has the commands and
-- what Redis documents of them, Keys which keys can be the same, Relation when a Redis holds what the
-- dictionaries of the in-memory store hold, Saved, Histories, Agreement and Index what the two stores
-- then return.
-- Runtime/Kubernetes is adapters/k8s_runtime.py over a client that is a parameter, Cluster: Manifest has
-- the Job and Names its name, Launching what the agent reads of it, Counting the selectors, Unseen a
-- census after a launch, Verdicts the states that `status` reports.
-- Service: apps/control_plane/service.py. World has the state of `CrewService` with the states behind
-- its ports, Agents, Projects and Budget have its methods, Calls puts them in sequence, with agents
-- that end between two calls. Spawn, Leaving, Opening, Billing, Recording and Totals (with Sums) say what single methods
-- do, Steady, Kept, KeptCalls and Ceilings what no sequence of calls breaks. All of it holds for any
-- store, runtime and bus that keep their laws. Interleaved takes `spawn` and `open_project` apart at
-- their awaits, where other calls take their turn: Alone is about calls that nothing interrupts, Starts, Launching,
-- Progress and Crowd about the agents that interleaved calls launch, Races, Overwriting and
-- Escaping about two calls at once, the last with the recorder's stop of a project.
-- Api: apps/control_plane/api/routes.py and schemas.py, which make the service's exceptions replies.
-- Api/Stream is the WebSocket of routes.py with what happens on the bus meanwhile, Gap what a tab is sent.
-- Sandbox: apps/control_plane/adapters/k8s_sandbox.py, one command in a Job, over a cluster that is a
-- parameter. Waiting is about its loop, Clearing about the Job when `exec` has ended, Manifest about the Job
-- and the selector of `destroy`.
-- Agents: agents/shared; RoleTools is the catalogue of agent_tools.py and Toolbox its tools, over
-- Requests, which is tools.py; Toolbox/Teammates joins `spawn_agent` to the route of Api that it asks; Gate is skill_gated_tools.py, Telemetry is telemetry.py. Loop has the
-- single steps of agent_loop.py, Start the prompts of agents/main.py and an agent from its start to the
-- end of its events, over a bus. Logging is logging_setup.py: the line of a record, and the queue from
-- which the Loki handler posts (Streams, Shipping).
-- Mocks: mocks/mcp_tickets, mocks/mcp_jira and mocks/mcp_github; Workspace is mocks/mcp_sandbox, over a disk
-- that is a parameter (Files), with Listing for its list of files, and Browser mocks/mcp_browser, with Pages about what becomes of its pages.
-- Tests: the theorems at concrete inputs, with Crew for the state of a service, Toys for a codec and a
-- Redis, and Disks for a disk.
--
-- Bounds and loops: numbers are natural numbers without a bound, as Python's are, and integers
-- where the code may have negative ones. A moment is a number of microseconds, and the clock and
-- the random tokens are given as functions of how often they were read. Every loop is a recursion
-- over a list, but for the sandbox's wait, which counts 2 * (timeout + 60) polls of half a second,
-- the number that its two constants give, and for a call that runs alone at its awaits, which is
-- given a number of turns: a call has nine awaits at most.
--
-- Not modelled: installing the handlers of the log, the log calls inside methods, and tracing; what
-- telemetry and the tools publish while a model is called, in the sequence of an agent's own
-- events; the floating-point moments of events, which are whole numbers here; digits outside ASCII
-- that `int` would read; a negative `MAX_PROJECT_TOKENS`; the awaits of methods other than `spawn`
-- and `open_project`, which run to their end before the next call; opening and closing connections;
-- what else a file system refuses than is said in Files and of the directory of a screenshot; what
-- Kubernetes makes of a value of the environment that has a $ in it; the web console, the notebooks
-- and the deployment. An event and a project are read with their fields as they come; the stores
-- then take them for an event or a project of the model, whose fields have types, which what this
-- program writes always is. A label selector is given by its terms. JSON, ISO dates, the regular
-- expression of the front matter, the YAML parser, `shlex`, the file system and `pathlib`,
-- `str.upper`, `str.lower`, `strftime`, `str` of a value, the files of the prompts, random tokens,
-- the model, the driver of the browser, Redis, the HTTP client and the clients of Kubernetes are
-- parameters.
mod Prelude
pub mod Exec
pub mod Caps
pub mod Project
pub mod Contract
pub mod Wire
pub mod Store
pub mod Runtime
pub mod Bus
pub mod Service
pub mod Api
pub mod Sandbox
pub mod Agents
pub mod Mocks
pub mod Tests
