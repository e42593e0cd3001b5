-- ===== src/Tests/Crew.antt =====
-- A small crew, over the in-memory store and runtime and a list for a bus, and the same with no agent.
use agentic_crew.Prelude.{
  ◌+◌, String, false, ◌≡◌, refl, ap, none, some, List, [], ◌∷◌, length, keep, lookup, arith,
  show_nat,
}
use agentic_crew.Caps.{
  AgentRole, Census, Refusal, backend_engineer, check_spawn, per_project_limit, global_limit,
  project_full, same_role,
}
use agentic_crew.Project.{Project, ProjectStatus}
use agentic_crew.Contract.Value.{pos}
use agentic_crew.Store.Memory.{memory_store}
use agentic_crew.Store.Memory.Laws.{memory_store-IsStore}
use agentic_crew.Runtime.{AgentHandle, AgentSpec, AgentStatus, plain_status, is_over, is_wanted}
use agentic_crew.Runtime.Fake.{Fake, fake_runtime}
use agentic_crew.Runtime.Fake.Laws.{fake_runtime-IsRuntime}
use agentic_crew.Runtime.Fake.Live.{Known}
use agentic_crew.Runtime.Fake.Names.{number_of}
use agentic_crew.Prelude.Numerals.{read_digits}
use agentic_crew.Bus.{list_bus, list_bus-IsBus}
use agentic_crew.Service.World.{Host}
use agentic_crew.Service.Steps.{Ports, Crew, IsSound, find, active, live}
use agentic_crew.Service.Spawn.{census_of, spec_of}
use agentic_crew.Service.Ceilings.{WithinGlobal, WithinProject}

abbrev pub ports : Ports
ports = record {
  st = memory_store;
  rt = fake_runtime;
  bus = list_bus;
  is_store = memory_store-IsStore.0;
  is_runtime = fake_runtime-IsRuntime.0;
  is_bus = list_bus-IsBus;
}

abbrev pub host : Host
host = record { clock = λ n. 1000 + n; token_hex = show_nat; max_project_tokens = 500 }

abbrev pub site : Project
site = record {
  id = "proj-1";
  name = "Site";
  status = ProjectStatus.running;
  created_at = 7;
  renamed_at = none;
}

abbrev pub busy : Fake
busy = record {
  counter = 2;
  launched = spec_of backend_engineer "proj-1" "build" ∷ [];
  states = ("backend_engineer-1", plain_status agentic_crew.Runtime.running) ∷ [];
  specs = ("backend_engineer-1", spec_of backend_engineer "proj-1" "build") ∷ [];
  texts = [];
}

abbrev pub crew : Crew ports
crew = record {
  store = record { projects = ("proj-1", site) ∷ []; events = [] };
  runtime = busy;
  events = [];
  spend = ("proj-1", pos 400) ∷ [];
  stopped = [];
  reads = 0;
}

-- Nothing has been opened yet.
abbrev pub idle : Crew ports
idle = record {
  store = record { projects = []; events = [] };
  runtime = agentic_crew.Runtime.Fake.empty;
  events = [];
  spend = [];
  stopped = [];
  reads = 0;
}

pub busy-Known : Known busy.states busy.counter busy.specs
unfolding lookup number_of read_digits
busy-Known = (refl, omega arith, (plain_status agentic_crew.Runtime.running, refl), tt)

pub crew-IsSound : IsSound ports crew
unfolding lookup
crew-IsSound =
    (memory_store-IsStore.1 crew.store (refl, refl, tt), fake_runtime-IsRuntime.1 busy busy-Known)

pub idle-IsSound : IsSound ports idle
idle-IsSound = (memory_store-IsStore.1 idle.store tt, fake_runtime-IsRuntime.1 idle.runtime tt)

pub crew-find : find ports crew "proj-1" ≡ some site
unfolding lookup
crew-find = memory_store-IsStore.2 crew.store "proj-1"

abbrev pub builder : AgentHandle
builder = record {
  id = "backend_engineer-1";
  name = "backend_engineer-1";
  role = backend_engineer;
  project_id = "proj-1";
}

pub crew-live : live ports crew ≡ builder ∷ []
unfolding lookup is_over
crew-live = fake_runtime-IsRuntime.2 busy

pub idle-live : live ports idle ≡ []
idle-live = fake_runtime-IsRuntime.2 idle.runtime

pub idle-active : active ports idle ≡ 0
idle-active = memory_store-IsStore.3 idle.store

-- What the caps are told, where the agents alive are the given ones.
abbrev pub told : AgentRole → String → List AgentHandle → Census
told role id hs = record {
  role = role;
  in_project = length (keep (is_wanted role (some id)) hs);
  everywhere = length (keep (is_wanted role none) hs);
}

pub builder-WithinGlobal : WithinGlobal (builder ∷ [])
unfolding same_role global_limit
builder-WithinGlobal role = ground arith

pub builder-WithinProject : WithinProject (builder ∷ [])
unfolding same_role per_project_limit
builder-WithinProject role id = ground arith

abbrev pub full : Refusal
full = project_full (record { role = backend_engineer; in_project = 1; everywhere = 1 })

pub crew-full : check_spawn (census_of ports crew backend_engineer "proj-1") false ≡ some full
unfolding check_spawn per_project_limit global_limit same_role
crew-full = ap (λ hs. check_spawn (told backend_engineer "proj-1" hs) false) crew-live
