-- ===== src/Service/Interleaved/Races.antt =====
-- Two requests that both count the agents before either launches.
use agentic_crew.Prelude.{◌≡◌, ap, ◌∙◌, some, [], ◌∷◌, ◌++◌, append_assoc}
use agentic_crew.Caps.Bounds.{HasRoom}
use agentic_crew.Project.{Project}
use agentic_crew.Runtime.{AgentHandle}
use agentic_crew.Service.World.{Host}
use agentic_crew.Service.Steps.{Ports, Crew, IsSound, find, live}
use agentic_crew.Service.Spawn.{census_of}
use agentic_crew.Service.Interleaved.{Request, requires, launches, announces, Process, Turns}
use agentic_crew.Service.Interleaved.Progress.{
  Turns-append, Turns-to, run_alone-launches, launch_lem,
}

module _ (ports : Ports) (host : Host) where
  open ports use {st, rt, bus, is_store, is_runtime, is_bus}

  -- Two calls of spawn that both find room when they count both launch, where their counts come
  -- before either launch: two agents more are alive, also where there was one place left.
  pub both_launch :
      (a b : Request) (p q : Project) (w : Crew ports)
      → IsSound ports w
      → find ports w a.project_id ≡ some p
      → find ports w b.project_id ≡ some q
      → HasRoom (census_of ports w a.role a.project_id) a.override
      → HasRoom (census_of ports w b.role b.project_id) b.override
      → (u : Process ports host) × (h k : AgentHandle) × Turns ports host 2
          (record { world = w; tasks = requires a ∷ requires b ∷ [] })
          u
        × (h.role ≡ a.role)
        × (k.role ≡ b.role)
        × (live ports u.world ≡ live ports w ++ h ∷ k ∷ [])
  both_launch a b p q w sound here there room_a room_b =
      let (h, w1, first, sound1, role_h, live1, kept) = launch_lem ports host a p w sound in
      let (k, w2, second, sound2, role_k, live2, kept2) = launch_lem ports host b q w1 sound1 in
      (
        record { world = w2; tasks = announces a p h ∷ announces b q k ∷ [] },
        h,
        k,
        Turns-append ports host
            (Turns-to ports host 2 3 [] (requires b ∷ []) (requires a) w
              (run_alone-launches ports host a p w sound here room_a))
            (Turns-append ports host
              (Turns-to ports host 2 3 (launches a p ∷ []) [] (requires b) w
                (run_alone-launches ports host b q w sound there room_b))
              (Turns-append ports host
                (Turns-to ports host 2 1 [] (launches b q ∷ []) (launches a p) w first)
                (Turns-to ports host 2 1 (announces a p h ∷ []) [] (launches b q) w1 second))),
        role_h,
        role_k,
        live2 ∙ ap (λ hs. hs ++ k ∷ []) live1 ∙ append_assoc (live ports w) (h ∷ []) (k ∷ []),
      )
