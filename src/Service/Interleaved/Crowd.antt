-- ===== src/Service/Interleaved/Crowd.antt =====
-- How far requests that interleave can take the live agents of a role past its cluster-wide limit.
use agentic_crew.Service.Calls.{Call, step, is_permitted_all}
use agentic_crew.Service.Ceilings.{WithinGlobal}
use agentic_crew.Prelude.{
  suc, ℕ, ◌+◌, ◌-◌, ◌≤◌, ◌<◌, Bool, true, ◌≡◌, sym, ap, subst, ◌∙◌, none, List, [], ◌∷◌, ◌++◌,
  length, keep, arith, inl, inr, Bool-cases, length-append, keep-append, length-keep-snoc,
  length-keep-le, length-keep-keep-le,
}
use agentic_crew.Caps.{engineering_manager, AgentRole, global_limit}
use agentic_crew.Runtime.{is_wanted, is_wanted-role}
use agentic_crew.Service.World.{Host}
use agentic_crew.Service.Steps.{Ports, Crew, IsSound, live}
use agentic_crew.Service.Steady.{Holds}
use agentic_crew.Service.Kept.{IsKept}
use agentic_crew.Service.KeptCalls.{step-Holds}
use agentic_crew.Service.Interleaved.{
  Task, ended, advance, Process, Turn, opens, spawns, moves, leaves, calls, agents_end, Turns, stop,
  further,
}
use agentic_crew.Service.Interleaved.Starts.{starts, one_if}
use agentic_crew.Service.Interleaved.Launching.{count, advance-count}

module _ (ports : Ports) (host : Host) where
  open ports use {st, rt, bus, is_store, is_runtime, is_bus}

  pub record WithinCrowd (crowd : ℕ) (s : Process ports host) : Type 0 where
    pub sound : IsSound ports s.world
    pub few : length s.tasks ≤ crowd
    pub within :
        (role : AgentRole)
        → count ports host role s.world + length (keep (starts role) s.tasks)
          ≤ global_limit role + (crowd - 1)

  length-keep-middle :
      (q : Task → Bool) (before after : List Task) (t : Task)
      → length (keep q (before ++ t ∷ after))
        ≡ one_if (q t) + (length (keep q before) + length (keep q after))
  length-keep-middle q [] after t = ground arith
  length-keep-middle q (u ∷ before) after t = ground (arith, length-keep-middle q before after t)

  length-middle :
      (before after : List Task) (t : Task)
      → length (before ++ t ∷ after) ≡ suc (length before + length after)
  length-middle before after t = length-append before (t ∷ after) ∙ (omega arith)

  -- A call that no other interrupts may launch as well: it is one more call in progress.
  IsKept-crowd :
      (role : AgentRole) (launching crowd : ℕ)
      → launching < crowd
      → IsKept ports true (λ hs.
        length (keep (is_wanted role none) hs) + launching ≤ global_limit role + (crowd - 1))
  IsKept-crowd role launching crowd few = record {
    fewer = λ stays hs k. omega (arith, k, length-keep-keep-le (is_wanted role none) stays hs);
    one_more = λ w asked id override h may room same_r same_p k.
        elim (Bool-cases (is_wanted role none h)) [
          | inr other ↦ ground (arith, length-keep-snoc (is_wanted role none) (live ports w) h)
          | inl wanted ↦
              let found =
                subst (λ a. count ports host a w < global_limit a)
                  (sym same_r ∙ is_wanted-role role none h wanted) room.1 in
              ground (arith, length-keep-snoc (is_wanted role none) (live ports w) h)
        ];
  }

  module _ {crowd : ℕ} {s : Process ports host} (k : WithinCrowd crowd s) where
    call-WithinCrowd :
        (c : Call)
        → length s.tasks < crowd
        → WithinCrowd crowd (record s { world = step ports host c s.world })
    call-WithinCrowd c room = record {
      sound = (held engineering_manager).0;
      few = k.few;
      within = λ role. (held role).1;
    }
      where
        launching : AgentRole → ℕ
        launching role = length (keep (starts role) s.tasks)

        held :
            (role : AgentRole)
            → Holds ports
                (λ hs.
                  length (keep (is_wanted role none) hs) + launching role
                  ≤ global_limit role + (crowd - 1))
                (step ports host c s.world)
        held role =
            step-Holds ports host true _
              (IsKept-crowd role (launching role) crowd
                (omega (arith, length-keep-le (starts role) s.tasks)))
              c s.world (is_permitted_all c) (k.sound, k.within role)

    move-WithinCrowd :
        (before after : List Task) (t : Task)
        → s.tasks ≡ before ++ t ∷ after
        → WithinCrowd crowd (record s {
          world = (advance host t s.world).1;
          tasks = before ++ (advance host t s.world).0 ∷ after;
        })
    move-WithinCrowd before after t e = record {
      sound = (moved engineering_manager).0;
      few = omega (
        arith,
        k.few,
        ap length e,
        length-middle before after t,
        length-middle before after (advance host t s.world).0,
      );
      within = λ role. omega (
        arith,
        (moved role).1,
        length-keep-middle (starts role) before after (advance host t s.world).0,
      );
    }
      where
        others : AgentRole → ℕ
        others role = length (keep (starts role) before) + length (keep (starts role) after)

        moved :
            (role : AgentRole)
            → IsSound ports (advance host t s.world).1
              × (count ports host role (advance host t s.world).1
                    + one_if (starts role (advance host t s.world).0)
                    + others role
                  ≤ global_limit role + (crowd - 1))
        moved role =
            advance-count ports host role t s.world (others role) crowd k.sound
              (omega (
                arith,
                k.few,
                ap length e,
                length-middle before after t,
                length-keep-le (starts role) before,
                length-keep-le (starts role) after,
              ))
              (omega (
                arith,
                k.within role,
                ap (λ ts. length (keep (starts role) ts)) e,
                length-keep-middle (starts role) before after t,
              ))

  Turn-WithinCrowd :
      {crowd : ℕ} {s u : Process ports host}
      → Turn ports host crowd s u
      → WithinCrowd crowd s
      → WithinCrowd crowd u
  Turn-WithinCrowd (opens text room) k = record {
    sound = k.sound;
    few = omega arith;
    within = λ role. k.within role;
  }
  Turn-WithinCrowd (spawns r room) k = record {
    sound = k.sound;
    few = omega arith;
    within = λ role. k.within role;
  }
  Turn-WithinCrowd (moves before after t e) k = move-WithinCrowd k before after t e
  Turn-WithinCrowd (leaves before after r e) k = record {
    sound = k.sound;
    few = omega (
      arith,
      k.few,
      ap length e,
      length-middle before after (ended r),
      length-append before after,
    );
    within = λ role. omega (
      arith,
      k.within role,
      ap (λ ts. length (keep (starts role) ts)) e,
      length-keep-middle (starts role) before after (ended r),
      ap length (keep-append (starts role) before after),
      length-append (keep (starts role) before) (keep (starts role) after),
    );
  }
  Turn-WithinCrowd (calls c room) k = call-WithinCrowd k c room
  Turn-WithinCrowd (agents_end runtime stays sound left) k = record {
    sound = (k.sound.0, sound);
    few = k.few;
    within = λ role. omega (
      arith,
      k.within role,
      ap (λ hs. length (keep (is_wanted role none) hs)) left,
      length-keep-keep-le (is_wanted role none) stays (live ports _),
    );
  }

  Turns-WithinCrowd :
      {crowd : ℕ} {s u : Process ports host}
      → Turns ports host crowd s u
      → WithinCrowd crowd s
      → WithinCrowd crowd u
  Turns-WithinCrowd stop k = k
  Turns-WithinCrowd (further turns turn) k = Turn-WithinCrowd turn (Turns-WithinCrowd turns k)

  -- Start with no call in progress and with no role above its cluster-wide limit. However the calls
  -- interleave at their awaits, where no more than `crowd` are in progress at once, no role ever has
  -- more than `crowd - 1` live agents above its limit; calls that come one at a time keep the limit.
  pub Turns-count :
      (crowd : ℕ) (w : Crew ports) (u : Process ports host) (role : AgentRole)
      → IsSound ports w
      → WithinGlobal (live ports w)
      → Turns ports host crowd (record { world = w; tasks = [] }) u
      → count ports host role u.world ≤ global_limit role + (crowd - 1)
  Turns-count crowd w u role sound within turns = omega (
    arith,
    (Turns-WithinCrowd turns (record {
      sound = sound;
      few = omega arith;
      within = λ r. omega (arith, within r);
    })).within
        role,
  )
