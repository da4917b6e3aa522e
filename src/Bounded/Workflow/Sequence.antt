-- ===== src/Bounded/Workflow/Sequence.antt =====
-- Any number of calls of `execute`, one after another, each with its own resolver, decision and
-- time: what they do to the destination together.
use cognous_agent_control_pl.Base.{
  ℕ, ◌≤◌, String, some, List, [], ◌∷◌, ◌≡◌, arith, eq_iff, get, get-put, All, inl, inr,
}
use cognous_agent_control_pl.Bounded.Models.{AuthorizationBinding}
use cognous_agent_control_pl.Bounded.Documents.{Platform, Resolver}
use cognous_agent_control_pl.Bounded.Destination.{
  ApplyCall, Effect, effect_of, DestinationFile, commit,
}
use cognous_agent_control_pl.Bounded.Destination.Laws.{
  IsConsistent, FileIsConsistent, committed, effects_of, effects_of-commit,
}
use cognous_agent_control_pl.Bounded.Destination.Once.{effect_at}
use cognous_agent_control_pl.Bounded.World.{World, Config}
use cognous_agent_control_pl.Bounded.Decisions.{ExecuteCall, apply_call}
use cognous_agent_control_pl.Bounded.Workflow.{execute}
use cognous_agent_control_pl.Bounded.Workflow.Dispatch.{Committed}
use cognous_agent_control_pl.Bounded.Workflow.Execute.{execute-IsEffected, execute-FileIsConsistent}

-- What a commit adds to a grant, which is nothing once the grant is at the limit of the call.
Committed-cap :
    (a : ApplyCall) (g : String) (m : ℕ) (before after : DestinationFile)
    → Committed a before after
    → FileIsConsistent before
    → (a.grant_id ≡ g → a.max_effects ≤ m)
    → committed g before ≤ m
    → committed g after ≤ m
unfolding committed
Committed-cap a g m before after k v cap h =
    let v' : IsConsistent k.state = rw k.was at v in
    let h' : effects_of g k.state.effects ≤ m = rw k.was at h in
    rw (k.becomes, effects_of-commit a k.state g k.unseen)
      (ground (arith, eq_iff g a.grant_id, v'.counted a.grant_id, v'.counted g, k.room))

-- A commit keeps what is committed under another identity, and finds none under its own.
Committed-keeps :
    (a : ApplyCall) (k : String) (e : Effect) (before after : DestinationFile)
    → Committed a before after
    → effect_at k before ≡ some e
    → effect_at k after ≡ some e
unfolding effect_at commit
Committed-keeps a k e before after done h =
    let h' : get k done.state.effects ≡ some e = rw done.was at h in
    rw (done.becomes, get-put a.effect_id k (effect_of a) done.state.effects)
      (ground (arith, eq_iff k a.effect_id, done.unseen))

module _ (p : Platform) (cfg : Config) where
  unfoldable pub execute_all : List (Resolver × ExecuteCall) → World → World
  unfolding execute
  execute_all [] w = w
  execute_all ((r, c) ∷ cs) w = execute_all cs (execute p cfg r c w).1

  -- The binding of the decision allows the grant at most `m` effects.
  abbrev pub IsLimited : String → ℕ → Resolver × ExecuteCall → Type 0
  IsLimited g m (r, c) =
      (b : AuthorizationBinding)
      → c.decision.binding ≡ some b
      → b.grant_id ≡ g
      → b.effective_max_effects ≤ m

  execute-cap :
      (g : String) (m : ℕ) (r : Resolver) (c : ExecuteCall) (w : World)
      → FileIsConsistent w.destination
      → IsLimited g m (r, c)
      → committed g w.destination ≤ m
      → committed g (execute p cfg r c w).1.destination ≤ m
  execute-cap g m r c w v limited h = elim (execute-IsEffected p cfg r c w) [
    | inl kept ↦ rw kept h
    | inr done ↦
        Committed-cap (apply_call c c.decision done.binding) g m w.destination _ done.committed v
          (unfold apply_call in limited done.binding done.of_decision) h
  ]

  execute-keeps :
      (k : String) (e : Effect) (r : Resolver) (c : ExecuteCall) (w : World)
      → effect_at k w.destination ≡ some e
      → effect_at k (execute p cfg r c w).1.destination ≡ some e
  execute-keeps k e r c w h = elim (execute-IsEffected p cfg r c w) [
    | inl kept ↦ rw kept h
    | inr done ↦
        Committed-keeps (apply_call c c.decision done.binding) k e w.destination _ done.committed h
  ]

  -- If the bindings of the decisions allow a grant at most `m` effects, no sequence of executions, with
  -- any resolvers, times and outcomes, brings a consistent destination with at most `m` effects of the
  -- grant above `m`.
  pub execute_all-cap :
      (g : String) (m : ℕ) (cs : List (Resolver × ExecuteCall)) (w : World)
      → FileIsConsistent w.destination
      → All (IsLimited g m) cs
      → committed g w.destination ≤ m
      → committed g (execute_all cs w).destination ≤ m
  unfolding execute_all
  execute_all-cap g m [] w v limited h = h
  execute_all-cap g m ((r, c) ∷ cs) w v (here, later) h =
      execute_all-cap g m cs (execute p cfg r c w).1 (execute-FileIsConsistent p cfg r c w v) later
        (execute-cap g m r c w v here h)

  -- An effect that is committed stays as it is under any sequence of executions.
  pub execute_all-keeps :
      (k : String) (e : Effect) (cs : List (Resolver × ExecuteCall)) (w : World)
      → effect_at k w.destination ≡ some e
      → effect_at k (execute_all cs w).destination ≡ some e
  unfolding execute_all
  execute_all-keeps k e [] w h = h
  execute_all-keeps k e ((r, c) ∷ cs) w h =
      execute_all-keeps k e cs (execute p cfg r c w).1 (execute-keeps k e r c w h)
