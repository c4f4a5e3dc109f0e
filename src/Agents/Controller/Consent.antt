-- ===== src/Agents/Controller/Consent.antt =====
-- What the Companion does on a trip is what its policy allows there.
use mathlib.Core.Option.{some-injective}
use ai_planed_map.Prelude.{
  ℕ, ◌≡◌, refl, inl, inr, String, Bool, true, false, none, if◌then◌else◌, not, ◌||◌, some, List, [],
  ◌∷◌, ◌==◌, Every, get_elem?, Every-get_elem?, length, drop, drop-append, elem, string_eq, arith,
  >>=-eq-some, Bool-cases, Option-cases, ◌&&◌, sym, ap, ◌∙◌,
}
use ai_planed_map.Trip.State.{
  TripState, active_trip, off_route, at_risk, replanning, completed, cancelled, trip_state_eq,
}
use ai_planed_map.Trip.Policy.{
  ConsentScope, precise_location, scope_eq, evaluate_tool_policy, over_allows_state_only,
  location_needs_consent,
}
use ai_planed_map.Agents.Registry.{AgentType, agent_eq}
use ai_planed_map.Agents.Runtime.{
  Json, StepStatus, RunStatus, Step, Settings, Ports, Request, AgentSpec,
}
use ai_planed_map.Agents.Runtime.Permitted.{Usable, Permitted, execute-Permitted}
use ai_planed_map.Agents.Runtime.Execute.{Result, execute}
use ai_planed_map.Agents.Decider.{Observations}
use ai_planed_map.Agents.Controller.{
  Visit, AgentSession, ToolCall, max_steps_valid, is_recorded, recorded, policy_evaluator, ports_of,
  request_of, committed, seen, opened, shared, run_once,
}

-- The precise location without the consent, or while the trip is not under way.
abbrev pub reads_location_freely : TripState → List ConsentScope → String → Bool
reads_location_freely state consents tool =
    (tool == "get_current_location")
    && not (
        elem state (active_trip ∷ off_route ∷ at_risk ∷ replanning ∷ [])
        && elem precise_location consents)

-- Anything but a look at the trip's state after the trip.
abbrev pub acts_when_over : TripState → String → Bool
acts_when_over state tool =
    elem state (completed ∷ cancelled ∷ []) && not (tool == "get_trip_state")

allowed_location :
    (state : TripState) (consents : List ConsentScope) (tool : String)
    → (evaluate_tool_policy tool state consents).0 ≡ true
    → reads_location_freely state consents tool ≡ false
allowed_location state consents tool ok = elim (Bool-cases (tool == "get_current_location")) [
  | inl location ↦
      let named : tool ≡ "get_current_location" =
        (string_eq.beq_iff tool "get_current_location").0 location in
      let allowed : (evaluate_tool_policy "get_current_location" state consents).0 ≡ true =
        rw named at ok in
      ground (arith, location_needs_consent state consents)
  | inr other ↦ rw other refl
]

allowed_over :
    (state : TripState) (consents : List ConsentScope) (tool : String)
    → (evaluate_tool_policy tool state consents).0 ≡ true
    → acts_when_over state tool ≡ false
allowed_over state consents tool ok = elim (Bool-cases (elem state (completed ∷ cancelled ∷ []))) [
  | inl over ↦
      let named = over_allows_state_only tool state consents over ok in rw (named, over) refl
  | inr running ↦ rw running refl
]

traced : {A : Type 0} (built : Bool) (x y : A) → (if built then some x else none) ≡ some y → x ≡ y
traced true x y e = some-injective x y e
traced false x y e = cc

module _ (j : Json) where
  -- The execution of a run that is committed, on the observation that was made.
  pub run_once-execute :
      (settings : Settings j) (spec : AgentSpec j) (reads : Observations j) (visit : Visit j)
      (session next : AgentSession j) (status : RunStatus)
      → run_once j settings spec reads visit session ≡ some (status, next)
      → (observation : j.Value) × (r : Result j) × (execute j settings
            (ports_of j reads (seen j observation visit))
            (request_of j spec (seen j observation visit) session)
          ≡ some r)
        × (r.status ≡ status)
        × (committed j r session ≡ next)
  unfolding run_once
  run_once-execute settings spec reads visit session next status e =
      elim (Bool-cases
        (not (spec.agent_type == AgentType.companion) || not (max_steps_valid visit.max_steps))) [
          | inl refused ↦ absurd (ground (arith, rw (run_once, refused) at e))
          | inr accepted ↦
              let (first, is_first, after_first) =
                >>=-eq-some (opened j visit) _ (rw (run_once, accepted) at e) in
              let ports = ports_of j reads (seen j first.1 visit) in
              let request = request_of j spec (seen j first.1 visit) session in
              let (r, is_run, after_run) =
                >>=-eq-some (execute j settings ports request) _ after_first in
              let (shown, is_shared, after_shared) =
                >>=-eq-some (shared j visit first.0 r) _ after_run in
              let done =
                traced (visit.persist_protocol_trace r) (r.status, committed j r session)
                  (status, next) after_shared in
              let same : (r.status, committed j r session) ≡ (status, next) = done in
              (
                first.1,
                r,
                is_run,
                ap (λ (x : RunStatus × AgentSession j). x.0) same,
                ap (λ (x : RunStatus × AgentSession j). x.1) same,
              )
        ]

  -- A recorded call at which the tool was called.
  abbrev pub reached_tool : ToolCall j → Bool
  reached_tool call = elim call.status [
    | StepStatus.succeeded ↦ true
    | StepStatus.failed ↦ true
    | _ ↦ false
  ]

  abbrev Obeys : Ports j → Request j → ToolCall j → Type 0
  Obeys ports request call =
      reached_tool call ≡ true
      → Usable ports.policy_evaluator request.spec.agent_type call.tool_name request.state

  recorded-Obeys :
      (ports : Ports j) (request : Request j) (steps : List (Step j))
      → Every (Permitted j ports request) steps
      → Every (Obeys ports request) (recorded j steps)
  recorded-Obeys ports request [] all = tt
  recorded-Obeys ports request (step ∷ steps) all =
      let rest = recorded-Obeys ports request steps all.1 in
      elim (Bool-cases (is_recorded j step)) [
        | inl kept ↦ elim (Option-cases step.tool) [
          | inl no_tool ↦ rw (kept, no_tool) rest
          | inr (tool, is_tool) ↦
              rw (kept, is_tool)
                (
                  λ reached.
                      let (name, same, usable) = all.0 reached in
                      let is_name : name ≡ tool = some-injective name tool (sym same ∙ is_tool) in
                      rw is_name at usable,
                  rest,
                )
        ]
        | inr passed ↦ rw passed rest
      ]

  -- What the policy says of a tool that it lets the Companion call without a confirmation.
  policy_of :
      (state : TripState) (consents : List ConsentScope) (tool request_state reason : String)
      → policy_evaluator state consents tool request_state ≡ (true, reason, false)
      → ((evaluate_tool_policy tool state consents).0 ≡ true)
        × ((evaluate_tool_policy tool state consents).2 ≡ false)
  unfolding policy_evaluator
  policy_of state consents tool request_state reason e =
      (ap (λ (x : Bool × String × Bool). x.0) e, ap (λ (x : Bool × String × Bool). x.2) e)

  -- A tool that `run_once` reached, by the row that it recorded of the call, is one that the policy
  -- allows in the state of the trip with the consents of the user, without a confirmation. So the
  -- precise location is only ever read with the user's consent and while the trip is under way, and
  -- once the trip is over nothing but its state is read; whatever the models decide.
  pub reached_with_consent :
      (settings : Settings j) (spec : AgentSpec j) (reads : Observations j) (visit : Visit j)
      (session next : AgentSession j) (status : RunStatus) (i : ℕ) (call : ToolCall j)
      → run_once j settings spec reads visit session ≡ some (status, next)
      → get_elem? (drop (length session.calls) next.calls) i ≡ some call
      → reached_tool call ≡ true
      → ((evaluate_tool_policy call.tool_name visit.state visit.consents).0 ≡ true)
        × ((evaluate_tool_policy call.tool_name visit.state visit.consents).2 ≡ false)
        × (reads_location_freely visit.state visit.consents call.tool_name ≡ false)
        × (acts_when_over visit.state call.tool_name ≡ false)
  unfolding committed ports_of
  reached_with_consent settings spec reads visit session next status i call e there reached =
      let (observation, r, is_run, shown, same) =
        run_once-execute settings spec reads visit session next status e in
      let ports = ports_of j reads (seen j observation visit) in
      let request = request_of j spec (seen j observation visit) session in
      let new : drop (length session.calls) next.calls ≡ recorded j r.steps =
        rw (← same) (drop-append session.calls (recorded j r.steps)) in
      let obeys : Obeys ports request call =
        Every-get_elem? (Obeys ports request) (recorded j r.steps) i call
          (recorded-Obeys ports request r.steps
            (execute-Permitted j settings ports request r is_run))
          (rw new at there) in
      let (companion, capability, (reason, allows)) = obeys reached in
      let (ok, unconfirmed) =
        policy_of visit.state visit.consents call.tool_name request.state reason allows in
      (
        ok,
        unconfirmed,
        allowed_location visit.state visit.consents call.tool_name ok,
        allowed_over visit.state visit.consents call.tool_name ok,
      )
