-- ===== src/Agents/Registry/Offered.antt =====
-- What is offered to a model is what it would be granted.
use ai_planed_map.Prelude.{
  ◌≡◌, refl, inl, inr, String, Bool, true, false, ◌&&◌, Option, none, some, List, [], ◌∷◌, elem,
  arith, Bool-cases, Option-cases, ◌==◌, string_eq, ◌∙◌,
}
use ai_planed_map.Prelude.Dict.{Dict, get, put, IsDistinct, put-IsDistinct}
use ai_planed_map.Agents.Registry.{
  AgentType, InvocationMode, DataScope, AgentCapability, Authorization, granted, denied,
  capabilities, by_name, find_capability, names_in, usable_by, names_for, same_scopes,
  data_scope_eq, mode_eq, agent_eq, authorize, authorize_registered,
}
use ai_planed_map.Agents.Runtime.{scopes_of}
use ai_planed_map.Agents.Registry.Grants.{found_holds}

-- What `get` gives, tested.
abbrev holds_at : (AgentCapability → Bool) → Option AgentCapability → Bool
holds_at test none = false
holds_at test (some c) = test c

-- Every capability is kept under its own name.
abbrev is_keyed : Dict String AgentCapability → Bool
is_keyed [] = true
is_keyed ((name, item) ∷ items) = (item.name == name) && is_keyed items

elem-names_in :
    (test : AgentCapability → Bool) (name : String) (d : Dict String AgentCapability)
    → is_keyed d ≡ true
    → IsDistinct d
    → elem name (names_in test d) ≡ holds_at test (get name d)
elem-names_in test name [] keyed u = refl
elem-names_in test name ((k, item) ∷ d) keyed u = ground (
  arith,
  elem-names_in test name d,
  string_eq.beq_iff item.name k,
  string_eq.beq_iff k name,
  string_eq.beq_iff item.name name,
  string_eq.beq_iff name item.name,
)

abbrev pub is_granted : Authorization → Bool
is_granted (denied reason) = false
is_granted (granted c) = true

-- A set of scopes that is compared with itself.
found_same :
    (name : String) (c : AgentCapability)
    → find_capability name ≡ some c
    → same_scopes c.data_scopes c.data_scopes ≡ true
unfolding find_capability capabilities
found_same name c e =
    found_holds (λ c. same_scopes c.data_scopes c.data_scopes) name capabilities [] c refl (λ h. cc)
      e

by_name-IsDistinct :
    (items : List AgentCapability) (found : Dict String AgentCapability)
    → IsDistinct found
    → IsDistinct (by_name found items)
by_name-IsDistinct [] found u = u
by_name-IsDistinct (item ∷ items) found u =
    by_name-IsDistinct items (put item.name item found) (put-IsDistinct item.name item found u)

elem-names_for :
    (agent : AgentType) (mode : InvocationMode) (name : String)
    → elem name (names_for agent mode) ≡ holds_at (usable_by agent mode) (find_capability name)
unfolding names_for find_capability capabilities
elem-names_for agent mode name =
    elem-names_in (usable_by agent mode) name (by_name [] capabilities) refl
      (by_name-IsDistinct capabilities [] tt)

usable_granted :
    (agent : AgentType) (mode : InvocationMode) (requested : List DataScope) (c : AgentCapability)
    → same_scopes requested c.data_scopes ≡ true
    → usable_by agent mode c ≡ is_granted (authorize_registered agent mode requested c)
unfolding authorize_registered
usable_granted agent mode requested c scopes = elim (Bool-cases (elem agent c.agents)) [
  | inl owner ↦ elim (Bool-cases (c.invocation_mode == mode)) [
    | inl right ↦ rw (owner, right, authorize_registered, scopes) refl
    | inr wrong ↦ rw (owner, wrong) refl
  ]
  | inr stranger ↦ rw stranger refl
]

-- The names that the registry lists for an agent and a mode are exactly those that it authorizes the
-- agent to use in that mode, asked for with the scopes of the capability; no name is listed that
-- would be denied, and none left out that would be granted.
pub listed_granted :
    (agent : AgentType) (mode : InvocationMode) (name : String)
    → elem name (names_for agent mode)
      ≡ is_granted (authorize agent name mode (scopes_of (find_capability name)))
unfolding authorize authorize_registered
listed_granted agent mode name = elim (Option-cases (find_capability name)) [
  | inl absent ↦ elem-names_for agent mode name ∙ rw (authorize, absent) refl
  | inr (c, found) ↦
      let scopes : same_scopes (scopes_of (find_capability name)) c.data_scopes ≡ true =
        rw found (found_same name c found) in
      elem-names_for agent mode name ∙ rw (authorize, found) (usable_granted agent mode _ c scopes)
]
