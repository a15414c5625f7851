-- ===== src/Permissions/Policy/Permitted.antt =====
-- The permitted set of `build_policy` of policy.py, against a description by membership.
use carve.Common.{
  String, Bool, true, false, Option, none, some, List, [], ◌∷◌, ◌≡◌, refl, arith, ◌||◌, ◌&&◌, not,
  ◌==◌, contains, string_eq,
}
use carve.Common.Names.{contains-without, contains-both, name_laws}
use carve.Permissions.Modes.{PermissionMode, build, mode_permits}
use carve.Permissions.Policy.{
  McpToolSpec, AgentPolicy, PermissionsConfig, wildcard_admits, grant_admits,
  mcp_permitted_for_mode, permitted_tools_for_mode, drop_denied, narrow, admit, build_policy,
}

-- A registered tool of this name that the mode permits: a reader always, a writer from `build` up.
abbrev pub registered : PermissionMode → List McpToolSpec → String → Bool
registered mode [] name = false
registered mode (spec ∷ specs) name =
    (name == spec.name && (not spec.writes || mode_permits mode build))
    || registered mode specs name

abbrev pub registered_writer : List McpToolSpec → String → Bool
registered_writer [] name = false
registered_writer (spec ∷ specs) name =
    (name == spec.name && spec.writes) || registered_writer specs name

abbrev pub denied : Option PermissionsConfig → String → Bool
denied none name = false
denied (some c) name = contains c.denied_tools name

abbrev pub granted : Option AgentPolicy → String → Bool
granted none name = true
granted (some a) name = contains a.tools name

-- The grant names the tool, or has the wildcard of its server.
abbrev pub granted_mcp : Option AgentPolicy → String → Bool
granted_mcp none name = true
granted_mcp (some a) name = contains a.tools name || wildcard_admits a.tools name

abbrev pub registered_in : Option (List McpToolSpec) → PermissionMode → String → Bool
registered_in none mode name = false
registered_in (some specs) mode name = registered mode specs name

contains-mcp_permitted :
    (mode : PermissionMode) (specs : List McpToolSpec) (name : String)
    → (contains (mcp_permitted_for_mode mode specs).0 name ≡ registered mode specs name)
      × (contains (mcp_permitted_for_mode mode specs).1 name
          ≡ (registered_writer specs name && mode_permits mode build))
unfolding mcp_permitted_for_mode
contains-mcp_permitted mode [] name = (refl, refl)
contains-mcp_permitted mode (spec ∷ specs) name =
    let (p, q) = contains-mcp_permitted mode specs name in (ground arith, ground arith)

contains-grant_admits :
    (names grant : List String) (name : String)
    → contains (grant_admits names grant) name
      ≡ (contains names name && (contains grant name || wildcard_admits grant name))
unfolding grant_admits
contains-grant_admits [] grant name = refl
contains-grant_admits (n ∷ names) grant name =
    ground (arith, contains-grant_admits names grant name)

contains-drop_denied :
    (config : Option PermissionsConfig) (names : List String) (name : String)
    → contains (drop_denied config names) name ≡ (contains names name && not (denied config name))
unfolding drop_denied
contains-drop_denied none names name = ground arith
contains-drop_denied (some c) names name = contains-without names c.denied_tools name

contains-narrow :
    (agent : Option AgentPolicy) (names : List String) (name : String)
    → contains (narrow agent names) name ≡ (contains names name && granted agent name)
unfolding narrow
contains-narrow none names name = ground arith
contains-narrow (some a) names name = contains-both names a.tools name

contains-admit :
    (agent : Option AgentPolicy) (names : List String) (name : String)
    → contains (admit agent names) name ≡ (contains names name && granted_mcp agent name)
unfolding admit
contains-admit none names name = ground arith
contains-admit (some a) names name = contains-grant_admits names a.tools name

ruleset membership = (name_laws, contains-drop_denied, contains-narrow, contains-admit)

module _ (resolve : String → String) (mode : PermissionMode) (agent : Option AgentPolicy)
    (config : Option PermissionsConfig) where
  -- A tool is permitted exactly when the configuration does not deny it, and it is of the mode's
  -- floor and in the agent's grant, or a registered MCP tool that the mode permits and the grant
  -- admits by its name or by its server's wildcard.
  pub permitted-build_policy :
      (mcp_tools : Option (List McpToolSpec)) (name : String)
      → contains (build_policy resolve mode agent config mcp_tools).permitted_tools name ≡ (
          not (denied config name)
          && ((contains (permitted_tools_for_mode mode) name && granted agent name)
              || (registered_in mcp_tools mode name && granted_mcp agent name)))
  unfolding build_policy
  permitted-build_policy none name = simp membership (ground arith)
  permitted-build_policy (some specs) name =
      simp membership (rw (contains-mcp_permitted mode specs name).0 (ground arith))

  -- A tool is held for approval exactly when the configuration does not deny it, it is registered as
  -- a writing MCP tool, the mode is at least `build`, and the grant admits it.
  pub prompt-build_policy :
      (specs : List McpToolSpec) (name : String)
      → contains (build_policy resolve mode agent config (some specs)).mcp_prompt_tools name ≡ (
          not (denied config name)
          && registered_writer specs name
          && mode_permits mode build
          && granted_mcp agent name)
  unfolding build_policy
  prompt-build_policy specs name =
      simp membership (rw (contains-mcp_permitted mode specs name).1 (ground arith))
