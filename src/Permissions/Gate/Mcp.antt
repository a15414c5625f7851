-- ===== src/Permissions/Gate/Mcp.antt =====
-- Writing MCP tools at the gate (src/carve/core/agents/permissions/gate.py), under a policy that
-- `build_policy` made.
use carve.Common.{
  String, true, false, Option, none, some, List, [], ◌∷◌, ◌≡◌, refl, ◌≢◌, arith, not, contains,
  string_eq, inl, inr, Bool-cases,
}
use carve.Common.Text.{starts_with}
use carve.Common.Names.{all_names, all_names_sound}
use carve.Permissions.Modes.{PermissionMode, read_only, plan, build, deploy, mode_permits}
use carve.Permissions.Policy.{
  McpToolSpec, AgentPolicy, PermissionsConfig, mcp_tool_prefix, permitted_tools_for_mode,
  build_policy, tool_permitted, mcp_requires_prompt,
}
use carve.Permissions.Policy.Permitted.{
  registered, registered_writer, permitted-build_policy, prompt-build_policy,
}
use carve.Permissions.Policy.Floor.{
  IsNamespaced, registered-starts_with, all_tools_not_mcp, permitted_tools_mono,
}
use carve.Permissions.Gate.{ToolInput, allow, terminator_tools, check}
use carve.Permissions.Gate.Clamp.{check-allow, check-allow_alone}

-- A name that writers register and no reader does.
abbrev pub IsWriter : List McpToolSpec → String → Type 0
IsWriter specs name =
    (registered_writer specs name ≡ true) × (registered read_only specs name ≡ false)

writer-registered :
    (specs : List McpToolSpec) (name : String)
    → registered_writer specs name ≡ true
    → registered deploy specs name ≡ true
unfolding mode_permits
writer-registered [] name h = cc
writer-registered (spec ∷ specs) name h = ground (arith, writer-registered specs name)

writer-below_build :
    (mode : PermissionMode) (specs : List McpToolSpec) (name : String)
    → registered read_only specs name ≡ false
    → registered mode specs name ≡ true
    → mode_permits mode build ≡ true
unfolding mode_permits
writer-below_build mode [] name h r = cc
writer-below_build mode (spec ∷ specs) name h r = ground (arith, writer-below_build mode specs name)

floor_not_mcp :
    (mode : PermissionMode) (name : String)
    → starts_with name mcp_tool_prefix ≡ true
    → contains (permitted_tools_for_mode mode) name ≡ false
unfolding permitted_tools_for_mode
floor_not_mcp mode name s = ground (
  arith,
  permitted_tools_mono mode deploy name (
      unfold mode_permits in
      elim mode as (λ m. mode_permits deploy m ≡ true) [
        | read_only ↦ refl
        | plan ↦ refl
        | build ↦ refl
        | deploy ↦ refl
      ]),
  all_tools_not_mcp name,
)

terminator_not_mcp :
    (name : String)
    → starts_with name mcp_tool_prefix ≡ true
    → contains terminator_tools name ≡ false
unfolding all_names
terminator_not_mcp name s = elim (Bool-cases (contains terminator_tools name)) [
  | inr n ↦ n
  | inl y ↦ absurd (
      ground (
        arith,
        all_names_sound (λ x. not (starts_with x mcp_tool_prefix)) terminator_tools name refl y,
      ))
]

bash_not_mcp : (name : String) → starts_with name mcp_tool_prefix ≡ true → name ≢ "bash"
bash_not_mcp name s e = cc (rw e at s)

module _ (resolve : String → String) (mode : PermissionMode) (agent : Option AgentPolicy)
    (config : Option PermissionsConfig) (specs : List McpToolSpec) where
  -- A writing MCP tool never runs unattended: in no mode, under no grant and no configuration does
  -- the gate allow a call of it when no approver is registered.
  pub mcp_writer_held :
      (name : String) (tool_input : ToolInput)
      → IsNamespaced (some specs)
      → IsWriter specs name
      → check (build_policy resolve mode agent config (some specs)) name tool_input none ≢ allow
  unfolding tool_permitted mcp_requires_prompt
  mcp_writer_held name tool_input n w h =
      let policy = build_policy resolve mode agent config (some specs) in
      let s = registered-starts_with deploy specs name n (writer-registered specs name w.0) in
      ground (
        arith,
        check-allow policy name tool_input none h,
        check-allow_alone policy name tool_input (terminator_not_mcp name s) h,
        bash_not_mcp name s,
        terminator_not_mcp name s,
        floor_not_mcp mode name s,
        permitted-build_policy resolve mode agent config (some specs) name,
        prompt-build_policy resolve mode agent config specs name,
        writer-below_build mode specs name w.1,
      )
