-- ===== src/Permissions/Policy/Tighten.antt =====
-- `build_policy` of src/carve/core/agents/permissions/policy.py in two modes, with and without MCP
-- registration.
use carve.Common.{
  String, Bool, true, false, Option, none, ◌≡◌, refl, arith, ◌&&◌, not, ◌==◌, contains, string_eq,
}
use carve.Common.Text.{starts_with}
use carve.Common.Names.{all_names, all_names_sound}
use carve.Permissions.Modes.{PermissionMode, read_only, plan, build, deploy, mode_permits}
use carve.Permissions.Tables.{write_tools}
use carve.Permissions.Policy.{
  AgentPolicy, PermissionsConfig, mcp_tool_prefix, permitted_tools_for_mode, build_policy,
}
use carve.Permissions.Policy.Permitted.{permitted-build_policy}
use carve.Permissions.Policy.Floor.{
  Specs, IsNamespaced, registered_in-starts_with, permitted_tools_mono, registered_in_mono,
  writes_on_floor,
}

abbrev permits :
    (String → String)
    → PermissionMode
    → Option AgentPolicy
    → Option PermissionsConfig
    → Specs
    → String
    → Bool
permits resolve mode agent config specs name =
    contains (build_policy resolve mode agent config specs).permitted_tools name

write_not_mcp :
    (name : String) → contains write_tools name ≡ true → starts_with name mcp_tool_prefix ≡ false
unfolding all_names
write_not_mcp name h =
    ground
      (arith, all_names_sound (λ x. not (starts_with x mcp_tool_prefix)) write_tools name refl h)

ddl_on_floor :
    (mode : PermissionMode)
    → contains (permitted_tools_for_mode mode) "run_snowflake_ddl" ≡ true
    → mode_permits mode deploy ≡ true
unfolding permitted_tools_for_mode mode_permits string_eq
ddl_on_floor read_only h = cc
ddl_on_floor plan h = cc
ddl_on_floor build h = cc
ddl_on_floor deploy h = refl

ddl_held :
    (mode : PermissionMode) (name : String)
    → contains (permitted_tools_for_mode mode) name ≡ true
    → (name == "run_snowflake_ddl" && not (mode_permits mode deploy)) ≡ false
ddl_held mode name floor = elim (string_eq.dec name "run_snowflake_ddl") [
  | yes e ↦ let top = ddl_on_floor mode (rw e at floor) in ground arith
  | no n ↦ ground arith
]

module _ (resolve : String → String) (agent : Option AgentPolicy)
    (config : Option PermissionsConfig) (specs : Specs) where
  -- Whatever tool an agent is permitted in a mode it is permitted in every wider one, under the
  -- same grant, configuration and MCP registration.
  pub permitted_mono :
      (narrow wide : PermissionMode) (name : String)
      → mode_permits wide narrow ≡ true
      → contains (build_policy resolve narrow agent config specs).permitted_tools name ≡ true
      → contains (build_policy resolve wide agent config specs).permitted_tools name ≡ true
  permitted_mono narrow wide name h m = ground (
    arith,
    permitted-build_policy resolve narrow agent config specs name,
    permitted-build_policy resolve wide agent config specs name,
    permitted_tools_mono narrow wide name h,
    registered_in_mono specs narrow wide name h,
  )

  -- With namespaced MCP tools, no grant and no configuration makes a write tool permitted below
  -- `build`, or the warehouse DDL tool permitted below `deploy`.
  pub write_tools-permitted :
      (mode : PermissionMode) (name : String)
      → IsNamespaced specs
      → contains write_tools name ≡ true
      → contains (build_policy resolve mode agent config specs).permitted_tools name ≡ true
      → (mode_permits mode build ≡ true)
        × ((name == "run_snowflake_ddl" && not (mode_permits mode deploy)) ≡ false)
  write_tools-permitted mode name n w m =
      let floor : contains (permitted_tools_for_mode mode) name ≡ true = ground (
        arith,
        permitted-build_policy resolve mode agent config specs name,
        registered_in-starts_with specs mode name n,
        write_not_mcp name w,
      ) in
      (writes_on_floor mode name w floor, ddl_held mode name floor)

  -- Registration of namespaced MCP tools changes the permission of no name outside the namespace.
  pub permitted_outside_mcp :
      (mode : PermissionMode) (name : String)
      → IsNamespaced specs
      → starts_with name mcp_tool_prefix ≡ false
      → contains (build_policy resolve mode agent config specs).permitted_tools name
        ≡ contains (build_policy resolve mode agent config none).permitted_tools name
  permitted_outside_mcp mode name n s = ground (
    arith,
    permitted-build_policy resolve mode agent config specs name,
    permitted-build_policy resolve mode agent config none name,
    registered_in-starts_with specs mode name n,
  )
