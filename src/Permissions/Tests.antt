-- ===== src/Permissions/Tests.antt =====
-- Small policies, tool calls and shell commands, and what the permission layer says of them.
use carve.Common.{
  ℕ, String, Bool, true, false, Option, none, some, List, [], ◌∷◌, ◌++◌, ◌≡◌, ◌≢◌, ◌↔◌, ◌⊎◌, inl,
  inr, refl, ap, not, ◌&&◌, ◌||◌, ◌==◌, contains, string_eq, nat_eq, if◌then◌else◌, arith,
}
use carve.Common.Text.{starts_with, is_blank, base_name, occurs_in, is_space}
use carve.Permissions.Modes.{build, deploy, mode_permits}
use carve.Permissions.Tables.{write_tools, always_deny, read_bash_allow, build_bash_allow}
use carve.Permissions.Policy.{
  McpToolSpec, mcp_tool_spec, mcp_tool_prefix, Tier, BashRules, bash_rules_for_mode,
  permitted_tools_for_mode, PermissionsConfig, AgentPolicy, EffectivePolicy, build_policy,
  tool_permitted, mcp_requires_prompt,
}
use carve.Permissions.Policy.Permitted.{
  denied, granted, granted_mcp, registered_in, permitted-build_policy,
}
use carve.Permissions.Policy.Floor.{IsNamespaced}
use carve.Permissions.Shlex
use carve.Permissions.Bash.{command_keys, tier_bash_command}
use carve.Permissions.Bash.Allowed.{IsAllowedCommand, tier_bash_command-allow}
use carve.Permissions.Bash.Floor.{bash_denied, config_only_tightens, allowed_on_floor}
use carve.Permissions.Gate.{allow, terminator_tools, check}
use carve.Permissions.Gate.Clamp.{Commands, check-allow_alone}
use carve.Permissions.Gate.Mcp.{mcp_writer_held}

abbrev same_path : String → String
same_path path = path

abbrev config : Option PermissionsConfig
config = some (record { denied_tools = "grep" ∷ []; bash_deny = "curl" ∷ [] })

abbrev agent : Option AgentPolicy
agent = some (record {
  tools = "view" ∷ "grep" ∷ "bash" ∷ "edit" ∷ "mcp:jira:*" ∷ [];
  capability = build;
  allowed_paths = none;
})

abbrev specs : List McpToolSpec
specs =
    record { name = "mcp:jira:search"; writes = false }
    ∷ record { name = "mcp:jira:create"; writes = true }
    ∷ []

specs-IsNamespaced : IsNamespaced (some specs)
unfolding mcp_tool_spec
specs-IsNamespaced = (refl, (refl, tt))

abbrev edit : String
edit = "edit"

abbrev policy : EffectivePolicy
policy = build_policy same_path build agent config (some specs)

permitted-build_policy_example : contains policy.permitted_tools "mcp:jira:create" ≡ (
    not (denied config "mcp:jira:create")
    && ((contains (permitted_tools_for_mode build) "mcp:jira:create"
          && granted agent "mcp:jira:create")
        || (registered_in (some specs) build "mcp:jira:create"
            && granted_mcp agent "mcp:jira:create")))
permitted-build_policy_example =
    permitted-build_policy same_path build agent config (some specs) "mcp:jira:create"

edit-permitted : contains policy.permitted_tools edit ≡ true
unfolding build_policy permitted_tools_for_mode mode_permits string_eq nat_eq
    carve.Common.Names.both carve.Common.Names.without carve.Common.Text.count_of
    carve.Common.Text.drop_last carve.Common.Text.ends_with carve.Permissions.Policy.admit
    carve.Permissions.Policy.drop_denied carve.Permissions.Policy.grant_admits
    carve.Permissions.Policy.is_wildcard carve.Permissions.Policy.mcp_permitted_for_mode
    carve.Permissions.Policy.narrow carve.Permissions.Policy.wildcard_admits
edit-permitted = refl

deploy-wider : mode_permits deploy build ≡ true
unfolding mode_permits
deploy-wider = refl

edit-writes : contains write_tools edit ≡ true
unfolding string_eq
edit-writes = refl

view-plain : starts_with "view" mcp_tool_prefix ≡ false
view-plain = refl

edit-runs : check policy edit [] none ≡ allow
unfolding check tool_permitted mcp_requires_prompt build_policy permitted_tools_for_mode
    mode_permits string_eq nat_eq carve.Common.Names.both carve.Common.Names.without
    carve.Common.Text.count_of carve.Common.Text.drop_last carve.Common.Text.ends_with
    carve.Permissions.Policy.admit carve.Permissions.Policy.drop_denied
    carve.Permissions.Policy.grant_admits carve.Permissions.Policy.is_wildcard
    carve.Permissions.Policy.mcp_permitted_for_mode carve.Permissions.Policy.narrow
    carve.Permissions.Policy.wildcard_admits
edit-runs = refl

edit-stays : contains terminator_tools edit ≡ false
unfolding string_eq
edit-stays = refl

check-allow_alone_example :
    ((edit ≡ "bash") × Commands policy [])
    ⊎ ((edit ≢ "bash") × (mcp_requires_prompt policy edit ≡ false))
check-allow_alone_example = check-allow_alone policy edit [] edit-stays edit-runs

mcp_writer_held_example : check policy "mcp:jira:create" [] none ≢ allow
unfolding string_eq mode_permits
mcp_writer_held_example =
    mcp_writer_held same_path build agent config specs "mcp:jira:create" [] specs-IsNamespaced
      (refl, refl)

default-deny : policy.bash.default ≡ Tier.deny
unfolding build_policy carve.Permissions.Policy.tighten_bash bash_rules_for_mode
default-deny = refl

tier_bash_command-allow_example :
    ((tier_bash_command "git log -3" policy.bash).tier ≡ Tier.allow)
    ↔ IsAllowedCommand "git log -3" policy.bash
tier_bash_command-allow_example = tier_bash_command-allow "git log -3" policy.bash default-deny

log-allowed : (tier_bash_command "git log -3" policy.bash).tier ≡ Tier.allow
unfolding tier_bash_command is_blank nat_eq carve.Permissions.Bash.contains_metacharacter occurs_in
    string_eq carve.Permissions.Bash.tier_argv carve.Permissions.Shlex.split
    carve.Permissions.Bash.tier_program carve.Permissions.Bash.first_in command_keys base_name
    build_policy carve.Permissions.Policy.tighten_bash bash_rules_for_mode
    carve.Permissions.Bash.dangerous_flag carve.Permissions.Tables.dangerous_bash_flags
    carve.Common.Names.without is_space carve.Permissions.Bash.first_flag
    carve.Permissions.Bash.first_infix carve.Permissions.Bash.is_flag
    carve.Permissions.Bash.scan_flags
log-allowed = refl

config_only_tightens_example :
    (tier_bash_command "git log -3"
      (build_policy same_path build agent none (some specs)).bash).tier
    ≡ Tier.allow
config_only_tightens_example =
    config_only_tightens same_path build agent config (some specs) "git log -3" log-allowed

allowed_on_floor_example :
    (prog : String) × (args : List String) × (key : String) × (Shlex.split "git log -3"
      ≡ some (prog ∷ args))
    × (contains (command_keys (base_name prog) args) key ≡ true)
    × (contains always_deny (base_name prog) ≡ false)
    × ((contains read_bash_allow key || (mode_permits build build && contains build_bash_allow key))
        ≡ true)
    × (bash_denied config key ≡ false)
    × (bash_denied config (base_name prog) ≡ false)
allowed_on_floor_example =
    allowed_on_floor same_path build agent config (some specs) "git log -3" log-allowed
