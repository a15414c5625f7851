-- ===== src/Permissions/Policy.antt =====
-- src/carve/core/agents/permissions/policy.py: the policy of one agent, reconciled from the mode's
-- floor, the configuration, the agent's grant and the registered MCP tools.
pub mod Permitted
pub mod Floor
pub mod Tighten
use carve.Common.{
  ℕ, String, ◌≡◌, refl, Bool, true, false, Option, none, some, List, [], ◌∷◌, ◌++◌, ◌&&◌, ◌||◌,
  arith, ◌==◌, contains, string_eq, nat_eq, if◌then◌else◌, map,
}
use carve.Common.Names.{without, both}
use carve.Common.Text.{starts_with, ends_with, count_of, drop_last}
use carve.Permissions.Modes.{PermissionMode, read_only, plan, build, deploy, mode_permits}
use carve.Permissions.Tables.{
  all_tools, read_tools, read_bash_allow, build_bash_allow, deploy_bash_prompt, always_deny,
}

pub record McpToolSpec : Type 0 where
  pub name : String
  pub writes : Bool

abbrev pub mcp_tool_prefix : String
mcp_tool_prefix = "mcp:"

-- The constructor with its check: `none` is the `ValueError`.
unfoldable pub mcp_tool_spec : String → Bool → Option McpToolSpec
mcp_tool_spec name writes =
    if starts_with name mcp_tool_prefix
    then some (record { name = name; writes = writes })
    else none

-- The names that are permitted, and those of them that are held for approval.
unfoldable pub mcp_permitted_for_mode :
    PermissionMode → List McpToolSpec → List String × List String
mcp_permitted_for_mode mode [] = ([], [])
mcp_permitted_for_mode mode (spec ∷ specs) =
    let (permitted, prompt) = mcp_permitted_for_mode mode specs in
    if spec.writes
    then (if mode_permits mode build
        then (spec.name ∷ permitted, spec.name ∷ prompt)
        else (permitted, prompt))
    else (spec.name ∷ permitted, prompt)

pub data Tier : Type 0 where
  allow prompt deny : Tier

pub record BashRules : Type 0 where
  pub allow : List String
  pub prompt : List String
  pub deny : List String
  -- the tier of a command that matches nothing
  pub default : Tier

unfoldable pub bash_rules_for_mode : PermissionMode → BashRules
bash_rules_for_mode read_only = record {
  allow = read_bash_allow;
  prompt = [];
  deny = always_deny;
  default = Tier.deny;
}
bash_rules_for_mode plan = record {
  allow = read_bash_allow;
  prompt = [];
  deny = always_deny;
  default = Tier.deny;
}
bash_rules_for_mode build = record {
  allow = read_bash_allow ++ build_bash_allow;
  prompt = [];
  deny = always_deny;
  default = Tier.deny;
}
bash_rules_for_mode deploy = record {
  allow = read_bash_allow ++ build_bash_allow;
  prompt = deploy_bash_prompt;
  deny = always_deny;
  default = Tier.deny;
}

unfoldable pub permitted_tools_for_mode : PermissionMode → List String
permitted_tools_for_mode read_only = read_tools
permitted_tools_for_mode plan = read_tools
permitted_tools_for_mode build = read_tools ++ ("edit" ∷ "create_file" ∷ "write_file" ∷ [])
permitted_tools_for_mode deploy = all_tools

pub record PermissionsConfig : Type 0 where
  pub denied_tools : List String
  pub bash_deny : List String

pub record AgentPolicy : Type 0 where
  pub tools : List String
  pub capability : PermissionMode
  pub allowed_paths : Option (List String)

pub record EffectivePolicy : Type 0 where
  pub mode : PermissionMode
  pub permitted_tools : List String
  pub bash : BashRules
  pub allowed_paths : Option (List String)
  pub mcp_prompt_tools : List String

unfoldable pub tool_permitted : EffectivePolicy → String → Bool
tool_permitted p name = contains p.permitted_tools name

unfoldable pub mcp_requires_prompt : EffectivePolicy → String → Bool
mcp_requires_prompt p name = contains p.mcp_prompt_tools name

-- A well-formed entry `mcp:<server>:*`.
unfoldable pub is_wildcard : String → Bool
is_wildcard entry =
    starts_with entry mcp_tool_prefix && ends_with entry ":*" && count_of b':' entry == 2

-- `any(name.startswith(prefix) for prefix in wildcard_prefixes)`
unfoldable pub wildcard_admits : List String → String → Bool
wildcard_admits [] name = false
wildcard_admits (entry ∷ grant) name =
    (is_wildcard entry && starts_with name (drop_last entry)) || wildcard_admits grant name

-- The filter of `_grant_admits`; an empty grant admits nothing, as its early return says.
unfoldable pub grant_admits : List String → List String → List String
unfolding wildcard_admits
grant_admits [] grant = []
grant_admits (name ∷ names) grant =
    let rest = grant_admits names grant in
    if contains grant name || wildcard_admits grant name then name ∷ rest else rest

-- `permitted - config.denied_tools`, with a configuration
unfoldable pub drop_denied : Option PermissionsConfig → List String → List String
drop_denied none names = names
drop_denied (some c) names = without names c.denied_tools

-- `config.bash_deny` moves tokens to the deny tier; an empty one leaves the rules alone.
force_deny : List String → BashRules → BashRules
force_deny [] bash = bash
force_deny (t ∷ ts) bash = record {
  allow = without bash.allow (t ∷ ts);
  prompt = without bash.prompt (t ∷ ts);
  deny = bash.deny ++ (t ∷ ts);
  default = bash.default;
}

unfoldable pub tighten_bash : Option PermissionsConfig → BashRules → BashRules
unfolding force_deny
tighten_bash none bash = bash
tighten_bash (some c) bash = force_deny c.bash_deny bash

-- `permitted & grant`, with an agent
unfoldable pub narrow : Option AgentPolicy → List String → List String
narrow none names = names
narrow (some a) names = both names a.tools

unfoldable pub admit : Option AgentPolicy → List String → List String
admit none names = names
admit (some a) names = grant_admits names a.tools

-- `resolve` is `Path.resolve`, which asks the file system.
unfoldable pub resolved_paths : (String → String) → Option AgentPolicy → Option (List String)
resolved_paths resolve none = none
resolved_paths resolve (some a) = elim a.allowed_paths [
  | none ↦ none
  | some paths ↦ some (map resolve paths)
]

unfoldable pub build_policy :
    (String → String)
    → PermissionMode
    → Option AgentPolicy
    → Option PermissionsConfig
    → Option (List McpToolSpec)
    → EffectivePolicy
build_policy resolve mode agent config none = record {
  mode = mode;
  permitted_tools = narrow agent (drop_denied config (permitted_tools_for_mode mode));
  bash = tighten_bash config (bash_rules_for_mode mode);
  allowed_paths = resolved_paths resolve agent;
  mcp_prompt_tools = [];
}
build_policy resolve mode agent config (some mcp_tools) =
    let base = narrow agent (drop_denied config (permitted_tools_for_mode mode)) in
    let (mcp_permitted, mcp_prompt) = mcp_permitted_for_mode mode mcp_tools in
    record {
      mode = mode;
      permitted_tools = drop_denied config (base ++ admit agent mcp_permitted);
      bash = tighten_bash config (bash_rules_for_mode mode);
      allowed_paths = resolved_paths resolve agent;
      mcp_prompt_tools = drop_denied config (admit agent mcp_prompt);
    }
