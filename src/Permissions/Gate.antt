-- ===== src/Permissions/Gate.antt =====
-- src/carve/core/agents/permissions/gate.py: the decision on one tool call.
pub mod Clamp
pub mod Mcp
use carve.Common.{
  String, Bool, true, false, Option, none, some, List, [], ◌∷◌, ◌||◌, ◌&&◌, not, ◌==◌, contains,
  string_eq, if◌then◌else◌, is_some,
}
use carve.Permissions.Modes.{PermissionMode, build, deploy, mode_permits}
use carve.Permissions.Tables.{write_tools}
use carve.Permissions.Policy.{EffectivePolicy, Tier, tool_permitted, mcp_requires_prompt}
use carve.Permissions.Bash.{BashReason, BashDecision, tier_bash_command}

-- A JSON value of a tool's input: text, or anything else.
pub data Value : Type 0 where
  text : String → Value
  other : Value

abbrev pub ToolInput : Type 0
ToolInput = List (String × Value)

-- `None`, or the callback that an interactive session registers.
abbrev pub Approver : Type 0
Approver = Option (String → ToolInput → Bool)

-- One constructor for each message.
pub data Reason : Type 0 where
  not_permitted write_below_build ddl_below_deploy : Reason
  command_not_text mcp_writes : Reason
  bash_reason : BashReason → Reason
  no_approver declined : Reason → Reason

pub data Decision : Type 0 where
  allow : Decision
  deny needs_user_input : Reason → Decision

unfoldable pub allowed : Decision → Bool
allowed allow = true
allowed _ = false

abbrev pub terminator_tools : List String
terminator_tools = "submit_result" ∷ "submit_plan" ∷ "submit_step" ∷ "submit_diagnosis" ∷ []

-- tool_input.get(key)
unfoldable pub get : String → ToolInput → Option Value
get key [] = none
get key ((k, v) ∷ input) = if k == key then some v else get key input

-- The tail that `_resolve_prompt` and `_check_bash` share: without an approver the call is held.
unfoldable pub ask : String → ToolInput → Approver → Reason → Decision
ask tool_name tool_input none reason = needs_user_input (no_approver reason)
ask tool_name tool_input (some approver) reason =
    if approver tool_name tool_input then allow else needs_user_input (declined reason)

unfoldable pub resolve_prompt : String → ToolInput → Approver → Decision
unfolding ask
resolve_prompt tool_name tool_input approver = ask tool_name tool_input approver mcp_writes

by_tier : BashDecision → ToolInput → Approver → Decision
by_tier d tool_input approver = elim d.tier [
  | Tier.allow ↦ allow
  | Tier.deny ↦ deny (bash_reason d.reason)
  | Tier.prompt ↦ ask "bash" tool_input approver (bash_reason d.reason)
]

unfoldable pub check_bash : EffectivePolicy → ToolInput → Approver → Decision
unfolding by_tier ask
check_bash policy tool_input approver = elim (get "command" tool_input) [
  | none ↦ deny command_not_text
  | some value ↦ elim value [
    | other ↦ deny command_not_text
    | text command ↦ by_tier (tier_bash_command command policy.bash) tool_input approver
  ]
]

unfoldable pub check : EffectivePolicy → String → ToolInput → Approver → Decision
check policy tool_name tool_input approver =
    if contains terminator_tools tool_name
    then allow
    else if not (tool_permitted policy tool_name)
    then deny not_permitted
    else if contains write_tools tool_name && not (mode_permits policy.mode build)
    then deny write_below_build
    else if tool_name == "run_snowflake_ddl" && not (mode_permits policy.mode deploy)
    then deny ddl_below_deploy
    else if tool_name == "bash"
    then check_bash policy tool_input approver
    else if mcp_requires_prompt policy tool_name
    then resolve_prompt tool_name tool_input approver
    else allow

-- `Path.resolve` and `relative_to` of the standard library ask the file system and compare path
-- components, so they are arguments.
module _ {FilePath : Type 0} (resolve : FilePath → FilePath)
    (relative_to : FilePath → FilePath → Bool) (same : FilePath → FilePath → Bool) where
  any_same : FilePath → List FilePath → Bool
  any_same candidate [] = false
  any_same candidate (p ∷ paths) = same candidate (resolve p) || any_same candidate paths

  unfoldable pub is_write_path_allowed : FilePath → FilePath → Option (List FilePath) → Bool
  unfolding any_same
  is_write_path_allowed candidate project_root allowed_paths =
      if relative_to (resolve candidate) (resolve project_root)
      then (elim allowed_paths [ none ↦ true | some paths ↦ any_same (resolve candidate) paths ])
      else false
