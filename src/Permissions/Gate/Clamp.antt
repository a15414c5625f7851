-- ===== src/Permissions/Gate/Clamp.antt =====
-- The guards of `PermissionGate.check` (src/carve/core/agents/permissions/gate.py).
use carve.Common.{
  String, true, false, Option, none, some, ◌≡◌, refl, ◌≢◌, ◌⊎◌, inl, inr, arith, ◌&&◌, not, ◌==◌,
  contains, string_eq,
}
use carve.Permissions.Modes.{build, deploy, mode_permits}
use carve.Permissions.Tables.{write_tools}
use carve.Permissions.Policy.{EffectivePolicy, Tier, tool_permitted, mcp_requires_prompt}
use carve.Permissions.Bash.{tier_bash_command}
use carve.Permissions.Gate.{
  Approver, ToolInput, Value, allow, other, terminator_tools, text, get, resolve_prompt, check_bash,
  check,
}

-- Every call that the gate allows is a terminator's, or the tool is in the permitted set, and it is
-- no write tool below `build` and no warehouse DDL below `deploy`.
pub check-allow :
    (policy : EffectivePolicy) (tool_name : String) (tool_input : ToolInput) (approver : Approver)
    → check policy tool_name tool_input approver ≡ allow
    → (contains terminator_tools tool_name ≡ true)
      ⊎ ((tool_permitted policy tool_name ≡ true)
          × ((contains write_tools tool_name && not (mode_permits policy.mode build)) ≡ false)
          × ((tool_name == "run_snowflake_ddl" && not (mode_permits policy.mode deploy)) ≡ false))
unfolding check
check-allow policy tool_name tool_input approver h = ground arith

abbrev pub Commands : EffectivePolicy → ToolInput → Type 0
Commands policy tool_input =
    (command : String) × (get "command" tool_input ≡ some (text command))
    × ((tier_bash_command command policy.bash).tier ≡ Tier.allow)

command_of :
    (policy : EffectivePolicy) (tool_input : ToolInput) (value : Option Value)
    → get "command" tool_input ≡ value
    → check_bash policy tool_input none ≡ allow
    → Commands policy tool_input
unfolding check_bash
command_of policy tool_input (some (text command)) e h = (command, e, ground arith)
command_of policy tool_input (some other) e h = absurd (ground arith)
command_of policy tool_input none e h = absurd (ground arith)

check_bash-allow_alone :
    (policy : EffectivePolicy) (tool_input : ToolInput)
    → check_bash policy tool_input none ≡ allow
    → Commands policy tool_input
check_bash-allow_alone policy tool_input h =
    command_of policy tool_input (get "command" tool_input) refl h

-- A run with no approver: the gate allows a `bash` call only if its command is a text in the allow
-- tier, and any other tool that is not a terminator only if it does not require a prompt.
pub check-allow_alone :
    (policy : EffectivePolicy) (tool_name : String) (tool_input : ToolInput)
    → contains terminator_tools tool_name ≡ false
    → check policy tool_name tool_input none ≡ allow
    → ((tool_name ≡ "bash") × Commands policy tool_input)
      ⊎ ((tool_name ≢ "bash") × (mcp_requires_prompt policy tool_name ≡ false))
unfolding check resolve_prompt
check-allow_alone policy tool_name tool_input t h = elim (string_eq.dec tool_name "bash") [
  | yes p ↦ inl (p, check_bash-allow_alone policy tool_input (ground arith))
  | no n ↦ inr (n, ground arith)
]
