-- ===== src/Permissions/Bash.antt =====
-- src/carve/core/agents/permissions/bash_gate.py: the tier of one shell command.
pub mod Allowed
pub mod Floor
use Prim.Native.String.{◌++◌ as ◌<>◌}
use carve.Common.{
  String, Bool, true, false, Option, none, some, List, [], ◌∷◌, ◌++◌, ◌≡◌, refl, ◌||◌, ◌&&◌, ◌==◌,
  contains, string_eq, nat_eq, if◌then◌else◌,
}
use carve.Common.Text.{starts_with, occurs_in, is_blank, base_name}
use carve.Permissions.Tables.{dangerous_bash_flags}
use carve.Permissions.Policy.{Tier, BashRules}
use carve.Permissions.Shlex

abbrev pub metacharacters : List String
metacharacters = "$(" ∷ "${" ∷ "`" ∷ ";" ∷ "&&" ∷ "||" ∷ "|" ∷ ">" ∷ "<" ∷ "&" ∷ "\n" ∷ "\r" ∷ []

abbrev pub subcommand_programs : List String
subcommand_programs = "git" ∷ "dbt" ∷ "dlt" ∷ "gh" ∷ "carve" ∷ []

-- Why a command has its tier: one constructor for each message of the source.
pub data BashReason : Type 0 where
  empty_command unparsable no_program clean : BashReason
  metacharacter on_deny_list denied_program disallowed_flag : String → BashReason
  needs_approval not_listed : String → BashReason

pub record BashDecision : Type 0 where
  pub tier : Tier
  pub reason : BashReason
  pub argv : List String

unfoldable pub first_infix : List String → String → Option String
first_infix [] command = none
first_infix (m ∷ metas) command =
    let rest = first_infix metas command in if occurs_in m command then some m else rest

unfoldable pub contains_metacharacter : String → Option String
unfolding first_infix
contains_metacharacter command = first_infix metacharacters command

-- A token that is the flag, or begins with it and `=`.
unfoldable pub is_flag : String → String → Bool
is_flag token flag = token == flag || starts_with token (flag <> "=")

unfoldable pub first_flag : List String → String → Option String
unfolding is_flag
first_flag [] token = none
first_flag (flag ∷ flags) token =
    let rest = first_flag flags token in if is_flag token flag then some flag else rest

unfoldable pub scan_flags : List String → List String → Option String
unfolding first_flag
scan_flags flags [] = none
scan_flags flags (token ∷ args) =
    let rest = scan_flags flags args in
    elim (first_flag flags token) [ none ↦ rest | some flag ↦ some flag ]

-- The arguments are `argv[1:]`.
unfoldable pub dangerous_flag : String → List String → Option String
unfolding scan_flags
dangerous_flag prog_base args = scan_flags (dangerous_bash_flags prog_base) args

-- The most specific key first.
subcommand_keys : String → List String → List String
subcommand_keys prog [] = prog ∷ []
subcommand_keys prog (a ∷ []) = (prog <> (" " <> a)) ∷ prog ∷ []
subcommand_keys prog (a ∷ b ∷ rest) =
    (prog <> (" " <> (a <> (" " <> b)))) ∷ (prog <> (" " <> a)) ∷ prog ∷ []

unfoldable pub command_keys : String → List String → List String
unfolding subcommand_keys
command_keys prog args =
    if contains subcommand_programs prog then subcommand_keys prog args else prog ∷ []

-- The first of the keys that the tier lists.
unfoldable pub first_in : List String → List String → Option String
first_in [] set = none
first_in (key ∷ keys) set =
    let rest = first_in keys set in if contains set key then some key else rest

-- The tiers of a parsed command; `argv` goes into the decision as it is.
unfoldable pub tier_program : String → List String → List String → BashRules → BashDecision
tier_program prog args argv rules =
    let keys = command_keys prog args in
    elim (first_in keys rules.deny) [
      | some key ↦ record { tier = Tier.deny; reason = on_deny_list key; argv = argv }
      | none ↦
          if contains rules.deny prog
          then record { tier = Tier.deny; reason = denied_program prog; argv = argv }
          else elim (dangerous_flag prog args) [
            | some flag ↦ record { tier = Tier.deny; reason = disallowed_flag flag; argv = argv }
            | none ↦ elim (first_in keys rules.prompt) [
              | some key ↦ record { tier = Tier.prompt; reason = needs_approval key; argv = argv }
              | none ↦ elim (first_in keys rules.allow) [
                | some key ↦ record { tier = Tier.allow; reason = clean; argv = argv }
                | none ↦ record { tier = rules.default; reason = not_listed prog; argv = argv }
              ]
            ]
          ]
    ]

unfoldable pub tier_argv : Option (List String) → BashRules → BashDecision
tier_argv none rules = record { tier = Tier.deny; reason = unparsable; argv = [] }
tier_argv (some []) rules = record { tier = Tier.deny; reason = no_program; argv = [] }
tier_argv (some (prog ∷ args)) rules = tier_program (base_name prog) args (prog ∷ args) rules

unfoldable pub tier_bash_command : String → BashRules → BashDecision
tier_bash_command command rules =
    if is_blank command
    then record { tier = Tier.deny; reason = empty_command; argv = [] }
    else elim (contains_metacharacter command) [
      | some m ↦ record { tier = Tier.deny; reason = metacharacter m; argv = [] }
      | none ↦ tier_argv (Shlex.split command) rules
    ]
