-- ===== src/Permissions/Bash/Floor.antt =====
-- The bash rules that `build_policy` of policy.py hands to the bash gate.
use carve.Common.{
  String, Bool, true, false, Option, none, some, List, [], ◌∷◌, ◌≡◌, refl, arith, ◌||◌, ◌&&◌, not,
  contains, string_eq, or-false, and_not-true,
}
use carve.Common.Text.{base_name}
use carve.Common.Names.{contains-append, contains-without}
use carve.Permissions.Modes.{PermissionMode, read_only, plan, build, deploy, mode_permits}
use carve.Permissions.Tables.{read_bash_allow, build_bash_allow, always_deny}
use carve.Permissions.Policy.{
  AgentPolicy, PermissionsConfig, McpToolSpec, BashRules, Tier, bash_rules_for_mode, tighten_bash,
  build_policy,
}
use carve.Permissions.Shlex
use carve.Permissions.Bash.{command_keys, tier_bash_command}
use carve.Permissions.Bash.Allowed.{IsAllowed, tier_bash_command-allow}

abbrev pub bash_denied : Option PermissionsConfig → String → Bool
bash_denied none token = false
bash_denied (some c) token = contains c.bash_deny token

record IsTightened (config : Option PermissionsConfig) (bash : BashRules) (token : String)
    : Type 0 where
  allow :
      contains (tighten_bash config bash).allow token
      ≡ (contains bash.allow token && not (bash_denied config token))
  prompt :
      contains (tighten_bash config bash).prompt token
      ≡ (contains bash.prompt token && not (bash_denied config token))
  deny :
      contains (tighten_bash config bash).deny token
      ≡ (contains bash.deny token || bash_denied config token)

tighten_list :
    (t : String) (ts : List String) (denied : List String) (bash : BashRules) (token : String)
    → IsTightened (some (record { denied_tools = denied; bash_deny = t ∷ ts })) bash token
unfolding tighten_bash
tighten_list t ts denied bash token = record {
  allow = contains-without bash.allow (t ∷ ts) token;
  prompt = contains-without bash.prompt (t ∷ ts) token;
  deny = contains-append bash.deny (t ∷ ts) token;
}

tighten_empty :
    (denied : List String) (bash : BashRules) (token : String)
    → IsTightened (some (record { denied_tools = denied; bash_deny = [] })) bash token
unfolding tighten_bash
tighten_empty denied bash token = record {
  allow = ground arith;
  prompt = ground arith;
  deny = ground arith;
}

tighten_some :
    (deny denied : List String) (bash : BashRules) (token : String)
    → IsTightened (some (record { denied_tools = denied; bash_deny = deny })) bash token
tighten_some [] denied bash token = tighten_empty denied bash token
tighten_some (t ∷ ts) denied bash token = tighten_list t ts denied bash token

contains-tighten_bash :
    (config : Option PermissionsConfig) (bash : BashRules) (token : String)
    → IsTightened config bash token
unfolding tighten_bash
contains-tighten_bash none bash token = record {
  allow = ground arith;
  prompt = ground arith;
  deny = ground arith;
}
contains-tighten_bash (some c) bash token = tighten_some c.bash_deny c.denied_tools bash token

-- The default tier is "deny" in every mode, under every configuration.
default-list :
    (deny : List String) (denied : List String) (mode : PermissionMode)
    → (tighten_bash
        (some (record { denied_tools = denied; bash_deny = deny }))
        (bash_rules_for_mode mode)).default
      ≡ Tier.deny
unfolding tighten_bash bash_rules_for_mode
default-list [] denied mode = ground arith
default-list (t ∷ ts) denied mode = ground arith

pub default-tighten_bash :
    (config : Option PermissionsConfig) (mode : PermissionMode)
    → (tighten_bash config (bash_rules_for_mode mode)).default ≡ Tier.deny
unfolding tighten_bash bash_rules_for_mode
default-tighten_bash none mode = ground arith
default-tighten_bash (some c) mode = default-list c.bash_deny c.denied_tools mode

bash-build_policy :
    (resolve : String → String) (mode : PermissionMode) (agent : Option AgentPolicy)
    (config : Option PermissionsConfig) (specs : Option (List McpToolSpec))
    → (build_policy resolve mode agent config specs).bash
      ≡ tighten_bash config (bash_rules_for_mode mode)
unfolding build_policy
bash-build_policy resolve mode agent config none = refl
bash-build_policy resolve mode agent config (some specs) = refl

deny_of_mode : (mode : PermissionMode) → (bash_rules_for_mode mode).deny ≡ always_deny
unfolding bash_rules_for_mode
deny_of_mode mode = ground arith

allow_of_mode :
    (mode : PermissionMode) (key : String)
    → contains (bash_rules_for_mode mode).allow key ≡ true
    → (contains read_bash_allow key || (mode_permits mode build && contains build_bash_allow key))
      ≡ true
unfolding bash_rules_for_mode mode_permits
allow_of_mode read_only key h = rw h
allow_of_mode plan key h = rw h
allow_of_mode build key h = rw contains-append at h
allow_of_mode deploy key h = rw contains-append at h

module _ (mode : PermissionMode) (config : Option PermissionsConfig) (prog : String)
    (args : List String) where
  -- What is allowed under a configuration is allowed without it.
  untighten :
      IsAllowed prog args (tighten_bash config (bash_rules_for_mode mode))
      → IsAllowed prog args (tighten_bash none (bash_rules_for_mode mode))
  unfolding tighten_bash
  untighten a =
      let rules = bash_rules_for_mode mode in
      record {
        not_denied = λ key m.
            ground (arith, a.not_denied key m, (contains-tighten_bash config rules key).deny);
        program_not_denied =
            ground (arith, a.program_not_denied, (contains-tighten_bash config rules prog).deny);
        no_dangerous_flag = a.no_dangerous_flag;
        not_prompted = λ key m. ground (
          arith,
          a.not_prompted key m,
          a.not_denied key m,
          (contains-tighten_bash config rules key).prompt,
          (contains-tighten_bash config rules key).deny,
        );
        listed = (
          a.listed.0,
          a.listed.1,
          ground (arith, a.listed.2, (contains-tighten_bash config rules a.listed.0).allow),
        );
      }

-- What is allowed under a configuration matches an entry of the mode's table that the configuration
-- leaves, and runs a program that neither of them denies.
record IsOnFloor (mode : PermissionMode) (config : Option PermissionsConfig) (prog : String)
    (args : List String) : Type 0 where
  key : String
  matches : contains (command_keys prog args) key ≡ true
  in_table : contains (bash_rules_for_mode mode).allow key ≡ true
  key_left : bash_denied config key ≡ false
  not_denied : contains (bash_rules_for_mode mode).deny prog ≡ false
  program_left : bash_denied config prog ≡ false

IsAllowed-IsOnFloor :
    (mode : PermissionMode) (config : Option PermissionsConfig) (prog : String) (args : List String)
    → IsAllowed prog args (tighten_bash config (bash_rules_for_mode mode))
    → IsOnFloor mode config prog args
IsAllowed-IsOnFloor mode config prog args a =
    let rules = bash_rules_for_mode mode in
    let (key, matches, listed) = a.listed in
    let kept = and_not-true _ _ (rw (contains-tighten_bash config rules key).allow at listed) in
    let clear =
      or-false _ _ (rw (contains-tighten_bash config rules prog).deny at a.program_not_denied) in
    record {
      key = key;
      matches = matches;
      in_table = kept.0;
      key_left = kept.1;
      not_denied = clear.0;
      program_left = clear.1;
    }

module _ (resolve : String → String) (mode : PermissionMode) (agent : Option AgentPolicy)
    (config : Option PermissionsConfig) (specs : Option (List McpToolSpec)) (command : String) where
  -- A configuration only tightens the bash tiers: a command that the gate allows under it is
  -- allowed in the same mode with no configuration.
  pub config_only_tightens :
      (tier_bash_command command (build_policy resolve mode agent config specs).bash).tier
        ≡ Tier.allow
      → (tier_bash_command command (build_policy resolve mode agent none specs).bash).tier
        ≡ Tier.allow
  config_only_tightens h =
      let rules = bash_rules_for_mode mode in
      let d = default-tighten_bash config mode in
      let a =
        (tier_bash_command-allow command (tighten_bash config rules) d).0
          (rw bash-build_policy at h) in
      rw bash-build_policy (
        (tier_bash_command-allow command (tighten_bash none rules)
            (default-tighten_bash none mode)).1
          (record {
            not_blank = a.not_blank;
            no_metacharacter = a.no_metacharacter;
            prog = a.prog;
            args = a.args;
            parsed = a.parsed;
            allowed = untighten mode config (base_name a.prog) a.args a.allowed;
          }))

  -- Under every policy, an allowed command splits into a program and its arguments; the base name of
  -- the program is not on the list of those that are always denied, and a key of the two is an entry
  -- of the read list, or of the build list where the mode is at least `build`; the configuration
  -- denies neither the entry nor the program.
  pub allowed_on_floor :
      (tier_bash_command command (build_policy resolve mode agent config specs).bash).tier
        ≡ Tier.allow
      → (prog : String) × (args : List String) × (key : String) × (Shlex.split command
          ≡ some (prog ∷ args))
        × (contains (command_keys (base_name prog) args) key ≡ true)
        × (contains always_deny (base_name prog) ≡ false)
        × ((contains read_bash_allow key
              || (mode_permits mode build && contains build_bash_allow key))
            ≡ true)
        × (bash_denied config key ≡ false)
        × (bash_denied config (base_name prog) ≡ false)
  allowed_on_floor h =
      let a =
        (tier_bash_command-allow command (tighten_bash config (bash_rules_for_mode mode))
            (default-tighten_bash config mode)).0
          (rw bash-build_policy at h) in
      let f = IsAllowed-IsOnFloor mode config (base_name a.prog) a.args a.allowed in
      (
        a.prog,
        a.args,
        f.key,
        a.parsed,
        f.matches,
        rw deny_of_mode at f.not_denied,
        allow_of_mode mode f.key f.in_table,
        f.key_left,
        f.program_left,
      )
