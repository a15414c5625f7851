-- ===== src/Permissions/Bash/Allowed.antt =====
-- The screens of `tier_bash_command` (src/carve/core/agents/permissions/bash_gate.py).
use carve.Common.{
  String, true, false, Option, none, some, List, [], ◌∷◌, ◌≡◌, refl, ◌↔◌, arith, contains,
  string_eq, Option-cases, inl, inr, ◌≢◌,
}
use carve.Common.Text.{occurs_in, is_blank, base_name}
use carve.Permissions.Tables.{dangerous_bash_flags}
use carve.Permissions.Policy.{Tier, BashRules}
use carve.Permissions.Shlex
use carve.Permissions.Bash.{
  metacharacters, first_infix, contains_metacharacter, is_flag, first_flag, scan_flags,
  dangerous_flag, first_in, command_keys, tier_program, tier_argv, tier_bash_command,
}

-- No key of the command stands in the set.
abbrev pub Avoids : List String → List String → Type 0
Avoids keys set = (key : String) → contains keys key ≡ true → contains set key ≡ false

-- No argument is, or begins with, one of the program's dangerous flags.
abbrev pub IsClean : List String → List String → Type 0
IsClean flags args =
    (token flag : String)
    → contains args token ≡ true
    → contains flags flag ≡ true
    → is_flag token flag ≡ false

-- What an allowed command looks like, stated without the gate's searches.
pub record IsAllowed (prog : String) (args : List String) (rules : BashRules) : Type 0 where
  pub not_denied : Avoids (command_keys prog args) rules.deny
  pub program_not_denied : contains rules.deny prog ≡ false
  pub no_dangerous_flag : IsClean (dangerous_bash_flags prog) args
  pub not_prompted : Avoids (command_keys prog args) rules.prompt
  pub listed :
      (key : String) × (contains (command_keys prog args) key ≡ true)
      × (contains rules.allow key ≡ true)

first_in-none : (keys set : List String) → first_in keys set ≡ none → Avoids keys set
unfolding first_in
first_in-none [] set h key m = cc
first_in-none (k ∷ keys) set h key m = ground (arith, first_in-none keys set (ground arith) key)

first_in_of_Avoids : (keys set : List String) → Avoids keys set → first_in keys set ≡ none
unfolding first_in
first_in_of_Avoids [] set h = refl
first_in_of_Avoids (k ∷ keys) set h =
    ground (arith, h k, first_in_of_Avoids keys set (λ key m. h key (ground arith)))

first_in-some :
    (keys set : List String) (key : String)
    → first_in keys set ≡ some key
    → (contains keys key ≡ true) × (contains set key ≡ true)
unfolding first_in
first_in-some [] set key h = cc
first_in-some (k ∷ keys) set key h = ground (arith, first_in-some keys set key)

first_in-ne-none :
    (keys set : List String) (key : String)
    → contains keys key ≡ true
    → contains set key ≡ true
    → first_in keys set ≢ none
first_in-ne-none keys set key m s h = cc (first_in-none keys set h key m)

first_flag-none :
    (flags : List String) (token flag : String)
    → first_flag flags token ≡ none
    → contains flags flag ≡ true
    → is_flag token flag ≡ false
unfolding first_flag
first_flag-none [] token flag h m = cc
first_flag-none (f ∷ flags) token flag h m = ground (arith, first_flag-none flags token flag)

first_flag_of_all :
    (flags : List String) (token : String)
    → ((flag : String) → contains flags flag ≡ true → is_flag token flag ≡ false)
    → first_flag flags token ≡ none
unfolding first_flag
first_flag_of_all [] token h = refl
first_flag_of_all (f ∷ flags) token h =
    ground (arith, h f, first_flag_of_all flags token (λ flag m. h flag (ground arith)))

scan_flags-none : (flags args : List String) → scan_flags flags args ≡ none → IsClean flags args
unfolding scan_flags
scan_flags-none flags [] h token flag m f = cc
scan_flags-none flags (t ∷ args) h token flag m f =
    ground
      (arith, first_flag-none flags t flag, scan_flags-none flags args (ground arith) token flag)

scan_flags_of_IsClean :
    (flags args : List String) → IsClean flags args → scan_flags flags args ≡ none
unfolding scan_flags
scan_flags_of_IsClean flags [] h = refl
scan_flags_of_IsClean flags (t ∷ args) h = ground (
  arith,
  first_flag_of_all flags t (λ flag f. h t flag (ground arith) f),
  scan_flags_of_IsClean flags args (λ token flag m f. h token flag (ground arith) f),
)

first_infix-none :
    (metas : List String) (command m : String)
    → first_infix metas command ≡ none
    → contains metas m ≡ true
    → occurs_in m command ≡ false
unfolding first_infix
first_infix-none [] command m h i = cc
first_infix-none (k ∷ metas) command m h i = ground (arith, first_infix-none metas command m)

first_infix_of_all :
    (metas : List String) (command : String)
    → ((m : String) → contains metas m ≡ true → occurs_in m command ≡ false)
    → first_infix metas command ≡ none
unfolding first_infix
first_infix_of_all [] command h = refl
first_infix_of_all (k ∷ metas) command h =
    ground (arith, h k, first_infix_of_all metas command (λ m i. h m (ground arith)))

module _ (prog : String) (args argv : List String) (rules : BashRules) where
  tier_program-sound :
      rules.default ≡ Tier.deny
      → (tier_program prog args argv rules).tier ≡ Tier.allow
      → IsAllowed prog args rules
  unfolding tier_program dangerous_flag
  tier_program-sound d h =
      let keys = command_keys prog args in
      let flags = dangerous_bash_flags prog in
      elim (Option-cases (first_in keys rules.allow)) [
        | inl none_listed ↦ absurd (ground arith)
        | inr (key, found) ↦ record {
          not_denied = first_in-none keys rules.deny (ground arith);
          program_not_denied = ground arith;
          no_dangerous_flag = scan_flags-none flags args (ground arith);
          not_prompted = first_in-none keys rules.prompt (ground arith);
          listed = let both = first_in-some keys rules.allow key found in (key, both.0, both.1);
        }
      ]

  tier_program_complete :
      IsAllowed prog args rules → (tier_program prog args argv rules).tier ≡ Tier.allow
  unfolding tier_program dangerous_flag
  tier_program_complete a =
      let keys = command_keys prog args in
      ground (
        arith,
        first_in_of_Avoids keys rules.deny a.not_denied,
        scan_flags_of_IsClean (dangerous_bash_flags prog) args a.no_dangerous_flag,
        first_in_of_Avoids keys rules.prompt a.not_prompted,
        first_in-ne-none keys rules.allow a.listed.0 a.listed.1 a.listed.2,
        a.program_not_denied,
      )

-- What an allowed command looks like before it is split into words.
pub record IsAllowedCommand (command : String) (rules : BashRules) : Type 0 where
  pub not_blank : is_blank command ≡ false
  pub no_metacharacter :
      (m : String) → contains metacharacters m ≡ true → occurs_in m command ≡ false
  pub prog : String
  pub args : List String
  pub parsed : Shlex.split command ≡ some (prog ∷ args)
  pub allowed : IsAllowed (base_name prog) args rules

tier_argv_sound :
    (parsed : Option (List String)) (rules : BashRules)
    → rules.default ≡ Tier.deny
    → (tier_argv parsed rules).tier ≡ Tier.allow
    → (prog : String) × (args : List String) × (parsed ≡ some (prog ∷ args))
      × IsAllowed (base_name prog) args rules
unfolding tier_argv
tier_argv_sound none rules d h = absurd (cc)
tier_argv_sound (some []) rules d h = absurd (cc)
tier_argv_sound (some (prog ∷ args)) rules d h =
    (prog, args, refl, tier_program-sound (base_name prog) args (prog ∷ args) rules d h)

tier_bash_command_sound :
    (command : String) (rules : BashRules)
    → rules.default ≡ Tier.deny
    → (tier_bash_command command rules).tier ≡ Tier.allow
    → IsAllowedCommand command rules
unfolding tier_bash_command contains_metacharacter
tier_bash_command_sound command rules d h =
    let (prog, args, parsed, allowed) =
      tier_argv_sound (Shlex.split command) rules d (ground arith) in
    record {
      not_blank = ground arith;
      no_metacharacter = λ m i. first_infix-none metacharacters command m (ground arith) i;
      prog = prog;
      args = args;
      parsed = parsed;
      allowed = allowed;
    }

tier_bash_command_complete :
    (command : String) (rules : BashRules)
    → IsAllowedCommand command rules
    → (tier_bash_command command rules).tier ≡ Tier.allow
unfolding tier_bash_command contains_metacharacter tier_argv
tier_bash_command_complete command rules a =
    rw (a.not_blank, first_infix_of_all metacharacters command a.no_metacharacter, a.parsed)
      (tier_program_complete (base_name a.prog) a.args (a.prog ∷ a.args) rules a.allowed)

-- Where unlisted commands are denied, the gate allows a command exactly when it is not blank, holds
-- no metacharacter, splits into a program and arguments, no key of it is denied or needs approval,
-- no argument is a dangerous flag of the program, and some key of it is allowed.
pub tier_bash_command-allow :
    (command : String) (rules : BashRules)
    → rules.default ≡ Tier.deny
    → ((tier_bash_command command rules).tier ≡ Tier.allow) ↔ IsAllowedCommand command rules
tier_bash_command-allow command rules d =
    (tier_bash_command_sound command rules d, tier_bash_command_complete command rules)
