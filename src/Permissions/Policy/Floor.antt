-- ===== src/Permissions/Policy/Floor.antt =====
-- The mode floor of src/carve/core/agents/permissions/policy.py and the names of MCP tools.
use carve.Common.{
  String, true, false, Option, none, some, List, [], ◌∷◌, ◌≡◌, refl, arith, not, contains,
  string_eq, inl, inr, Bool-cases,
}
use carve.Common.Names.{contains-append, subset, contains_of_subset, all_names, all_names_sound}
use carve.Common.Text.{starts_with}
use carve.Permissions.Modes.{PermissionMode, read_only, plan, build, deploy, mode_permits}
use carve.Permissions.Tables.{all_tools, read_tools, write_tools}
use carve.Permissions.Policy.{McpToolSpec, mcp_tool_prefix, mcp_tool_spec, permitted_tools_for_mode}
use carve.Permissions.Policy.Permitted.{registered, registered_in}

abbrev pub Specs : Type 0
Specs = Option (List McpToolSpec)

-- Every spec was made by the checking constructor.
abbrev pub IsNamespaced : Specs → Type 0
IsNamespaced none = Unit
IsNamespaced (some []) = Unit
IsNamespaced (some (spec ∷ specs)) =
    (mcp_tool_spec spec.name spec.writes ≡ some spec) × IsNamespaced (some specs)

starts_with-name :
    (spec : McpToolSpec)
    → mcp_tool_spec spec.name spec.writes ≡ some spec
    → starts_with spec.name mcp_tool_prefix ≡ true
unfolding mcp_tool_spec
starts_with-name spec h = elim (Bool-cases (starts_with spec.name mcp_tool_prefix)) [
  | inl p ↦ p
  | inr n ↦ cc (rw n at h)
]

pub registered-starts_with :
    (mode : PermissionMode) (specs : List McpToolSpec) (name : String)
    → IsNamespaced (some specs)
    → registered mode specs name ≡ true
    → starts_with name mcp_tool_prefix ≡ true
registered-starts_with mode [] name n h = cc
registered-starts_with mode (spec ∷ specs) name n h =
    ground (arith, starts_with-name spec n.0, registered-starts_with mode specs name n.1)

pub registered_in-starts_with :
    (mcp_tools : Specs) (mode : PermissionMode) (name : String)
    → IsNamespaced mcp_tools
    → registered_in mcp_tools mode name ≡ true
    → starts_with name mcp_tool_prefix ≡ true
registered_in-starts_with none mode name n h = cc
registered_in-starts_with (some specs) mode name n h = registered-starts_with mode specs name n h

-- The static tables: no built-in tool lies in the MCP namespace, and the floors grow with the mode.
pub all_tools_not_mcp :
    (name : String) → contains all_tools name ≡ true → starts_with name mcp_tool_prefix ≡ false
unfolding all_names
all_tools_not_mcp name h =
    ground (arith, all_names_sound (λ x. not (starts_with x mcp_tool_prefix)) all_tools name refl h)

read_tools-subset :
    (name : String) → contains read_tools name ≡ true → contains all_tools name ≡ true
unfolding subset string_eq
read_tools-subset name h = contains_of_subset read_tools all_tools name refl h

build_tools-subset :
    (name : String)
    → contains (permitted_tools_for_mode build) name ≡ true
    → contains all_tools name ≡ true
unfolding subset string_eq permitted_tools_for_mode
build_tools-subset name h =
    contains_of_subset (permitted_tools_for_mode build) all_tools name refl h

-- The floor of a mode is in the floor of every wider one.
pub permitted_tools_mono :
    (narrow wide : PermissionMode) (name : String)
    → mode_permits wide narrow ≡ true
    → contains (permitted_tools_for_mode narrow) name ≡ true
    → contains (permitted_tools_for_mode wide) name ≡ true
unfolding permitted_tools_for_mode mode_permits
permitted_tools_mono read_only read_only name h m = m
permitted_tools_mono read_only plan name h m = m
permitted_tools_mono read_only build name h m = rw (contains-append read_tools, m)
permitted_tools_mono read_only deploy name h m = read_tools-subset name m
permitted_tools_mono plan read_only name h m = m
permitted_tools_mono plan plan name h m = m
permitted_tools_mono plan build name h m = rw (contains-append read_tools, m)
permitted_tools_mono plan deploy name h m = read_tools-subset name m
permitted_tools_mono build read_only name h m = cc
permitted_tools_mono build plan name h m = cc
permitted_tools_mono build build name h m = m
permitted_tools_mono build deploy name h m = build_tools-subset name m
permitted_tools_mono deploy read_only name h m = cc
permitted_tools_mono deploy plan name h m = cc
permitted_tools_mono deploy build name h m = cc
permitted_tools_mono deploy deploy name h m = m

registered_mono :
    (narrow wide : PermissionMode) (specs : List McpToolSpec) (name : String)
    → mode_permits wide narrow ≡ true
    → registered narrow specs name ≡ true
    → registered wide specs name ≡ true
unfolding mode_permits
registered_mono narrow wide [] name h r = r
registered_mono narrow wide (spec ∷ specs) name h r =
    ground (arith, registered_mono narrow wide specs name h)

pub registered_in_mono :
    (mcp_tools : Specs) (narrow wide : PermissionMode) (name : String)
    → mode_permits wide narrow ≡ true
    → registered_in mcp_tools narrow name ≡ true
    → registered_in mcp_tools wide name ≡ true
registered_in_mono none narrow wide name h r = r
registered_in_mono (some specs) narrow wide name h r = registered_mono narrow wide specs name h r

-- No write tool is on the floor below `build`, and the warehouse DDL tool only on that of `deploy`.
pub writes_on_floor :
    (mode : PermissionMode) (name : String)
    → contains write_tools name ≡ true
    → contains (permitted_tools_for_mode mode) name ≡ true
    → mode_permits mode build ≡ true
unfolding permitted_tools_for_mode mode_permits all_names string_eq
writes_on_floor read_only name w m =
    absurd
      (ground (arith, all_names_sound (λ x. not (contains read_tools x)) write_tools name refl w))
writes_on_floor plan name w m =
    absurd
      (ground (arith, all_names_sound (λ x. not (contains read_tools x)) write_tools name refl w))
writes_on_floor build name w m = refl
writes_on_floor deploy name w m = refl
