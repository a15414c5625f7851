-- ===== src/Permissions/Modes.antt =====
-- src/carve/core/agents/permissions/modes.py and warehouse_roles.py: the four modes, their order,
-- the clamp of a delegation, the mode of a verb, and the warehouse role of an operation.
use carve.Common.{
  ℕ, String, ◌≡◌, ◌↔◌, Bool, true, false, Option, none, some, arith, leb, ◌==◌, string_eq,
  if◌then◌else◌,
}

pub data PermissionMode : Type 0 where
  read_only plan build deploy : PermissionMode

-- the table `_ORDER`
abbrev pub rank : PermissionMode → ℕ
rank read_only = 0
rank plan = 1
rank build = 2
rank deploy = 3

unfoldable pub min_mode : PermissionMode → PermissionMode → PermissionMode
min_mode a b = if leb (rank a) (rank b) then a else b

unfoldable pub mode_permits : PermissionMode → PermissionMode → Bool
mode_permits mode required = leb (rank required) (rank mode)

-- `none` is the `KeyError` of an unknown verb.
unfoldable pub mode_for_verb : String → Option PermissionMode
mode_for_verb verb =
    if verb == "ask"
    then some read_only
    else if verb == "plan"
    then some plan
    else if verb == "build"
    then some build
    else if verb == "deploy"
    then some deploy
    else none

-- The clamp is the greatest lower bound: a mode is permitted by the clamped one exactly when both
-- the parent's mode and the capability permit it.
pub min_mode-permits :
    (a b required : PermissionMode)
    → (mode_permits (min_mode a b) required ≡ true)
      ↔ ((mode_permits a required ≡ true) × (mode_permits b required ≡ true))
unfolding min_mode mode_permits
min_mode-permits a b required = ground arith

-- A mode that permits what a wider mode requires permits what the narrower one requires.
pub mode_permits_trans :
    (a b c : PermissionMode)
    → mode_permits a b ≡ true
    → mode_permits b c ≡ true
    → mode_permits a c ≡ true
unfolding mode_permits
mode_permits_trans a b c h k = ground arith

pub data WarehouseRole : Type 0 where
  read deploy_role : WarehouseRole

-- `none` is the exception `WarehouseWriteDenied`.
unfoldable pub role_for : PermissionMode → Bool → Option WarehouseRole
unfolding mode_permits
role_for mode false = some read
role_for mode true = if mode_permits mode deploy then some deploy_role else none
