-- ===== src/Capability.antt =====
-- The capability taxonomy: phylax/analysis/capability.py.
pub mod Index
use phylax_subnet.Prelude.{
  ℕ, ◌≡◌, Bool, true, false, ◌&&◌, ◌||◌, String, Option, none, some, List, [], ◌∷◌, ◌++◌, map, ◌==◌,
  if◌then◌else◌, Dict, get, keep, any,
}
use phylax_subnet.Prelude.Text.{Text, codes, same}
use phylax_subnet.Number.{Float, nought, max}

pub data ProtectionLevel : Type 0 where
  normal dangerous system redact : ProtectionLevel

pub data CapabilityGroup : Type 0 where
  filesystem process_execution network secrets_credentials database cryptography_keys system_host
        context_reasoning agent_tooling source_repository mcp_protocol supply_chain :
      CapabilityGroup

pub CapabilityGroup-discrete : Discrete CapabilityGroup
CapabilityGroup-discrete = hlevel

unfoldable pub same_group : CapabilityGroup → CapabilityGroup → Bool
unfolding CapabilityGroup-discrete
same_group a b = elim (CapabilityGroup-discrete a b) [ yes _ ↦ true | no _ ↦ false ]

pub record Permission : Type 0 where
  pub name : String
  pub group : CapabilityGroup
  pub protection : ProtectionLevel

abbrev permission : CapabilityGroup → String × ProtectionLevel → Permission
permission g (n, p) = record { name = n; group = g; protection = p }

-- The permissions of each group.
unfoldable pub permissions_of : CapabilityGroup → List (String × ProtectionLevel)
permissions_of filesystem =
    ("READ_FILE", normal)
    ∷ ("LIST_DIRECTORY", normal)
    ∷ ("WRITE_FILE", dangerous)
    ∷ ("DELETE_FILE", dangerous)
    ∷ []
permissions_of process_execution =
    ("START_REPL", dangerous)
    ∷ ("CREATE_PROCESS", dangerous)
    ∷ ("EXEC_SHELL", dangerous)
    ∷ ("RUN_CONTAINER", dangerous)
    ∷ []
permissions_of network =
    ("RESOLVE_DNS", normal)
    ∷ ("FETCH_WEB", normal)
    ∷ ("POST_WEB", dangerous)
    ∷ ("CALL_EXTERNAL_API", dangerous)
    ∷ ("OPEN_SOCKET", dangerous)
    ∷ []
permissions_of secrets_credentials =
    ("READ_SECRETS", redact)
    ∷ ("WRITE_SECRETS", redact)
    ∷ ("READ_KEYCHAIN", redact)
    ∷ ("READ_ENV_SECRETS", redact)
    ∷ []
permissions_of database =
    ("DB_CONNECT", normal)
    ∷ ("DB_READ", dangerous)
    ∷ ("DB_WRITE", dangerous)
    ∷ ("DB_EXPORT", redact)
    ∷ []
permissions_of cryptography_keys =
    ("ENCRYPT_DATA", normal)
    ∷ ("SIGN_DATA", dangerous)
    ∷ ("READ_PRIVATE_KEY", redact)
    ∷ ("ACCESS_WALLET", redact)
    ∷ []
permissions_of system_host =
    ("SET_ENV_VAR", dangerous)
    ∷ ("WRITE_SHELL_PROFILE", system)
    ∷ ("INSTALL_PACKAGE", system)
    ∷ ("SCHEDULE_JOB", system)
    ∷ ("MODIFY_HOSTS_FILE", system)
    ∷ []
permissions_of context_reasoning =
    ("LOAD_EXTERNAL_CONTEXT", dangerous)
    ∷ ("INJECT_INSTRUCTION", system)
    ∷ ("OVERRIDE_SYSTEM_PROMPT", system)
    ∷ ("POISON_MEMORY", system)
    ∷ []
permissions_of agent_tooling =
    ("INVOKE_TOOL", normal)
    ∷ ("LOAD_CONTEXT", normal)
    ∷ ("DELEGATE_SUBAGENT", dangerous)
    ∷ ("MODIFY_POLICY", system)
    ∷ ("MODIFY_HOOKS", system)
    ∷ []
permissions_of source_repository =
    ("READ_SOURCE_HISTORY", normal)
    ∷ ("CLONE_REPOSITORY", normal)
    ∷ ("EXECUTE_SOURCE_CODE", dangerous)
    ∷ ("PUSH_COMMIT", system)
    ∷ []
permissions_of mcp_protocol =
    ("EXPOSE_TOOL", normal)
    ∷ ("TOOL_SCHEMA_MISMATCH", dangerous)
    ∷ ("TOOL_SHADOW", dangerous)
    ∷ ("MANIFEST_TAMPER", system)
    ∷ []
permissions_of supply_chain =
    ("IMPORT_SIDE_EFFECT", dangerous)
    ∷ ("TYPOSQUAT", dangerous)
    ∷ ("DEPENDENCY_CONFUSION", dangerous)
    ∷ ("INSTALL_HOOK_EXEC", system)
    ∷ ("POSTINSTALL_SCRIPT", system)
    ∷ []

abbrev pub all_groups : List CapabilityGroup
all_groups =
    filesystem ∷ process_execution ∷ network ∷ secrets_credentials ∷ database ∷ cryptography_keys
    ∷ system_host ∷ context_reasoning ∷ agent_tooling ∷ source_repository ∷ mcp_protocol
    ∷ supply_chain ∷ []

abbrev permissions_of_groups : List CapabilityGroup → List Permission
permissions_of_groups [] = []
permissions_of_groups (g ∷ gs) = map (permission g) (permissions_of g) ++ permissions_of_groups gs

unfoldable pub taxonomy : List Permission
unfolding permissions_of
taxonomy = permissions_of_groups all_groups

abbrev pub core_groups : List CapabilityGroup
core_groups =
    filesystem ∷ process_execution ∷ network ∷ secrets_credentials ∷ database ∷ cryptography_keys
    ∷ system_host ∷ context_reasoning ∷ []

unfoldable pub track_groups : Dict (List CapabilityGroup)
track_groups =
    ("skills", core_groups ++ agent_tooling ∷ source_repository ∷ [])
    ∷ ("mcp_servers", core_groups ++ agent_tooling ∷ mcp_protocol ∷ [])
    ∷ ("packages", core_groups ++ supply_chain ∷ [])
    ∷ ("repositories", [])
    ∷ []

-- `_INDEX` is built from the taxonomy in order, so of two entries of one name the later one counts.
unfoldable pub find_last : List Permission → Text → Option Permission
find_last [] name = none
find_last (p ∷ ps) name = elim (find_last ps name) [
  | some q ↦ some q
  | none ↦ if same (codes p.name) name then some p else none
]

unfoldable pub lookup : Text → Option Permission
unfolding find_last taxonomy
lookup name = find_last taxonomy name

unfoldable pub groups_for_track : String → List CapabilityGroup
unfolding track_groups
groups_for_track track = elim (get track_groups track) [ none ↦ [] | some gs ↦ gs ]

unfoldable pub is_valid_for : String → Text → Bool
unfolding lookup groups_for_track same_group
is_valid_for track name = elim (lookup name) [
  | none ↦ false
  | some p ↦ any (same_group p.group) (groups_for_track track)
]

module _ {F : Type 0} ⦃num : Float F⦄ where
  open num use {lit}

  abbrev pub severity : ProtectionLevel → F
  severity normal = lit 10 100
  severity dangerous = lit 60 100
  severity system = lit 85 100
  severity redact = lit 100 100

  unfoldable pub severity_for : Text → F
  unfolding lookup
  severity_for name = elim (lookup name) [ none ↦ nought | some p ↦ severity p.protection ]
