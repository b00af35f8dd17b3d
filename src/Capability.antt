-- ===== src/Capability.antt =====
-- argus/crates/argus-kernel/src/capability.rs: the capability kinds and their catalog names.
pub mod Catalog
use einsof.Prelude.{
  String, List, [], ◌∷◌, Option, none, some, PartialEq, of_discrete, ◌==◌, string_eq, if◌then◌else◌,
}

pub data CapKind : Type 0 where
  filesystem_read filesystem_write filesystem_delete network_egress network_ingress : CapKind
  execution_shell execution_code credentials system_info system_modify clipboard : CapKind
  browser_navigate database_read database_write ipc : CapKind

unfoldable pub CapKind-discrete : Discrete CapKind
CapKind-discrete = hlevel

instance abbrev pub cap_kind_eq : PartialEq CapKind
cap_kind_eq = of_discrete CapKind-discrete

-- `CapKind::ALL`.
abbrev pub all : List CapKind
all =
    filesystem_read ∷ filesystem_write ∷ filesystem_delete ∷ network_egress ∷ network_ingress
    ∷ execution_shell ∷ execution_code ∷ credentials ∷ system_info ∷ system_modify ∷ clipboard
    ∷ browser_navigate ∷ database_read ∷ database_write ∷ ipc ∷ []

unfoldable pub as_str : CapKind → String
as_str filesystem_read = "filesystem_read"
as_str filesystem_write = "filesystem_write"
as_str filesystem_delete = "filesystem_delete"
as_str network_egress = "network_egress"
as_str network_ingress = "network_ingress"
as_str execution_shell = "execution_shell"
as_str execution_code = "execution_code"
as_str credentials = "credentials"
as_str system_info = "system_info"
as_str system_modify = "system_modify"
as_str clipboard = "clipboard"
as_str browser_navigate = "browser_navigate"
as_str database_read = "database_read"
as_str database_write = "database_write"
as_str ipc = "ipc"

-- The arms of the `match`, in order.
unfoldable pub from_catalog_name : String → Option CapKind
from_catalog_name s =
    if s == "filesystem_read"
    then some filesystem_read
    else if s == "filesystem_write"
    then some filesystem_write
    else if s == "filesystem_delete"
    then some filesystem_delete
    else if s == "network_egress"
    then some network_egress
    else if s == "network_ingress"
    then some network_ingress
    else if s == "execution_shell"
    then some execution_shell
    else if s == "execution_code"
    then some execution_code
    else if s == "credentials"
    then some credentials
    else if s == "system_info"
    then some system_info
    else if s == "system_modify"
    then some system_modify
    else if s == "clipboard"
    then some clipboard
    else if s == "browser_navigate"
    then some browser_navigate
    else if s == "database_read"
    then some database_read
    else if s == "database_write"
    then some database_write
    else if s == "ipc"
    then some ipc
    else none
