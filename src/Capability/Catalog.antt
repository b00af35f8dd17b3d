-- ===== src/Capability/Catalog.antt =====
-- The catalog names of the capability kinds.
use einsof.Prelude.{String, some, string_eq, ◌≡◌, ◌↔◌, refl, subst, arith, eq-cases}
use einsof.Capability.{
  CapKind, as_str, from_catalog_name, filesystem_read, filesystem_write, filesystem_delete,
  network_egress, network_ingress, execution_shell, execution_code, credentials, system_info,
  system_modify, clipboard, browser_navigate, database_read, database_write, ipc,
}

from_catalog_name-as_str : (c : CapKind) → from_catalog_name (as_str c) ≡ some c
unfolding from_catalog_name as_str
from_catalog_name-as_str filesystem_read = refl
from_catalog_name-as_str filesystem_write = refl
from_catalog_name-as_str filesystem_delete = refl
from_catalog_name-as_str network_egress = refl
from_catalog_name-as_str network_ingress = refl
from_catalog_name-as_str execution_shell = refl
from_catalog_name-as_str execution_code = refl
from_catalog_name-as_str credentials = refl
from_catalog_name-as_str system_info = refl
from_catalog_name-as_str system_modify = refl
from_catalog_name-as_str clipboard = refl
from_catalog_name-as_str browser_navigate = refl
from_catalog_name-as_str database_read = refl
from_catalog_name-as_str database_write = refl
from_catalog_name-as_str ipc = refl

as_str-from_catalog_name : (n : String) (c : CapKind) → from_catalog_name n ≡ some c → as_str c ≡ n
unfolding from_catalog_name as_str
as_str-from_catalog_name n c h = ground (
  arith,
  eq-cases n "filesystem_read",
  eq-cases n "filesystem_write",
  eq-cases n "filesystem_delete",
  eq-cases n "network_egress",
  eq-cases n "network_ingress",
  eq-cases n "execution_shell",
  eq-cases n "execution_code",
  eq-cases n "credentials",
  eq-cases n "system_info",
  eq-cases n "system_modify",
  eq-cases n "clipboard",
  eq-cases n "browser_navigate",
  eq-cases n "database_read",
  eq-cases n "database_write",
  eq-cases n "ipc",
)

-- A name is read as a capability kind exactly when it is the kind's own catalog name.
pub from_catalog_name_iff :
    (n : String) (c : CapKind) → (from_catalog_name n ≡ some c) ↔ (as_str c ≡ n)
from_catalog_name_iff n c = (
  as_str-from_catalog_name n c,
  λ e. subst (λ m. from_catalog_name m ≡ some c) e (from_catalog_name-as_str c),
)
