-- ===== src/Nif/Limits/Bounds.antt =====
-- The bounds of ex_argus/native/argus_nif/src/limits.rs.
use einsof.Prelude.{ℕ}

abbrev pub max_opaque_utf8_bytes : ℕ
max_opaque_utf8_bytes = 1024

abbrev pub max_agents : ℕ
max_agents = 4096

abbrev pub max_parent_or_label_keys : ℕ
max_parent_or_label_keys = 4096

abbrev pub max_tools : ℕ
max_tools = 1024

abbrev pub max_pending : ℕ
max_pending = 4096

abbrev pub max_challenges : ℕ
max_challenges = 4096

abbrev pub max_crossing_grants : ℕ
max_crossing_grants = 16384

abbrev pub max_consumed_ids : ℕ
max_consumed_ids = 65536

abbrev pub max_consumed_attestations : ℕ
max_consumed_attestations = 65536

abbrev pub max_consumed_crossings : ℕ
max_consumed_crossings = 65536

abbrev pub max_retained_utf8_bytes : ℕ
max_retained_utf8_bytes = 16777216

abbrev pub max_accepted_sequence : ℕ
max_accepted_sequence = 100000

abbrev pub max_capabilities : ℕ
max_capabilities = 15

abbrev pub max_egress_kinds : ℕ
max_egress_kinds = 4

abbrev pub max_conf_levels : ℕ
max_conf_levels = 4

abbrev pub max_integ_levels : ℕ
max_integ_levels = 4
