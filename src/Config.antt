-- ===== src/Config.antt =====
-- config.toml as internal/hyperbytedb/configmap.go renders it: sections in order, each with its lines.
-- Print has how they are printed.
pub mod Spec
pub mod Render
mod Print
mod Printed
mod Distinct
mod Keys
mod Unique
mod Laws
mod Named
pub mod Samples
use hyperbytedb_operator.Prelude.{
  ℕ, suc, String, Bool, true, false, not, ◌&&◌, ◌||◌, List, [], ◌∷◌, ◌++◌, map, Option, none, some,
  ltb, str_eq, is_none, if◌then◌else◌,
}
use hyperbytedb_operator.Prelude.Int.{ℤ, pos, negsuc, pos_part, ltb_ℤ, eqb_ℤ}
use hyperbytedb_operator.Config.Spec.{
  ServerSpec, FlushSpec, ChdbSpec, LimitsSpec, IntOrString, int, string, ReplicationSpec,
  ClusterModeSpec, ShardingSpec, ConfigSpec,
}

-- A value is printed with %d, between quotes, or with %t.
pub data Value : Type 0 where
  num : ℤ → Value
  text : String → Value
  flag : Bool → Value

pub record Section : Type 0 where
  pub name : String
  pub lines : List (String × Value)

abbrev pub Lines : Type 0
Lines = List (String × Value)

abbrev pub line : String → Value → Lines
line key value = (key, value) ∷ []

abbrev pub is_positive : ℤ → Bool
is_positive n = ltb_ℤ (pos 0) n

-- The field, if it is set, and else the default.
abbrev pub or_int : ℤ → ℤ → ℤ
or_int n default_value = if is_positive n then n else default_value

abbrev pub or_text : String → String → String
or_text s default_value = if str_eq s "" then default_value else s

abbrev pub or_flag : Option Bool → Bool → Bool
or_flag none default_value = default_value
or_flag (some b) default_value = b

-- Lines that are written only where the field is set.
abbrev pub if_positive : String → ℤ → Lines
if_positive key n = if is_positive n then line key (num n) else []

abbrev pub if_flag : String → Option Bool → Lines
if_flag key none = []
if_flag key (some b) = line key (flag b)

abbrev pub section : String → Lines → Section
section name lines = record { name = name; lines = lines }

-- ServerPort, ControlPort and ControlListenerEnabled of internal/hyperbytedb/service.go
unfoldable pub server_port : ServerSpec → ℤ
server_port s = or_int s.port (pos 8086)

-- The schema keeps a port below 2 ^ 16, so that the sum does not wrap.
unfoldable pub control_port : ServerSpec → ℤ
unfolding server_port
control_port s = pos (suc (pos_part (server_port s)))

unfoldable pub control_listener_enabled : ConfigSpec → Bool → Bool
control_listener_enabled s cluster_enabled =
    cluster_enabled && s.control_listener && s.supports_control_listener

unfoldable pub server_section : ServerSpec → Section
unfolding server_port
server_section s = section "server" (
    line "bind_address" (text "0.0.0.0")
    ++ (line "port" (num (server_port s))
        ++ (if_positive "max_body_size_bytes" s.max_body_size_bytes
            ++ (if_positive "request_timeout_secs" s.request_timeout_secs
                ++ (if_positive "query_timeout_secs" s.query_timeout_secs
                    ++ (if_positive "max_concurrent_queries" s.max_concurrent_queries
                        ++ (if s.tls_enabled
                            then ("tls_enabled", flag true)
                              ∷ ("tls_cert_path", text "/etc/hyperbytedb/tls/tls.crt")
                              ∷ ("tls_key_path", text "/etc/hyperbytedb/tls/tls.key")
                              ∷ []
                            else [])))))))

unfoldable pub storage_section : ConfigSpec → Section
storage_section s = section "storage" (
    ("wal_dir", text "/var/lib/hyperbytedb/wal")
    ∷ ("meta_dir", text "/var/lib/hyperbytedb/meta")
    ∷ ("wal_format", text (or_text s.wal_format "bincode"))
    ∷ [])

unfoldable pub flush_section : FlushSpec → Section
flush_section s = section "flush" (
    ("interval_secs", num (or_int s.interval_secs (pos 10)))
    ∷ ("max_points_per_batch", num (or_int s.max_points_per_batch (pos 50000)))
    ∷ (if_positive "wal_batch_size" s.wal_batch_size
        ++ (if_positive "wal_batch_delay_us" s.wal_batch_delay_us
            ++ line "arrow_wal_enabled" (flag (or_flag s.arrow_wal_enabled true)))))

-- Where the database has one pool for both.
unfoldable pub single_pool : ChdbSpec → ℤ
single_pool s = or_int s.pool_size (or_int s.query_pool_size (pos 1))

unfoldable pub default_pools : Bool → ChdbSpec → Lines
default_pools auto_query_pool s =
    if is_positive s.query_pool_size || is_positive s.write_pool_size
    then []
    else if is_positive s.pool_size
    then line "pool_size" (num s.pool_size)
    else if auto_query_pool
    then line "write_pool_size" (num (pos 1))
    else line "pool_size" (num (pos 1))

unfoldable pub pools : Bool → Bool → ChdbSpec → Lines
unfolding single_pool default_pools
pools split auto_query_pool s =
    if not split
    then line "pool_size" (num (single_pool s))
    else if_positive "query_pool_size" s.query_pool_size
      ++ (if_positive "write_pool_size" s.write_pool_size ++ default_pools auto_query_pool s)

unfoldable pub chdb_section : ConfigSpec → Section
unfolding pools
chdb_section s = section "chdb" (
    ("session_data_path", text (or_text s.chdb.session_data_path "/var/lib/hyperbytedb/chdb"))
    ∷ pools s.split_chdb_pools s.auto_query_pool s.chdb)

unfoldable pub auth_section : ConfigSpec → Section
auth_section s = section "auth" (line "enabled" (flag s.auth_enabled))

unfoldable pub cardinality_section : LimitsSpec → Section
cardinality_section s = section "cardinality" (
    ("max_tag_values_per_measurement", num (or_int s.max_tag_values_per_measurement (pos 100000)))
    ∷ ("max_measurements_per_database", num (or_int s.max_measurements_per_database (pos 10000)))
    ∷ [])

unfoldable pub logging_section : ConfigSpec → Section
logging_section s = section "logging" (
    ("level", text (or_text s.logging_level "info"))
    ∷ ("format", text (or_text s.logging_format "text"))
    ∷ [])

unfoldable pub statement_summary_section : LimitsSpec → Section
statement_summary_section s = section "statement_summary" (
    ("enabled", flag (or_flag s.summary_enabled true))
    ∷ ("max_entries", num (or_int s.summary_max_entries (pos 1000)))
    ∷ [])

unfoldable pub hinted_handoff_section : LimitsSpec → Section
hinted_handoff_section s = section "hinted_handoff" (
    ("enabled", flag (or_flag s.handoff_enabled true))
    ∷ ("max_hints_per_peer", num (or_int s.max_hints_per_peer (pos 100000)))
    ∷ ("max_hint_age_secs", num (or_int s.max_hint_age_secs (pos 3600)))
    ∷ [])

-- A section that may be left out is a list of at most one.
unfoldable pub rate_limit_section : LimitsSpec → List Section
rate_limit_section s =
    if is_none s.rate_enabled && eqb_ℤ s.max_requests_per_second (pos 0)
    then []
    else section "rate_limit" (
        if_flag "enabled" s.rate_enabled
        ++ if_positive "max_requests_per_second" s.max_requests_per_second)
      ∷ []

unfoldable pub retention_section : LimitsSpec → Section
retention_section s = section "retention" (
    ("enabled", flag (or_flag s.retention_enabled true))
    ∷ ("interval", text (or_text s.retention_interval "12h"))
    ∷ [])
