-- ===== src/Config/Samples.antt =====
-- The configuration of a sharded cluster of three pods.
use hyperbytedb_operator.Prelude.{
  suc, ◌+◌, ◌%◌, ◌==◌, ◌≡◌, refl, not, ◌&&◌, Bool, true, false, List, [], ◌∷◌, none, some, All,
  arith,
}
use hyperbytedb_operator.Prelude.Int.{ℤ, pos, negsuc}
use hyperbytedb_operator.Image.{Text, codes}
use hyperbytedb_operator.Config.{
  Value, num, text, flag, Lines, Section, section, server_section, storage_section, flush_section,
  chdb_section, auth_section, cardinality_section, logging_section, statement_summary_section,
  hinted_handoff_section, rate_limit_section, retention_section,
}
use hyperbytedb_operator.Config.Spec.{string, ServerSpec, ConfigSpec}
use hyperbytedb_operator.Config.Render.{
  render_with_cluster_enabled, render_config, cluster_section, replication_sections,
  sharding_section,
}
use hyperbytedb_operator.Config.Print.{print_sections, print_config}
use hyperbytedb_operator.Config.Printed.{split, names_of, OneLine, IsOneLine, HasOneLines}
use hyperbytedb_operator.Config.Named.{Unrepeated, print_config-Unrepeated}

abbrev server : ServerSpec
server = record {
  port = pos 9000;
  max_body_size_bytes = pos 0;
  request_timeout_secs = pos 30;
  query_timeout_secs = pos 0;
  max_concurrent_queries = pos 0;
  tls_enabled = true;
}

abbrev pub spec : ConfigSpec
spec = record {
  replicas = 3;
  server = server;
  wal_format = "";
  flush = record {
    interval_secs = pos 0;
    max_points_per_batch = pos 0;
    wal_batch_size = pos 64;
    wal_batch_delay_us = pos 0;
    arrow_wal_enabled = none;
  };
  chdb = record {
    session_data_path = "";
    pool_size = pos 0;
    query_pool_size = pos 0;
    write_pool_size = pos 0;
  };
  auth_enabled = true;
  logging_level = "debug";
  logging_format = "";
  limits = record {
    max_tag_values_per_measurement = pos 0;
    max_measurements_per_database = pos 0;
    summary_enabled = none;
    summary_max_entries = pos 0;
    handoff_enabled = some false;
    max_hints_per_peer = pos 0;
    max_hint_age_secs = pos 0;
    rate_enabled = some true;
    max_requests_per_second = pos 100;
    retention_enabled = none;
    retention_interval = "6h";
  };
  cluster = record {
    heartbeat_interval_secs = pos 0;
    heartbeat_miss_threshold = pos 0;
    replication_max_retries = pos 0;
    replication_queue_depth = pos 0;
    replication_max_inflight_batches = pos 0;
    replication_max_coalesce_body_bytes = pos 0;
    replicate_receiver_queue_depth = pos 0;
    replication_truncate_stale_peer_multiplier = pos 0;
    raft_heartbeat_interval_ms = pos 500;
    raft_election_timeout_ms = pos 0;
    raft_snapshot_threshold = pos 0;
    replication =
        some (record { mode = ""; ack_timeout_ms = pos 0; min_acks = some (string "majority") });
  };
  sharding = none;
  control_listener = true;
  split_chdb_pools = true;
  auto_query_pool = true;
  supports_sharding = true;
  supports_control_listener = true;
}

abbrev is_one_line : Text → Bool
is_one_line [] = true
is_one_line (c ∷ cs) = not (c == b'\n') && is_one_line cs

is_one_line-OneLine : (t : Text) → is_one_line t ≡ true → OneLine t
is_one_line-OneLine [] h = tt
is_one_line-OneLine (c ∷ cs) h = ((λ e. ground arith), is_one_line-OneLine cs (ground arith))

abbrev one_value : Value → Bool
one_value (num n) = true
one_value (text t) = is_one_line (codes t)
one_value (flag b) = true

abbrev one_lines : Lines → Bool
one_lines [] = true
one_lines (l ∷ ls) = one_value l.1 && one_lines ls

one_value-IsOneLine : (v : Value) → one_value v ≡ true → IsOneLine v
one_value-IsOneLine (num n) h = tt
one_value-IsOneLine (text t) h = is_one_line-OneLine (codes t) h
one_value-IsOneLine (flag b) h = tt

one_lines-All : (ls : Lines) → one_lines ls ≡ true → All (λ l. IsOneLine l.1) ls
one_lines-All [] h = tt
one_lines-All (l ∷ ls) h = (one_value-IsOneLine l.1 (ground arith), one_lines-All ls (ground arith))

abbrev all_one : List Section → Bool
all_one [] = true
all_one (s ∷ ss) = one_lines s.lines && all_one ss

all_one-HasOneLines : (ss : List Section) → all_one ss ≡ true → All HasOneLines ss
all_one-HasOneLines [] h = tt
all_one-HasOneLines (s ∷ ss) h =
    (one_lines-All s.lines (ground arith), all_one-HasOneLines ss (ground arith))

-- Numbers of one digit, and a sign.
abbrev show : ℤ → Text
show (pos n) = (48 + n % 10) ∷ []
show (negsuc n) = b'-' ∷ ((48 + suc n % 10) ∷ [])

show-OneLine : (n : ℤ) → OneLine (show n)
show-OneLine (pos n) = ((λ e. omega arith), tt)
show-OneLine (negsuc n) = ((λ e. omega arith), ((λ e. omega arith), tt))

spec-OneLines : All HasOneLines (render_config spec)
unfolding render_config render_with_cluster_enabled server_section storage_section flush_section
    chdb_section auth_section cardinality_section logging_section statement_summary_section
    hinted_handoff_section rate_limit_section retention_section cluster_section replication_sections
    sharding_section
spec-OneLines = all_one-HasOneLines (render_config spec) refl

-- What the file of a section with two keys is, and what its lines name.
prints :
    print_sections show (section "a" (("b", num (pos 1)) ∷ ("c", text "x") ∷ []) ∷ [])
    ≡ codes "[a]\nb = 1\nc = \"x\"\n"
unfolding print_sections
prints = refl

names :
    names_of [] (split (codes "[a]\nb = 1\n\n[d]\nb = 2\n"))
    ≡ (codes "[a]", [])
      ∷ (codes "[a]", codes "b")
      ∷ (codes "[d]", [])
      ∷ (codes "[d]", codes "b")
      ∷ []
unfolding names_of split
names = refl

print_config-Unrepeated_example : Unrepeated (names_of [] (split (print_config show spec)))
print_config-Unrepeated_example = print_config-Unrepeated show spec show-OneLine spec-OneLines
