-- ===== src/Config/Keys.antt =====
-- The keys of the sections of config.toml on the storage and the limits.
use hyperbytedb_operator.Prelude.{
  ◌≡◌, refl, String, Bool, true, false, List, [], ◌∷◌, Bool-cases, inl, inr,
}
use hyperbytedb_operator.Config.Spec.{ServerSpec, FlushSpec, ChdbSpec, LimitsSpec, ConfigSpec}
use hyperbytedb_operator.Config.{
  Section, is_positive, server_section, storage_section, flush_section, pools, chdb_section,
  auth_section, cardinality_section, logging_section, statement_summary_section,
  hinted_handoff_section, retention_section,
}
use hyperbytedb_operator.Config.Distinct.{
  Draws, nil, skip, take, IsNamed, are_usable, Draws-IsNamed, line_key, skip_all-nil,
  draw-if_positive, draw-if,
}

-- A section in which no key is written twice, and every key is a name.
abbrev pub HasDistinctKeys : Section → Type 0
HasDistinctKeys s = IsNamed line_key s.lines

pub by_keys :
    (keys : List String) (s : Section)
    → Draws line_key keys s.lines
    → are_usable keys ≡ true
    → HasDistinctKeys s
by_keys keys s d h = Draws-IsNamed line_key d h

pub server-HasDistinctKeys : (s : ServerSpec) → HasDistinctKeys (server_section s)
unfolding server_section
server-HasDistinctKeys s =
    by_keys
      ("bind_address" ∷ "port" ∷ "max_body_size_bytes" ∷ "request_timeout_secs"
        ∷ "query_timeout_secs" ∷ "max_concurrent_queries" ∷ "tls_enabled" ∷ "tls_cert_path"
        ∷ "tls_key_path" ∷ [])
      (server_section s)
      (take refl (
        take refl (
          draw-if_positive "max_body_size_bytes"
            (draw-if_positive "request_timeout_secs"
              (draw-if_positive "query_timeout_secs"
                (draw-if_positive "max_concurrent_queries"
                  (draw-if s.tls_enabled _ _ (take refl (take refl (take refl nil))) skip_all-nil)
                  s.max_concurrent_queries)
                s.query_timeout_secs)
              s.request_timeout_secs)
            s.max_body_size_bytes)))
      refl

pub storage-HasDistinctKeys : (s : ConfigSpec) → HasDistinctKeys (storage_section s)
unfolding storage_section
storage-HasDistinctKeys s =
    by_keys ("wal_dir" ∷ "meta_dir" ∷ "wal_format" ∷ []) (storage_section s)
      (take refl (take refl (take refl nil))) refl

pub flush-HasDistinctKeys : (s : FlushSpec) → HasDistinctKeys (flush_section s)
unfolding flush_section
flush-HasDistinctKeys s =
    by_keys
      ("interval_secs" ∷ "max_points_per_batch" ∷ "wal_batch_size" ∷ "wal_batch_delay_us"
        ∷ "arrow_wal_enabled" ∷ [])
      (flush_section s)
      (take refl (
        take refl (
          draw-if_positive "wal_batch_size"
            (draw-if_positive "wal_batch_delay_us" (take refl nil) s.wal_batch_delay_us)
            s.wal_batch_size)))
      refl

pools-Draws :
    (split auto_query_pool : Bool) (s : ChdbSpec)
    → Draws line_key
        ("query_pool_size" ∷ "write_pool_size" ∷ "pool_size" ∷ [])
        (pools split auto_query_pool s)
unfolding pools
pools-Draws false auto_query_pool s = skip (skip (take refl nil))
pools-Draws true auto_query_pool s = elim (Bool-cases (is_positive s.query_pool_size)) [
  | inl b ↦ rw b (take refl (draw-if_positive "write_pool_size" skip_all-nil s.write_pool_size))
  | inr b ↦ elim (Bool-cases (is_positive s.write_pool_size)) [
    | inl k ↦ rw (b, k) (skip (take refl (skip nil)))
    | inr k ↦
        rw (b, k)
          (draw-if (is_positive s.pool_size) _ _ (skip (skip (take refl nil))) (
            draw-if auto_query_pool _ _ (skip (take refl (skip nil)))
              (skip (skip (take refl nil)))))
  ]
]

pub chdb-HasDistinctKeys : (s : ConfigSpec) → HasDistinctKeys (chdb_section s)
unfolding chdb_section
chdb-HasDistinctKeys s =
    by_keys ("session_data_path" ∷ "query_pool_size" ∷ "write_pool_size" ∷ "pool_size" ∷ [])
      (chdb_section s) (take refl (pools-Draws s.split_chdb_pools s.auto_query_pool s.chdb)) refl

pub auth-HasDistinctKeys : (s : ConfigSpec) → HasDistinctKeys (auth_section s)
unfolding auth_section
auth-HasDistinctKeys s = by_keys ("enabled" ∷ []) (auth_section s) (take refl nil) refl

pub cardinality-HasDistinctKeys : (s : LimitsSpec) → HasDistinctKeys (cardinality_section s)
unfolding cardinality_section
cardinality-HasDistinctKeys s =
    by_keys ("max_tag_values_per_measurement" ∷ "max_measurements_per_database" ∷ [])
      (cardinality_section s) (take refl (take refl nil)) refl

pub logging-HasDistinctKeys : (s : ConfigSpec) → HasDistinctKeys (logging_section s)
unfolding logging_section
logging-HasDistinctKeys s =
    by_keys ("level" ∷ "format" ∷ []) (logging_section s) (take refl (take refl nil)) refl

pub statement_summary-HasDistinctKeys :
    (s : LimitsSpec) → HasDistinctKeys (statement_summary_section s)
unfolding statement_summary_section
statement_summary-HasDistinctKeys s =
    by_keys ("enabled" ∷ "max_entries" ∷ []) (statement_summary_section s)
      (take refl (take refl nil)) refl

pub hinted_handoff-HasDistinctKeys : (s : LimitsSpec) → HasDistinctKeys (hinted_handoff_section s)
unfolding hinted_handoff_section
hinted_handoff-HasDistinctKeys s =
    by_keys ("enabled" ∷ "max_hints_per_peer" ∷ "max_hint_age_secs" ∷ []) (hinted_handoff_section s)
      (take refl (take refl (take refl nil))) refl

pub retention-HasDistinctKeys : (s : LimitsSpec) → HasDistinctKeys (retention_section s)
unfolding retention_section
retention-HasDistinctKeys s =
    by_keys ("enabled" ∷ "interval" ∷ []) (retention_section s) (take refl (take refl nil)) refl
