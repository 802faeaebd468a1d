-- ===== src/Config/Laws.antt =====
-- config.toml as a whole: no section and no key twice, what a change of the replicas changes, and the
-- control port.
use hyperbytedb_operator.Prelude.{
  ℕ, suc, ◌≤◌, ◌<◌, ◌≡◌, ◌≢◌, ◌↔◌, refl, ap, ◌∙◌, String, Bool, true, false, ◌&&◌, List, [], ◌∷◌,
  ◌++◌, Option, none, some, str_eq, is_none, if◌then◌else◌, Bool-cases, inl, inr, All, arith,
}
use hyperbytedb_operator.Prelude.Int.{pos, pos_part, eqb_ℤ, ltb_ℤ}
use hyperbytedb_operator.Config.Spec.{
  ServerSpec, LimitsSpec, IntOrString, ReplicationSpec, ShardingSpec, ConfigSpec,
}
use hyperbytedb_operator.Config.{
  Section, or_int, server_port, control_port, rate_limit_section, server_section, storage_section,
  flush_section, chdb_section, auth_section, cardinality_section, logging_section,
  statement_summary_section, hinted_handoff_section, retention_section,
}
use hyperbytedb_operator.Config.Render.{
  cluster_section, sync_quorum_section, replication_sections, sharding_section,
  cluster_metadata_enabled, render_with_cluster_enabled, render_config, config_hash,
}
use hyperbytedb_operator.Config.Distinct.{
  Draws, nil, skip, take, IsNamed, Draws-IsNamed, section_key,
}
use hyperbytedb_operator.Config.Keys.{HasDistinctKeys}
use hyperbytedb_operator.Config.Unique.{render-AllDistinct}

rate_limit-Draws :
    (s : LimitsSpec) {names : List String} {rest : List Section}
    → Draws section_key names rest
    → Draws section_key ("rate_limit" ∷ names) (rate_limit_section s ++ rest)
unfolding rate_limit_section
rate_limit-Draws s d =
    elim (Bool-cases (is_none s.rate_enabled && eqb_ℤ s.max_requests_per_second (pos 0))) [
      | inl b ↦ rw b (skip d)
      | inr b ↦ rw b (take refl d)
    ]

sync_quorum-Draws :
    (o : Option IntOrString) {names : List String} {rest : List Section}
    → Draws section_key names rest
    → Draws section_key ("cluster.replication.sync_quorum" ∷ names) (sync_quorum_section o ++ rest)
unfolding sync_quorum_section
sync_quorum-Draws none d = skip d
sync_quorum-Draws (some acks) d = take refl d

replication-Draws :
    (o : Option ReplicationSpec) {names : List String} {rest : List Section}
    → Draws section_key names rest
    → Draws section_key
        ("cluster.replication" ∷ "cluster.replication.sync_quorum" ∷ names)
        (replication_sections o ++ rest)
unfolding replication_sections
replication-Draws none d = skip (skip d)
replication-Draws (some r) d = take refl (sync_quorum-Draws r.min_acks d)

sharding-Draws :
    (supported : Bool) (o : Option ShardingSpec)
    → Draws section_key ("sharding" ∷ []) (sharding_section supported o)
unfolding sharding_section
sharding-Draws supported none = skip nil
sharding-Draws true (some s) = take refl nil
sharding-Draws false (some s) = skip nil

abbrev section_names : List String
section_names =
    "server" ∷ "storage" ∷ "flush" ∷ "chdb" ∷ "auth" ∷ "cardinality" ∷ "logging"
    ∷ "statement_summary" ∷ "hinted_handoff" ∷ "rate_limit" ∷ "retention" ∷ "cluster"
    ∷ "cluster.replication" ∷ "cluster.replication.sync_quorum" ∷ "sharding" ∷ []

render-Draws :
    (s : ConfigSpec) (cluster_enabled : Bool)
    → Draws section_key section_names (render_with_cluster_enabled s cluster_enabled)
unfolding render_with_cluster_enabled server_section storage_section flush_section chdb_section
    auth_section cardinality_section logging_section statement_summary_section
    hinted_handoff_section retention_section cluster_section
render-Draws s cluster_enabled = take refl (
    take refl (
      take refl (
        take refl (
          take refl (
            take refl (
              take refl (
                take refl (
                  take refl (
                    rate_limit-Draws s.limits (
                      take refl (
                        take refl (
                          replication-Draws s.cluster.replication
                            (sharding-Draws s.supports_sharding s.sharding)))))))))))))

-- Before they are printed, no two sections have one name, in no section two lines have one key, and each
-- of these is a name that can be printed.
pub render_with_cluster_enabled-IsNamed :
    (s : ConfigSpec) (cluster_enabled : Bool)
    → IsNamed section_key (render_with_cluster_enabled s cluster_enabled)
      × All HasDistinctKeys (render_with_cluster_enabled s cluster_enabled)
render_with_cluster_enabled-IsNamed s cluster_enabled = (
  Draws-IsNamed section_key (render-Draws s cluster_enabled) refl,
  render-AllDistinct s cluster_enabled,
)

-- The sections other than that of a name.
abbrev pub without : String → List Section → List Section
without name [] = []
without name (s ∷ ss) = let rest = without name ss in if str_eq s.name name then rest else s ∷ rest

without-append :
    (name : String) (xs ys : List Section)
    → without name (xs ++ ys) ≡ without name xs ++ without name ys
without-append name [] ys = refl
without-append name (x ∷ xs) ys = elim (Bool-cases (str_eq x.name name)) [
  | inl b ↦ rw b (without-append name xs ys)
  | inr b ↦ rw b (ap (λ l. x ∷ l) (without-append name xs ys))
]

render-without :
    (s : ConfigSpec) (a b : Bool)
    → without "cluster" (render_with_cluster_enabled s a)
      ≡ without "cluster" (render_with_cluster_enabled s b)
unfolding render_with_cluster_enabled server_section storage_section flush_section chdb_section
    auth_section cardinality_section logging_section statement_summary_section
    hinted_handoff_section retention_section cluster_section
render-without s a b = simp (without-append) refl

-- A change of the replicas changes neither the configuration's hash, which restarts the pods, nor any
-- section of the configuration but that of the cluster.
pub render_config-replicas :
    (digest : List Section → String) (s : ConfigSpec) (n : ℕ)
    → (config_hash digest (record s { replicas = n }) ≡ config_hash digest s)
      × (without "cluster" (render_config (record s { replicas = n }))
          ≡ without "cluster" (render_config s))
unfolding config_hash render_config
render_config-replicas digest s n = (
  refl,
  render-without s (cluster_metadata_enabled (record s { replicas = n }))
      (cluster_metadata_enabled s),
)

server_port-pos : (s : ServerSpec) (p : ℕ) → s.port ≡ pos p → 0 < p → server_port s ≡ pos p
unfolding server_port
server_port-pos s p e lo =
    let positive : ltb_ℤ (pos 0) (pos p) ≡ true = ground arith in
    ap (λ n. or_int n (pos 8086)) e ∙ ap (λ b. if b then pos p else pos 8086) positive

-- For every port that the schema admits the control port is the one above it. It is a port too, unless
-- the port is 65535: then it is 65536.
pub control_port_bounds :
    (s : ServerSpec) (p : ℕ)
    → s.port ≡ pos p
    → 0 < p
    → p ≤ 65535
    → (server_port s ≡ pos p)
      × (control_port s ≡ pos (suc p))
      × ((pos_part (control_port s) ≤ 65535) ↔ (p ≢ 65535))
unfolding control_port
control_port_bounds s p e lo hi =
    let port = server_port-pos s p e lo in
    let at : pos_part (server_port s) ≡ p = ap pos_part port in
    (port, ap (λ n. pos (suc n)) at, (λ h k. omega arith, λ h. omega arith))
