-- ===== src/Workload/Laws.antt =====
-- The pods of the StatefulSet: their mounts, their probes and control port, and what a change of the
-- replicas does to them.
use hyperbytedb_operator.Prelude.{
  ℕ, ◌≡◌, ◌↔◌, refl, sym, ap, ◌∙◌, String, Bool, true, false, ◌||◌, List, [], ◌∷◌, ◌++◌, Option,
  none, some, str_eq, is_none, not, if◌then◌else◌, Bool-cases, ◌⊎◌, inl, inr, All, All-append,
  All-map,
}
use hyperbytedb_operator.Prelude.Int.{ℤ}
use hyperbytedb_operator.Config.{
  Section, Value, num, Lines, if_positive, is_positive, server_port, control_port,
  control_listener_enabled, server_section,
}
use hyperbytedb_operator.Config.Spec.{ClusterModeSpec, ConfigSpec}
use hyperbytedb_operator.Config.Render.{
  cluster_metadata_enabled, config_hash, cluster_section, tuning_lines,
}
use hyperbytedb_operator.Workload.{Volume, VolumeMount, Ports, PodTemplate}
use hyperbytedb_operator.Workload.Database.{
  Cluster, cluster_auth_enabled, container_env, container_mounts, container_ports, control_listener,
  init_containers, liveness_probe, main_container, mount, pod_volumes, readiness_probe,
  startup_probe,
}
use hyperbytedb_operator.Workload.Template.{
  Claim, StatefulSet, build_stateful_set, data_claim, pod_affinity, pod_annotations, pod_template,
}

abbrev pub has_volume : String → List Volume → Bool
has_volume name [] = false
has_volume name (v ∷ vs) = str_eq v.name name || has_volume name vs

abbrev pub has_claim : String → List Claim → Bool
has_claim name [] = false
has_claim name (c ∷ cs) = str_eq c.name name || has_claim name cs

-- A volume of the pod, or a claim, has the name of the mount.
abbrev pub IsProvided : StatefulSet → VolumeMount → Type 0
IsProvided s m =
    (has_claim m.name s.volume_claim_templates || has_volume m.name s.template.volumes) ≡ true

or-true_right : (a : Bool) → (a || true) ≡ true
or-true_right true = refl
or-true_right false = refl

has_volume-append :
    (name : String) (vs ws : List Volume)
    → has_volume name ws ≡ true
    → has_volume name (vs ++ ws) ≡ true
has_volume-append name [] ws h = h
has_volume-append name (v ∷ vs) ws h = rw (has_volume-append name vs ws h) (or-true_right _)

user_mount-IsProvided :
    (c : Cluster) (hash : String) (m : VolumeMount)
    → has_volume m.name c.additional_volumes ≡ true
    → IsProvided (build_stateful_set c hash) m
unfolding build_stateful_set pod_template pod_volumes
user_mount-IsProvided c hash m h =
    simp (has_volume-append m.name _ c.additional_volumes h, or-true_right) refl

tls_mount-IsProvided :
    (c : Cluster) (hash : String)
    → All
        (IsProvided (build_stateful_set c hash))
        (if c.config.server.tls_enabled then mount "tls" "/etc/hyperbytedb/tls" true ∷ [] else [])
unfolding build_stateful_set pod_template pod_volumes
tls_mount-IsProvided c hash = elim (Bool-cases c.config.server.tls_enabled) [
  | inl b ↦ simp (b) (refl, tt)
  | inr b ↦ simp (b) tt
]

-- Where each mount that a user adds names a volume that the user adds, every mount of the database's
-- container and of the two init containers has its volume: one of the pod, or the claim of the data.
pub build_stateful_set-IsMounted :
    (c : Cluster) (hash : String)
    → All (λ m. has_volume m.name c.additional_volumes ≡ true) c.additional_volume_mounts
    → All
        (IsProvided (build_stateful_set c hash))
        (build_stateful_set c hash).template.container.volume_mounts
      × All
          (λ i. All (IsProvided (build_stateful_set c hash)) i.volume_mounts)
          (build_stateful_set c hash).template.init_containers
unfolding build_stateful_set pod_template main_container container_mounts init_containers
    pod_volumes data_claim
build_stateful_set-IsMounted c hash h =
    let user = All-map _ _ c.additional_volume_mounts (user_mount-IsProvided c hash) h in
    (
      (
        refl,
        (
          refl,
          (
            refl,
            (
              refl,
              All-append (IsProvided (build_stateful_set c hash)) _ c.additional_volume_mounts
                  (tls_mount-IsProvided c hash) user,
            ),
          ),
        ),
      ),
      ((refl, tt), ((refl, tt), tt)),
    )

abbrev pub port_of : String → Ports → Option ℤ
port_of name [] = none
port_of name ((n, p) ∷ ps) = if str_eq n name then some p else port_of name ps

abbrev pub line_of : String → Lines → Option Value
line_of key [] = none
line_of key ((k, v) ∷ ls) = if str_eq k key then some v else line_of key ls

-- The port that the configuration file gives the control listener, if any.
abbrev configured_control_port : ConfigSpec → Option Value
configured_control_port s =
    line_of "control_port" (cluster_section s (cluster_metadata_enabled s)).lines

if_positive-line :
    (key other : String) (n : ℤ) (rest : Lines)
    → str_eq other key ≡ false
    → line_of key (if_positive other n ++ rest) ≡ line_of key rest
if_positive-line key other n rest h = elim (Bool-cases (is_positive n)) [
  | inl b ↦ rw (b, h) refl
  | inr b ↦ rw b refl
]

tuning-control_port : (s : ClusterModeSpec) → line_of "control_port" (tuning_lines s) ≡ none
unfolding tuning_lines
tuning-control_port s =
    if_positive-line "control_port" "raft_heartbeat_interval_ms" s.raft_heartbeat_interval_ms _ refl
    ∙ if_positive-line "control_port" "raft_election_timeout_ms" s.raft_election_timeout_ms _ refl
    ∙ last (Bool-cases (is_positive s.raft_snapshot_threshold))
  where
    last :
        (is_positive s.raft_snapshot_threshold ≡ true)
          ⊎ (is_positive s.raft_snapshot_threshold ≡ false)
        → line_of "control_port" (if_positive "raft_snapshot_threshold" s.raft_snapshot_threshold)
          ≡ none
    last (inl b) = rw b refl
    last (inr b) = rw b refl

-- The kubelet asks a port that the container has, and the same one that the configuration has the
-- database serve: the liveness probe goes to the control port if its section of the cluster has one, in
-- plain HTTP, and else to the port in its section of the server; the readiness probe goes to that port.
pub build_stateful_set-IsProbed :
    (c : Cluster) (hash : String)
    → let s = c.config in
      let container = (build_stateful_set c hash).template.container in
      (port_of container.liveness_probe.port container.ports
        ≡ some (if control_listener s then control_port s.server else server_port s.server))
      × (line_of "control_port" (cluster_section s (cluster_metadata_enabled s)).lines
          ≡ (if control_listener s then some (num (control_port s.server)) else none))
      × (line_of "port" (server_section s.server).lines ≡ some (num (server_port s.server)))
      × (port_of container.readiness_probe.port container.ports ≡ some (server_port s.server))
      × (container.liveness_probe.https
          ≡ (if control_listener s then false else s.server.tls_enabled))
unfolding build_stateful_set pod_template main_container container_ports liveness_probe
    readiness_probe cluster_section server_section
build_stateful_set-IsProbed c hash = elim (Bool-cases (control_listener c.config)) [
  | inl b ↦ simp (b) (refl, refl, refl, refl, refl)
  | inr b ↦ simp (b, tuning-control_port) (refl, refl, refl, refl, refl)
]

abbrev pub with_replicas : Cluster → ℕ → Cluster
with_replicas c n = record c { config = record c.config { replicas = n } }

-- whether the cluster mode is on
abbrev pub mode : Cluster → Bool
mode c = cluster_metadata_enabled c.config

abbrev pub template_of : (digest : List Section → String) → Cluster → PodTemplate
template_of digest c = (build_stateful_set c (config_hash digest c.config)).template

same_mode-affinity :
    (c : Cluster) (n : ℕ) (user : Option String)
    → mode (with_replicas c n) ≡ mode c
    → pod_affinity (with_replicas c n) user ≡ pod_affinity c user
unfolding pod_affinity
same_mode-affinity c n (some a) h = refl
same_mode-affinity c n none h = rw h refl

same_mode-template :
    (digest : List Section → String) (c : Cluster) (n : ℕ)
    → mode (with_replicas c n) ≡ mode c
    → template_of digest (with_replicas c n) ≡ template_of digest c
unfolding build_stateful_set pod_template main_container container_ports container_env
    cluster_auth_enabled container_mounts init_containers pod_volumes pod_annotations liveness_probe
    readiness_probe startup_probe control_listener_enabled config_hash
same_mode-template digest c n h = simp (h, same_mode-affinity c n c.affinity h) refl

not_injective : (a b : Bool) → not a ≡ not b → a ≡ b
not_injective true true h = refl
not_injective true false h = sym h
not_injective false true h = sym h
not_injective false false h = refl

-- only a pod of a cluster drains before it stops
template-mode :
    (digest : List Section → String) (c : Cluster)
    → is_none (template_of digest c).container.pre_stop ≡ not (mode c)
unfolding build_stateful_set pod_template main_container
template-mode digest c = elim (Bool-cases (mode c)) [
  | inl b ↦ simp (b) refl
  | inr b ↦ simp (b) refl
]

-- A change of the replicas changes the pod template, and so restarts the pods, exactly if it turns the
-- cluster mode on or off: not from one number above 1 to another, and not with sharding on.
pub build_stateful_set-replicas :
    (digest : List Section → String) (c : Cluster) (n : ℕ)
    → (template_of digest (with_replicas c n) ≡ template_of digest c)
      ↔ (mode (with_replicas c n) ≡ mode c)
build_stateful_set-replicas digest c n = (
  λ e. not_injective _ _ (
      sym (template-mode digest (with_replicas c n))
      ∙ ap (λ t. is_none t.container.pre_stop) e
      ∙ template-mode digest c),
  same_mode-template digest c n,
)
