-- ===== src/Lib.antt =====
-- A model of the HyperbyteDB operator: the Kubernetes controllers that run clusters of the HyperbyteDB
-- database, with their backups and restores, and the theorems on it.
--
-- The program. The cluster controller (internal/controller/hyperbytedbcluster_controller.go)
-- reconciles one HyperbytedbCluster: a StatefulSet of database pods, and proxies in front of them. In
-- a pass it shrinks the cluster behind a gate, drives a rolling restart pod by pod, adds pods to the
-- Raft membership, collects the members' status and fails over unhealthy pods. The backup and the
-- restore controller drive jobs that copy data to and from S3. The webhook defaults and validates the
-- clusters that users write. All of the state is in the API server's objects: a pass reads them, makes
-- calls, and stores a status for the next pass.
--
-- The shape of the models. A `World` holds what a pass meets: the time, and the answer to each read
-- and to each call, as functions, so that the theorems are about all answers. A handler that changes
-- something is a step `Exec S A` on a `Pass` (Prelude/Outcome.antt): the status in memory, the status
-- that the API server has stored, and the calls made, in order. Errors are values of `Failure`, with
-- the kinds that the controllers tell apart. A function of Go that is long has its branches as
-- functions of their own, in the order of the source.
--
--   Kube.antt: pods and StatefulSets, with isPodReady and proxyRunning.
--   Ordinals.antt: the loops over a StatefulSet's ordinals.
--   Rolling/: reconcileRollingRestart and the functions below it. State has the data, Handlers the
--     handlers of the phases with releaseOrdinal and forEachRunningProxy, Coordinate the coordination.
--     Position has the abstract restart; Partition, Patched, Release, Lands, Refines, Advance, Ends,
--     Seen and Order have proofs, and Fans, Told, Phases and Handover those on what the proxies are
--     told. Answered has a pass with the client of Client/Requests.antt in place of the proxies' answers.
--   ScaleDown/: Plan has departurePlan and departingNodeAction, Hooks has runScaleDownClusterHooks,
--     removeDepartedVoters and raftLeaderHost, Stuck has deleteStuckDepartedPods. PlanLaws, Probing,
--     HookLaws, Held and Swept have proofs.
--   Membership.antt: reconcileClusterMembership and findLeader.
--   Failover.antt: handleAutoFailover.
--   Replication.antt: monitorReplicationHealth.
--   Resources.antt, Resources/Proxy.antt: the other objects of a cluster: reconcileTLS,
--     reconcileAuthSecret with FillAuthSecret of internal/hyperbytedb/auth.go, reconcileConfigMap,
--     reconcileService, reconcilePDB, reconcileHPA, reconcileServiceMonitor and reconcileProxy. What a
--     sequence of calls makes of an object is `stored` in Resources/Laws.antt.
--   Cluster/: Reconcile itself. State has the status and the calls of a whole pass, Apply has
--     reconcileStatefulSet, Finish the end of a pass with updateStatus, and Reconcile the steps in the
--     order of the source; each runs the model of the component it calls. A step is a `Flow`, the rest
--     of a pass. Rules, Effects, Outcomes, Going, Stages and Passes have the proofs, step by step.
--     Assembled makes the cluster of a pass from the builders below, and Scaling has a pass over it.
--   Image.antt, Image/Versions.antt: internal/hyperbytedb/image.go and internal/hyperbytedb/compat.go,
--     over texts as lists of code points. The semver library is a parameter.
--   Workload/: the pods. Database and Template have BuildStatefulSet of internal/hyperbytedb/statefulset.go,
--     Hook what the script of its preStop hook does, and Proxies BuildProxyDeployment of
--     internal/hyperbytedb/proxy.go.
--   Services.antt: the Services and the labels of the pods, of internal/hyperbytedb/service.go,
--     internal/hyperbytedb/labels.go and internal/hyperbytedb/proxy.go; Services/Monitor.antt has the
--     ServiceMonitor of internal/hyperbytedb/servicemonitor.go.
--   Certificates.antt: the self-signed certificate of internal/hyperbytedb/tls.go with the names of the
--     pods, over the crypto libraries as parameters.
--   Config.antt, Config/Render.antt: config.toml as internal/hyperbytedb/configmap.go writes it, a list of
--     sections with lines, and Config/Print.antt how they are printed; Config/Spec.antt has the fields that
--     it is made of.
--   Members.antt: internal/hyperbytedb/member.go.
--   Client.antt, Client/Requests.antt: internal/hyperbytedb/client.go: how answers are read, and the methods
--     with their requests.
--   Volumes.antt: internal/hyperbytedb/pvc.go.
--   Webhook.antt: api/v1alpha1/hyperbytedbcluster_webhook.go.
--   Transfer/: backups in S3, of internal/controller/s3_transfer.go. Scripts has what the scripts do to the
--     folders under the prefix, Jobs the pods of the backup and restore jobs.
--   Backup.antt and Restore.antt: internal/controller/hyperbytedbbackup_controller.go and
--     internal/controller/hyperbytedbrestore_controller.go.
--
-- Each component has its laws in modules below it, and runs at concrete inputs in its Samples.
--
-- Numbers. Times and durations are natural numbers of nanoseconds. Counts that Kubernetes keeps
-- non-negative (replicas, ordinals, ready pods) are natural numbers; fields that a user writes are
-- integers. Sums of replicas and of times stay far below 2 ^ 31 and 2 ^ 63, so that no wrap-around is
-- written out for them; the file counts of the replication monitoring have theirs. Every loop is
-- structural, over a list or a count: there is no fuel.
--
-- Not modelled: events, logs and message texts; the metadata of the Kubernetes objects, but for the
-- labels that select something; SetControllerReference, which is taken to succeed; the setup of the
-- manager (cmd/main.go, flags and glue), and the generated deep copies.
-- The API server, the database, the proxies, HTTP and JSON are parameters. A failed update of a status
-- is modelled as one that stores nothing.
pub mod Prelude
pub mod Image
pub mod Kube
pub mod Ordinals
pub mod Rolling
pub mod ScaleDown
pub mod Certificates
pub mod Client
pub mod Config
pub mod Cluster
pub mod Members
pub mod Membership
pub mod Failover
pub mod Transfer
pub mod Volumes
pub mod Workload
pub mod Webhook
pub mod Backup
pub mod Replication
pub mod Resources
pub mod Restore
pub mod Services
