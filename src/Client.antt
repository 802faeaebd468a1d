-- ===== src/Client.antt =====
-- The answers of the database's HTTP API as internal/hyperbytedb/client.go reads them. The transport and
-- the JSON decoder are parameters: a response is its status code and what the decoder made of its body.
-- The methods, with the requests that they send, are in Requests.
pub mod Requests
use hyperbytedb_operator.Prelude.{
  ℕ, ◌+◌, String, Bool, not, ◌&&◌, ◌||◌, List, [], ◌∷◌, Option, none, some, str_eq, ◌==◌,
  if◌then◌else◌, length, Failure, other, Result, ok, err,
}

pub record HealthStatus : Type 0 where
  pub status : String
  pub message : String
  pub node_id : ℕ
  pub state : String

-- An answered request. A body that cannot be read is an error; `decoded` is what the decoder left in
-- the value, and `valid` whether it returned no error.
pub record Response (A : Type 0) : Type 0 where
  pub code : ℕ
  pub body_error : Option Failure
  pub decoded : A
  pub valid : Bool

-- The JSON error path overwrites the status by the status code.
abbrev fallback : Response HealthStatus → HealthStatus
fallback r =
    if r.valid
    then r.decoded
    else record r.decoded { status = if r.code == 200 then "Active" else "Unhealthy" }

read_health : Option Failure → Response HealthStatus → Result HealthStatus
read_health (some e) r = err e
read_health none r =
    let hs = fallback r in
    ok (if r.code == 503 && str_eq hs.status "" then record hs { status = "Unavailable" } else hs)

-- GetNodeHealth
unfoldable pub get_node_health : Result (Response HealthStatus) → Result HealthStatus
unfolding read_health
get_node_health (err e) = err e
get_node_health (ok r) = read_health r.body_error r

pub record NodeInfo : Type 0 where
  pub node_id : ℕ
  pub addr : String
  pub state : String

-- A GET whose answer must be 200 and decode: GetClusterNodes, GetClusterLeader, GetSyncManifest,
-- GetClusterMetrics and GetProxyPoolState.
unfoldable pub get_decoded : {A : Type 0} → Result (Response A) → Result A
get_decoded (err e) = err e
get_decoded (ok r) =
    if not (r.code == 200)
    then err (other r.code)
    else if r.valid
    then ok r.decoded
    else err (other 0)

-- AddClusterNode and RemoveClusterNode: 503 is ErrNotLeader, with the leader's id if it is known.
pub data LeaderAnswer (A : Type 0) : Type 0 where
  done : A → LeaderAnswer A
  not_leader : Option ℕ → LeaderAnswer A
  failed : Failure → LeaderAnswer A

unfoldable pub post_to_leader :
    {A : Type 0} → Result (Response A) → (leader_id : Option ℕ) → LeaderAnswer A
post_to_leader (err e) leader_id = failed e
post_to_leader (ok r) leader_id =
    if r.code == 503
    then not_leader leader_id
    else if not (r.code == 200)
    then failed (other r.code)
    else if r.valid
    then done r.decoded
    else failed (other 0)

-- DrainNode and DecommissionNode
unfoldable pub post_drain : Result ℕ → Option Failure
post_drain (err e) = some e
post_drain (ok code) =
    if not (code == 200) && not (code == 204) && not (code == 202) then some (other code) else none

-- LeaveNode
unfoldable pub post_leave : Result ℕ → Option Failure
post_leave (err e) = some e
post_leave (ok code) = if not (code == 200) && not (code == 204) then some (other code) else none

-- JoinNode
unfoldable pub post_join : Result ℕ → Option Failure
post_join (err e) = some e
post_join (ok code) = if not (code == 200) && not (code == 201) then some (other code) else none

-- ExcludeProxyBackend: `missing` is whether the body says "not found in pool".
unfoldable pub exclude_proxy_backend : Result ℕ → (missing : Bool) → Option Failure
exclude_proxy_backend (err e) missing = some e
exclude_proxy_backend (ok code) missing =
    if code == 200 || code == 409
    then none
    else if code == 404 && missing
    then none
    else some (other code)

-- IncludeProxyBackend and CheckHealth
unfoldable pub post_ok : Result ℕ → Option Failure
post_ok (err e) = some e
post_ok (ok code) = if not (code == 200) then some (other code) else none

pub record MeasurementManifest : Type 0 where
  pub parquet_files : List String

pub record DatabaseManifest : Type 0 where
  pub measurements : List MeasurementManifest

pub record SyncManifest : Type 0 where
  pub wal_last_seq : ℕ
  pub databases : List DatabaseManifest

add_measurements : ℕ → List MeasurementManifest → ℕ
add_measurements total [] = total
add_measurements total (m ∷ ms) = add_measurements (total + length m.parquet_files) ms

add_databases : ℕ → List DatabaseManifest → ℕ
add_databases total [] = total
add_databases total (d ∷ ds) = add_databases (add_measurements total d.measurements) ds

-- TotalParquetFiles
unfoldable pub total_parquet_files : SyncManifest → ℕ
unfolding add_databases add_measurements
total_parquet_files m = add_databases 0 m.databases
