-- ===== src/Client/Requests.antt =====
-- The methods of internal/hyperbytedb/client.go: the request that each sends, and how it reads the
-- answer; with tokenTransport of internal/hyperbytedb/auth.go.
use Prim.Native.String.{◌++◌ as text_append}
use text.Mathlib.Text.{find?}
use hyperbytedb_operator.Prelude.{
  ℕ, String, Bool, not, Option, none, some, str_eq, is_none, if◌then◌else◌, Failure, Result, ok,
  err,
}
use hyperbytedb_operator.Client.{
  HealthStatus, Response, get_node_health, get_decoded, LeaderAnswer, post_to_leader, post_drain,
  post_leave, post_join, exclude_proxy_backend, post_ok,
}

pub data Verb : Type 0 where
  get post : Verb

-- What is sent as JSON.
pub data Body : Type 0 where
  no_body : Body
  join_request : (node_id : ℕ) → (addr : String) → Body
  add_node_request : (node_id : ℕ) → (addr : String) → (promote : Bool) → Body
  remove_node_request leave_request : (node_id : ℕ) → Body

-- `token` is the header of the cluster token, "" where there is none.
pub record Request : Type 0 where
  pub verb : Verb
  pub host : String
  pub port : ℕ
  pub path : String
  pub body : Body
  pub token : String

pub record Reply : Type 0 where
  pub code : ℕ
  pub body : String
  -- the error, if any, of reading the body
  pub body_error : Option Failure

unfoldable pub request : Verb → String → ℕ → String → Body → Request
request verb host port path body = record {
  verb = verb;
  host = host;
  port = port;
  path = path;
  body = body;
  token = "";
}

-- RoundTrip, with the token of the context.
unfoldable pub round_trip : {R : Type 0} → (token : String) → (Request → R) → Request → R
round_trip token base r =
    if not (str_eq token "") then base (record r { token = token }) else base r

unfoldable pub code_of : Result Reply → Result ℕ
code_of (ok r) = ok r.code
code_of (err e) = err e

-- An answer with what the decoder made of its body, and whether it returned no error.
unfoldable pub response_of : {A : Type 0} → (String → A × Bool) → Result Reply → Result (Response A)
response_of decode (ok r) = ok (record {
  code = r.code;
  body_error = r.body_error;
  decoded = (decode r.body).0;
  valid = (decode r.body).1;
})
response_of decode (err e) = err e

unfoldable pub contains : String → String → Bool
contains body words = not (is_none (find? body words))

-- ExcludeProxyBackend goes on with what it could read of the body.
unfoldable pub read_exclude : Result Reply → Option Failure
unfolding contains code_of
read_exclude (ok r) = exclude_proxy_backend (ok r.code) (contains r.body "not found in pool")
read_exclude (err e) = some e

abbrev pub backend_path : String → String → String
backend_path ip action = text_append "/admin/backends/" (text_append ip action)

abbrev pub exclude_request : String → ℕ → String → Request
exclude_request host port ip = request post host port (backend_path ip "/exclude") no_body

-- `S` is the state of what answers.
module _ {S : Type 0} (send : Request → S → Result Reply × S) where
  -- The request is sent, and its answer read.
  abbrev pub ask : {B : Type 0} → Request → (Result Reply → B) → S → B × S
  ask r read s = let (a, s') = send r s in (read a, s')

  unfoldable pub drain_node : String → ℕ → S → Option Failure × S
  unfolding request code_of
  drain_node host port =
      ask (request post host port "/internal/drain" no_body) (λ a. post_drain (code_of a))

  unfoldable pub decommission_node : String → ℕ → S → Option Failure × S
  unfolding request code_of
  decommission_node host port =
      ask (request post host port "/internal/decommission" no_body) (λ a. post_drain (code_of a))

  unfoldable pub check_health : String → ℕ → S → Option Failure × S
  unfolding request code_of
  check_health host port = ask (request get host port "/health" no_body) (λ a. post_ok (code_of a))

  unfoldable pub join_node : String → ℕ → ℕ → String → S → Option Failure × S
  unfolding request code_of
  join_node host port node_id addr =
      ask (request post host port "/internal/membership/join" (join_request node_id addr))
        (λ a. post_join (code_of a))

  unfoldable pub leave_node : String → ℕ → ℕ → S → Option Failure × S
  unfolding request code_of
  leave_node host port node_id =
      ask (request post host port "/internal/membership/leave" (leave_request node_id))
        (λ a. post_leave (code_of a))

  unfoldable pub exclude_backend : String → ℕ → String → S → Option Failure × S
  unfolding request read_exclude
  exclude_backend host port ip = ask (exclude_request host port ip) read_exclude

  unfoldable pub include_backend : String → ℕ → String → S → Option Failure × S
  unfolding request code_of
  include_backend host port ip =
      ask (request post host port (backend_path ip "/include") no_body) (λ a. post_ok (code_of a))

  unfoldable pub node_health :
      (decode : String → HealthStatus × Bool) → String → ℕ → S → Result HealthStatus × S
  unfolding request response_of
  node_health decode host port =
      ask (request get host port "/health" no_body) (λ a. get_node_health (response_of decode a))

  module _ {A : Type 0} (decode : String → A × Bool) where
    abbrev read_decoded : Result Reply → Result A
    read_decoded a = get_decoded (response_of decode a)

    unfoldable pub cluster_metrics : String → ℕ → S → Result A × S
    unfolding request response_of
    cluster_metrics host port = ask (request get host port "/cluster/metrics" no_body) read_decoded

    unfoldable pub cluster_nodes : String → ℕ → S → Result A × S
    unfolding request response_of
    cluster_nodes host port = ask (request get host port "/cluster/nodes" no_body) read_decoded

    unfoldable pub cluster_leader : String → ℕ → S → Result A × S
    unfolding request response_of
    cluster_leader host port = ask (request get host port "/cluster/leader" no_body) read_decoded

    unfoldable pub sync_manifest : String → ℕ → S → Result A × S
    unfolding request response_of
    sync_manifest host port =
        ask (request get host port "/internal/sync/manifest" no_body) read_decoded

    unfoldable pub proxy_pool_state : String → ℕ → S → Result A × S
    unfolding request response_of
    proxy_pool_state host port = ask (request get host port "/admin/pool" no_body) read_decoded

    -- `leader_of` is the leader's id, if any, that the answer of a node that is not the leader has.
    module _ (leader_of : String → Option ℕ) where
      abbrev leader_in : Result Reply → Option ℕ
      leader_in (ok r) = leader_of r.body
      leader_in (err e) = none

      unfoldable pub add_cluster_node : String → ℕ → ℕ → String → Bool → S → LeaderAnswer A × S
      unfolding request response_of
      add_cluster_node host port node_id addr promote =
          ask
            (request post host port "/cluster/membership/add-node"
              (add_node_request node_id addr promote))
            (λ a. post_to_leader (response_of decode a) (leader_in a))

      unfoldable pub remove_cluster_node : String → ℕ → ℕ → S → LeaderAnswer A × S
      unfolding request response_of
      remove_cluster_node host port node_id =
          ask
            (request post host port "/cluster/membership/remove-node" (remove_node_request node_id))
            (λ a. post_to_leader (response_of decode a) (leader_in a))
