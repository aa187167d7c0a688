-- ===== src/NodeManager.antt =====
-- src/core/node_manager.cpp: the nodes of the cluster, their heartbeats and the shards of this node. Its
-- header is not in the repository; the fields are those that it names. What returns a constant and
-- changes nothing is left out, and so is the thread that calls check_node_health once a second.
pub mod Keys
pub mod Health
use dann.Prelude.{
  ℕ, suc, ◌+◌, ◌-◌, ◌%◌, size_mod, Bool, true, false, ◌&&◌, ltb, Option, none, some, List, [], ◌∷◌,
  ◌++◌, map, if◌then◌else◌, ℤ,
}
use dann.Dict.{Text, text_key, int_key, find, assign, erase}

-- Times are in milliseconds.
pub record NodeInfo : Type 0 where
  pub node_id : Text
  pub address : Text
  pub port : ℤ
  pub is_active : Bool
  pub last_heartbeat : ℕ

-- A callback is a number.
pub record NodeManager : Type 0 where
  pub node_id : Text
  pub address : Text
  pub port : ℤ
  pub running : Bool
  pub health_monitor_running : Bool
  pub cluster_nodes : List (Text × NodeInfo)
  pub assigned_shards : List ℤ
  pub shard_to_node : List (ℤ × Text)
  pub node_join_callback : Option ℕ
  pub node_leave_callback : Option ℕ

unfoldable pub new_node_manager : Text → Text → ℤ → NodeManager
new_node_manager node_id address port = record {
  node_id = node_id;
  address = address;
  port = port;
  running = false;
  health_monitor_running = false;
  cluster_nodes = [];
  assigned_shards = [];
  shard_to_node = [];
  node_join_callback = none;
  node_leave_callback = none;
}

unfoldable pub register_node : NodeInfo → NodeManager → NodeManager
register_node node s = record s { cluster_nodes = assign node.node_id node s.cluster_nodes }

unfoldable pub unregister_node : Text → NodeManager → NodeManager
unregister_node node_id s = record s { cluster_nodes = erase node_id s.cluster_nodes }

-- `now` is what the clock shows.
unfoldable pub start : ℕ → NodeManager → NodeManager
unfolding register_node
start now s =
    register_node
      (record {
        node_id = s.node_id;
        address = s.address;
        port = s.port;
        is_active = true;
        last_heartbeat = now;
      })
      (record s { running = true })

unfoldable pub start_health_monitor : NodeManager → NodeManager
start_health_monitor s =
    if s.health_monitor_running then s else record s { health_monitor_running = true }

unfoldable pub stop_health_monitor : NodeManager → NodeManager
stop_health_monitor s =
    if s.health_monitor_running then record s { health_monitor_running = false } else s

unfoldable pub stop : NodeManager → NodeManager
unfolding stop_health_monitor
stop s = stop_health_monitor (record s { running = false })

unfoldable pub leave_cluster : NodeManager → NodeManager
leave_cluster s = record s { cluster_nodes = [] }

unfoldable pub get_cluster_nodes : NodeManager → List NodeInfo
get_cluster_nodes s = map (λ e. e.1) s.cluster_nodes

unfoldable pub update_heartbeat : ℕ → Text → NodeManager → NodeManager
update_heartbeat now node_id s = elim (find node_id s.cluster_nodes) [
  | none ↦ s
  | some node ↦ record s {
    cluster_nodes =
        assign node_id (record node { last_heartbeat = now; is_active = true }) s.cluster_nodes;
  }
]

unfoldable pub place_at : Text → List ℤ → List (ℤ × Text) → List (ℤ × Text)
place_at node_id [] shards = shards
place_at node_id (shard_id ∷ shard_ids) shards =
    place_at node_id shard_ids (assign shard_id node_id shards)

unfoldable pub assign_shards : List ℤ → NodeManager → NodeManager
unfolding place_at
assign_shards shard_ids s = record s {
  assigned_shards = shard_ids;
  shard_to_node = place_at s.node_id shard_ids [];
}

unfoldable pub get_node_for_shard : ℤ → NodeManager → Text
get_node_for_shard shard_id s = elim (find shard_id s.shard_to_node) [
  | none ↦ []
  | some node_id ↦ node_id
]

unfoldable pub set_node_join_callback : Option ℕ → NodeManager → NodeManager
set_node_join_callback callback s = record s { node_join_callback = callback }

unfoldable pub set_node_leave_callback : Option ℕ → NodeManager → NodeManager
set_node_leave_callback callback s = record s { node_leave_callback = callback }

-- `now_ms - last_heartbeat > 30000` for an active node. The difference is unsigned, so that a heartbeat
-- in the future wraps round.
unfoldable pub is_failed : ℕ → NodeInfo → Bool
is_failed now node =
    node.is_active && ltb 30000 ((now + (size_mod - node.last_heartbeat % size_mod)) % size_mod)

unfoldable pub failed_in : ℕ → List (Text × NodeInfo) → List NodeInfo
unfolding is_failed
failed_in now [] = []
failed_in now ((node_id, node) ∷ nodes) =
    if is_failed now node then node ∷ failed_in now nodes else failed_in now nodes

unfoldable pub get_failed_nodes : ℕ → NodeManager → List NodeInfo
unfolding failed_in
get_failed_nodes now s = failed_in now s.cluster_nodes

abbrev pub call_of : Option ℕ → NodeInfo → List (ℕ × NodeInfo)
call_of none node = []
call_of (some callback) node = (callback, node) ∷ []

-- The nodes when one has failed, and the calls of the callback.
unfoldable pub after_failure :
    Option ℕ → Text → List (Text × NodeInfo) → List (Text × NodeInfo) × List (ℕ × NodeInfo)
after_failure callback node_id nodes = elim (find node_id nodes) [
  | none ↦ (nodes, [])
  | some node ↦
      let marked = record node { is_active = false } in
      (assign node_id marked nodes, call_of callback marked)
]

abbrev pub with_nodes :
    NodeManager → List (Text × NodeInfo) × List (ℕ × NodeInfo) → NodeManager × List (ℕ × NodeInfo)
with_nodes s r = (record s { cluster_nodes = r.0 }, r.1)

unfoldable pub handle_node_failure : Text → NodeManager → NodeManager × List (ℕ × NodeInfo)
unfolding after_failure
handle_node_failure node_id s =
    with_nodes s (after_failure s.node_leave_callback node_id s.cluster_nodes)

-- The nodes that have failed are handled one after the other. The mutex is free in between: `meanwhile i`
-- is what other threads make of the state before the i-th is handled.
unfoldable pub handle_failures :
    (ℕ → NodeManager → NodeManager)
    → ℕ
    → List NodeInfo
    → NodeManager
    → NodeManager × List (ℕ × NodeInfo)
unfolding handle_node_failure
handle_failures meanwhile i [] s = (s, [])
handle_failures meanwhile i (failed ∷ rest) s =
    let first = handle_node_failure failed.node_id (meanwhile i s) in
    let others = handle_failures meanwhile (suc i) rest first.0 in (others.0, first.1 ++ others.1)

unfoldable pub check_node_health :
    ℕ → (ℕ → NodeManager → NodeManager) → NodeManager → NodeManager × List (ℕ × NodeInfo)
unfolding get_failed_nodes handle_failures
check_node_health now meanwhile s = handle_failures meanwhile 0 (get_failed_nodes now s) s
