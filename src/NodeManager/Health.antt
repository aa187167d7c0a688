-- ===== src/NodeManager/Health.antt =====
-- What the check of the heartbeats in src/core/node_manager.cpp leaves, in every order of the calls.
use dann.Prelude.{
  ℕ, suc, ◌+◌, ◌-◌, ◌%◌, ◌^◌, Bool, ltb, ◌≡◌, refl, ap, ◌∙◌, false, if_both, Bool-cases,
  Option-cases, inl, inr, All, Option, none, List, [], ◌∷◌, ◌++◌, map, if◌then◌else◌, ℤ, arith,
}
use dann.Dict.{Text, text_key, find, assign, same_text, same_text_refl}
use dann.NodeManager.{
  NodeInfo, NodeManager, new_node_manager, register_node, unregister_node, start,
  start_health_monitor, stop_health_monitor, stop, leave_cluster, update_heartbeat, assign_shards,
  set_node_join_callback, set_node_leave_callback, is_failed, failed_in, get_failed_nodes, call_of,
  after_failure, with_nodes, handle_node_failure, handle_failures, check_node_health,
}
use dann.NodeManager.Keys.{
  IsKeyed, same_text_ne, assign-IsKeyed, erase-IsKeyed, update_heartbeat-IsKeyed,
  after_failure-IsKeyed,
}

-- An active node whose heartbeat is, modulo 2 ^ 64, more than 30 seconds ago.
abbrev pub is_stale : ℕ → NodeInfo → Bool
is_stale now node =
    if node.is_active
    then ltb 30000 ((now + (2 ^ 64 - node.last_heartbeat % 2 ^ 64)) % 2 ^ 64)
    else false

-- A node as the check leaves it.
abbrev pub settled : ℕ → Text × NodeInfo → Text × NodeInfo
settled now e = (e.0, record e.1 { is_active = if is_stale now e.1 then false else e.1.is_active })

-- The calls of the callback for the nodes that are stale.
abbrev pub left_calls : Option ℕ → ℕ → List (Text × NodeInfo) → List (ℕ × NodeInfo)
left_calls callback now [] = []
left_calls callback now (e ∷ nodes) =
    let rest = left_calls callback now nodes in
    if is_stale now e.1 then call_of callback (record e.1 { is_active = false }) ++ rest else rest

is_failed-is_stale : (now : ℕ) (node : NodeInfo) → is_failed now node ≡ is_stale now node
unfolding is_failed
is_failed-is_stale now node = elim (Bool-cases node.is_active) [ inl y ↦ rw y | inr n ↦ rw n ]

-- The failed nodes when nothing comes between, in the map alone.
unfoldable after_failures :
    Option ℕ → List NodeInfo → List (Text × NodeInfo) → List (Text × NodeInfo) × List (ℕ × NodeInfo)
after_failures callback [] nodes = (nodes, [])
after_failures callback (failed ∷ rest) nodes =
    let first = after_failure callback failed.node_id nodes in
    let others = after_failures callback rest first.0 in (others.0, first.1 ++ others.1)

abbrev pub undisturbed : ℕ → NodeManager → NodeManager
undisturbed i s = s

handle_failures-undisturbed :
    (i : ℕ) (failed : List NodeInfo) (s : NodeManager)
    → handle_failures undisturbed i failed s
      ≡ with_nodes s (after_failures s.node_leave_callback failed s.cluster_nodes)
unfolding handle_failures after_failures handle_node_failure
handle_failures-undisturbed i [] s = refl
handle_failures-undisturbed i (node ∷ failed) s =
    rw (handle_failures-undisturbed (suc i) failed (handle_node_failure node.node_id s).0) refl

-- An id that is not that of the first node passes it over.
after_failure-cons :
    (callback : Option ℕ) (id : Text) (e : Text × NodeInfo) (nodes : List (Text × NodeInfo))
    → same_text e.0 id ≡ false
    → after_failure callback id (e ∷ nodes)
      ≡ (e ∷ (after_failure callback id nodes).0, (after_failure callback id nodes).1)
unfolding after_failure find assign
after_failure-cons callback id e nodes h = elim (Option-cases (find id nodes)) [
  | inl z ↦ rw (h, z, after_failure, find)
  | inr (node, y) ↦ rw (h, y, after_failure, find, h)
]

after_failure-first :
    (callback : Option ℕ) (e : Text × NodeInfo) (nodes : List (Text × NodeInfo))
    → after_failure callback e.0 (e ∷ nodes) ≡ (
      (e.0, record e.1 { is_active = false }) ∷ nodes,
      call_of callback (record e.1 { is_active = false }),
    )
unfolding after_failure find assign
after_failure-first callback e nodes =
    rw (same_text_refl e.0, after_failure, find, same_text_refl e.0, assign)

abbrev Others : Text → List NodeInfo → Type 0
Others id failed = All (λ node. same_text id node.node_id ≡ false) failed

after_failures-cons :
    (callback : Option ℕ) (failed : List NodeInfo) (e : Text × NodeInfo)
    (nodes : List (Text × NodeInfo))
    → Others e.0 failed
    → after_failures callback failed (e ∷ nodes)
      ≡ (e ∷ (after_failures callback failed nodes).0, (after_failures callback failed nodes).1)
unfolding after_failures
after_failures-cons callback [] e nodes h = refl
after_failures-cons callback (node ∷ failed) e nodes h = rw (
  after_failure-cons callback node.node_id e nodes h.0,
  after_failures-cons callback failed e (after_failure callback node.node_id nodes).0 h.1,
)

failed_in-Others :
    (now : ℕ) (id : Text) (nodes : List (Text × NodeInfo))
    → IsKeyed nodes
    → find id nodes ≡ none
    → Others id (failed_in now nodes)
unfolding failed_in find
failed_in-Others now id [] h e = tt
failed_in-Others now id (f ∷ nodes) h e = elim (Bool-cases (same_text f.0 id)) [
  | inl y ↦ ground (arith, y)
  | inr n ↦
      let rest = failed_in-Others now id nodes h.2 (rw n at e) in
      elim (Bool-cases (is_failed now f.1)) [
        | inl a ↦ rw a (rw h.0 (same_text_ne f.0 id n), rest)
        | inr b ↦ rw b rest
      ]
]

-- One check handles each failed node once.
after_failures-settled :
    (now : ℕ) (callback : Option ℕ) (nodes : List (Text × NodeInfo))
    → IsKeyed nodes
    → after_failures callback (failed_in now nodes) nodes
      ≡ (map (settled now) nodes, left_calls callback now nodes)
unfolding failed_in after_failures
after_failures-settled now callback [] h = refl
after_failures-settled now callback (e ∷ nodes) h =
    let others = failed_in-Others now e.0 nodes h.2 h.1 in
    elim (Bool-cases (is_stale now e.1)) [
      | inl a ↦ rw (
        is_failed-is_stale now e.1,
        a,
        ap (λ id. after_failure callback id (e ∷ nodes)) h.0,
        after_failure-first callback e nodes,
        after_failures-cons callback (failed_in now nodes) (e.0, record e.1 { is_active = false })
            nodes others,
        after_failures-settled now callback nodes h.2,
      )
      | inr b ↦ rw (
        is_failed-is_stale now e.1,
        b,
        after_failures-cons callback (failed_in now nodes) e nodes others,
        after_failures-settled now callback nodes h.2,
      )
    ]

failed_in-settled :
    (now : ℕ) (nodes : List (Text × NodeInfo)) → failed_in now (map (settled now) nodes) ≡ []
unfolding failed_in is_failed
failed_in-settled now [] = refl
failed_in-settled now (e ∷ nodes) = ground (arith, failed_in-settled now nodes)

-- A call, or the handling of a node by the thread that checks the nodes: a check is a `fails` for each
-- failed node, with any steps of other threads in between.
pub data Step : NodeManager → NodeManager → Type 0 where
  starts : {s : NodeManager} (now : ℕ) → Step s (start now s)
  stops : {s : NodeManager} → Step s (stop s)
  leaves : {s : NodeManager} → Step s (leave_cluster s)
  registers : {s : NodeManager} (node : NodeInfo) → Step s (register_node node s)
  unregisters : {s : NodeManager} (node_id : Text) → Step s (unregister_node node_id s)
  beats : {s : NodeManager} (now : ℕ) (node_id : Text) → Step s (update_heartbeat now node_id s)
  assigns : {s : NodeManager} (shard_ids : List ℤ) → Step s (assign_shards shard_ids s)
  monitors : {s : NodeManager} → Step s (start_health_monitor s)
  unmonitors : {s : NodeManager} → Step s (stop_health_monitor s)
  sets_join : {s : NodeManager} (callback : Option ℕ) → Step s (set_node_join_callback callback s)
  sets_leave : {s : NodeManager} (callback : Option ℕ) → Step s (set_node_leave_callback callback s)
  fails : {s : NodeManager} (node_id : Text) → Step s (handle_node_failure node_id s).0

pub data Reach : NodeManager → Type 0 where
  made : (node_id address : Text) (port : ℤ) → Reach (new_node_manager node_id address port)
  after : {s t : NodeManager} → Reach s → Step s t → Reach t

Step-IsKeyed : {s t : NodeManager} → Step s t → IsKeyed s.cluster_nodes → IsKeyed t.cluster_nodes
unfolding start stop leave_cluster register_node unregister_node assign_shards start_health_monitor
    stop_health_monitor set_node_join_callback set_node_leave_callback handle_node_failure
Step-IsKeyed {s} (starts now) h = assign-IsKeyed s.node_id _ s.cluster_nodes refl h
Step-IsKeyed {s} stops h =
    if_both (λ (t : NodeManager). IsKeyed t.cluster_nodes) s.health_monitor_running _ _ h h
Step-IsKeyed leaves h = tt
Step-IsKeyed {s} (registers node) h = assign-IsKeyed node.node_id node s.cluster_nodes refl h
Step-IsKeyed {s} (unregisters id) h = erase-IsKeyed id s.cluster_nodes h
Step-IsKeyed {s} (beats now id) h = update_heartbeat-IsKeyed now id s h
Step-IsKeyed (assigns shard_ids) h = h
Step-IsKeyed {s} monitors h =
    if_both (λ (t : NodeManager). IsKeyed t.cluster_nodes) s.health_monitor_running _ _ h h
Step-IsKeyed {s} unmonitors h =
    if_both (λ (t : NodeManager). IsKeyed t.cluster_nodes) s.health_monitor_running _ _ h h
Step-IsKeyed (sets_join callback) h = h
Step-IsKeyed (sets_leave callback) h = h
Step-IsKeyed {s} (fails id) h = after_failure-IsKeyed s.node_leave_callback id s.cluster_nodes h

Reach-IsKeyed : {s : NodeManager} → Reach s → IsKeyed s.cluster_nodes
unfolding new_node_manager
Reach-IsKeyed (made node_id address port) = tt
Reach-IsKeyed (after path step) = Step-IsKeyed step (Reach-IsKeyed path)

-- In every order of the calls: a check of the health that no other call comes between marks the nodes
-- that are active and whose heartbeat is, modulo 2 ^ 64, more than 30000 milliseconds ago as inactive, and
-- leaves the others as they were, with their ids and heartbeats; the callback for leaving nodes is called
-- once for each of them, in their order, with the marked node; and at the same time no node counts as
-- failed any more.
pub check_node_health-settled :
    (s : NodeManager) (now : ℕ)
    → Reach s
    → let (t, calls) = check_node_health now undisturbed s in
      (t.cluster_nodes ≡ map (settled now) s.cluster_nodes)
      × (calls ≡ left_calls s.node_leave_callback now s.cluster_nodes)
      × (get_failed_nodes now t ≡ [])
unfolding check_node_health get_failed_nodes
check_node_health-settled s now path =
    let e =
      handle_failures-undisturbed 0 (failed_in now s.cluster_nodes) s
      ∙ ap (with_nodes s)
          (after_failures-settled now s.node_leave_callback s.cluster_nodes (Reach-IsKeyed path)) in
    (
      ap (λ r. r.0.cluster_nodes) e,
      ap (λ r. r.1) e,
      ap (λ r. failed_in now r.0.cluster_nodes) e ∙ failed_in-settled now s.cluster_nodes,
    )
