-- ===== src/NodeManager/Keys.antt =====
-- That each node of src/core/node_manager.cpp stands under its own id.
use dann.Prelude.{
  ℕ, ◌≡◌, refl, ◌∙◌, sym, true, false, subst, Bool-cases, Option-cases, inl, inr, Option, none,
  some, List, [], ◌∷◌,
}
use dann.Dict.{
  Text, text_key, find, assign, erase, find-assign, find-erase, same_text, same_text→eq,
  same_text_refl,
}
use dann.NodeManager.{NodeInfo, NodeManager, update_heartbeat, after_failure}

-- Each node stands under its own id, and no id stands twice.
abbrev pub IsKeyed : List (Text × NodeInfo) → Type 0
IsKeyed [] = Unit
IsKeyed (e ∷ nodes) = (e.1.node_id ≡ e.0) × (find e.0 nodes ≡ none) × IsKeyed nodes

pub same_text_ne : (l r : Text) → same_text l r ≡ false → same_text r l ≡ false
same_text_ne l r h = elim (Bool-cases (same_text r l)) [
  | inl y ↦
      let e : r ≡ l = same_text→eq r l y in
      let t : same_text l r ≡ true = rw e (same_text_refl l) in cc
  | inr n ↦ n
]

pub assign-IsKeyed :
    (id : Text) (node : NodeInfo) (nodes : List (Text × NodeInfo))
    → node.node_id ≡ id
    → IsKeyed nodes
    → IsKeyed (assign id node nodes)
unfolding assign find
assign-IsKeyed id node [] e h = (e, refl, tt)
assign-IsKeyed id node (f ∷ nodes) e h = elim (Bool-cases (same_text f.0 id)) [
  | inl y ↦ rw y (e ∙ sym (same_text→eq f.0 id y), h.1, h.2)
  | inr n ↦ rw n (
    h.0,
    rw (find-assign id f.0 node nodes, same_text_ne f.0 id n) h.1,
    assign-IsKeyed id node nodes e h.2,
  )
]

pub erase-IsKeyed :
    (id : Text) (nodes : List (Text × NodeInfo)) → IsKeyed nodes → IsKeyed (erase id nodes)
unfolding erase
erase-IsKeyed id [] h = tt
erase-IsKeyed id (f ∷ nodes) h = elim (Bool-cases (same_text f.0 id)) [
  | inl y ↦ rw y (erase-IsKeyed id nodes h.2)
  | inr n ↦
      rw n
        (h.0, rw (find-erase id f.0 nodes, same_text_ne f.0 id n) h.1, erase-IsKeyed id nodes h.2)
]

abbrev pub Under : Text → Option NodeInfo → Type 0
Under id none = Unit
Under id (some node) = node.node_id ≡ id

pub find-Under :
    (id : Text) (nodes : List (Text × NodeInfo)) → IsKeyed nodes → Under id (find id nodes)
unfolding find
find-Under id [] h = tt
find-Under id (f ∷ nodes) h = elim (Bool-cases (same_text f.0 id)) [
  | inl y ↦ rw y (h.0 ∙ same_text→eq f.0 id y)
  | inr n ↦ rw n (find-Under id nodes h.2)
]

pub update_heartbeat-IsKeyed :
    (now : ℕ) (id : Text) (s : NodeManager)
    → IsKeyed s.cluster_nodes
    → IsKeyed (update_heartbeat now id s).cluster_nodes
unfolding update_heartbeat
update_heartbeat-IsKeyed now id s h = elim (Option-cases (find id s.cluster_nodes)) [
  | inl z ↦ rw (z, IsKeyed, update_heartbeat) h
  | inr (node, y) ↦
      let under : node.node_id ≡ id = subst (Under id) y (find-Under id s.cluster_nodes h) in
      rw (y, IsKeyed, update_heartbeat)
        (assign-IsKeyed id (record node { last_heartbeat = now; is_active = true }) s.cluster_nodes
          under h)
]

pub after_failure-IsKeyed :
    (callback : Option ℕ) (id : Text) (nodes : List (Text × NodeInfo))
    → IsKeyed nodes
    → IsKeyed (after_failure callback id nodes).0
unfolding after_failure
after_failure-IsKeyed callback id nodes h = elim (Option-cases (find id nodes)) [
  | inl z ↦ rw (z, IsKeyed, after_failure) h
  | inr (node, y) ↦
      let under : node.node_id ≡ id = subst (Under id) y (find-Under id nodes h) in
      rw (y, IsKeyed, after_failure)
        (assign-IsKeyed id (record node { is_active = false }) nodes under h)
]
