-- ===== src/Examples/Served.antt =====
-- Loads and requests over a faiss index that keeps its rows in a list, and a cluster of two nodes.
use dann.Types.{Float}
use dann.Prelude.{
  ℤ, List, not, not_positive, length, ◌++◌, ◌==◌, ◌*◌, ℕ, ◌≡◌, refl, true, false, some, [], ◌∷◌,
  pos, arith,
}
use dann.Dict.{assign, text_key}
use dann.Config.{text}
use dann.Metrics.{Double}
use dann.VectorIndex.{VectorIndex}
use dann.VectorIndex.Bulk.{numbered}
use dann.BulkLoader.{BulkLoader, BulkLoadRequest}
use dann.SearchService.{ServedIndex, gives, AddVectorsRequest, add_vectors}
use dann.SearchService.Adding.{rows_of, Answers, add_vectors-Answers}
use dann.NodeManager.{
  NodeInfo, NodeManager, new_node_manager, start, register_node, set_node_leave_callback,
  get_failed_nodes, check_node_health, is_failed, failed_in,
}
use dann.NodeManager.Health.{
  made, after as afterwards, starts, registers, sets_leave, undisturbed, check_node_health-settled,
}
use dann.QueryRouter.{new_query_router}
use dann.QueryRouter.Turns.{selected, selected_once}
use dann.Examples.Vectors.{three, six}

abbrev no_rate : ℕ → ℕ → Double
no_rate vectors elapsed_ms = 0

abbrev load : BulkLoadRequest
load = record { vectors = six; ids = three; batch_size = pos 2 }

abbrev two_vectors : AddVectorsRequest
two_vectors = record {
  vectors =
      record { id = pos 7; elements = 1 ∷ 2 ∷ [] }
      ∷ record { id = pos 8; elements = 3 ∷ 4 ∷ [] }
      ∷ [];
  batch_size = pos 0;
}

-- An index that keeps the rows, and refuses a call without any.
abbrev keeping : ServedIndex (List Float)
keeping = record {
  search = λ s query k. gives [];
  add_vectors_bulk = λ vectors ids batch_size s. (s ++ vectors, gives (not (length ids == 0)));
  remove_vector = λ id s. (s, gives false);
  update_vector = λ id vector s. (s, gives false);
  size = λ s. length s;
  index_type = λ s. [];
  dimension = λ s. 2;
  name = λ s. [];
  shard_count = λ s. 1;
}

add_vectors-Answers_example :
    (floats : List Float) × (ids : List ℤ) × (batch_size : ℤ) × (not_positive batch_size ≡ false)
    × (length floats ≡ length ids * 2)
    × (numbered 2 ids floats ≡ rows_of two_vectors.vectors)
    × let (t, called) = keeping.add_vectors_bulk floats ids batch_size [] in
      let (u, response, status) = add_vectors keeping 5 two_vectors [] in
      (u ≡ t) × Answers 2 called response status
add_vectors-Answers_example = add_vectors-Answers keeping 5 2 two_vectors [] (refl, (refl, tt))

abbrev other : NodeInfo
other = record {
  node_id = text "b";
  address = text "h";
  port = pos 1;
  is_active = true;
  last_heartbeat = 20000;
}

abbrev here : NodeInfo
here = record {
  node_id = text "a";
  address = text "h";
  port = pos 1;
  is_active = true;
  last_heartbeat = 0;
}

abbrev two_nodes : NodeManager
two_nodes =
    register_node other
      (start 0 (set_node_leave_callback (some 9) (new_node_manager (text "a") (text "h") (pos 1))))

-- At 40000 this node has failed, and the other has not.
check_node_health-settled_example :
    ((check_node_health 40000 undisturbed two_nodes).0.cluster_nodes
      ≡ (text "a", record here { is_active = false }) ∷ (text "b", other) ∷ [])
    × ((check_node_health 40000 undisturbed two_nodes).1
        ≡ (9, record here { is_active = false }) ∷ [])
    × (get_failed_nodes 40000 (check_node_health 40000 undisturbed two_nodes).0 ≡ [])
unfolding new_node_manager set_node_leave_callback start register_node assign is_failed failed_in
    get_failed_nodes
check_node_health-settled_example = check_node_health-settled two_nodes 40000 (
    afterwards
      (afterwards (afterwards (made (text "a") (text "h") (pos 1)) (sets_leave (some 9)))
        (starts 0))
      (registers other))

selected_once_example :
    selected 3 (text "a" ∷ text "b" ∷ text "c" ∷ []) (new_query_router 4)
    ≡ text "b" ∷ text "c" ∷ text "a" ∷ []
unfolding new_query_router
selected_once_example =
    selected_once (text "a" ∷ text "b" ∷ text "c" ∷ []) (new_query_router 4) (omega arith)
      (omega arith)
