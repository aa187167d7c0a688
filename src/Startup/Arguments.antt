-- ===== src/Startup/Arguments.antt =====
-- The arguments of src/main.cpp that stand for a configuration.
use dann.Prelude.{
  ◌≡◌, ◌≢◌, refl, ap, ◌∙◌, true, false, append-nil, All, Option, some, List, [], ◌∷◌, ◌++◌,
  append_assoc, length, ◌==◌, ℤ, arith,
}
use dann.Dict.{Text}
use dann.Types.{returned}
use dann.Config.{text, join}
use dann.Startup.{
  Config, FileSystem, to_absolute_path, seeds_from, flag_of, with_flag, parse_from, parse_arguments,
}

-- Not empty and without a comma.
abbrev pub IsSeed : Text → Type 0
IsSeed [] = ⊥
IsSeed (c ∷ t) = (c ≢ 44) × All (λ c. c ≢ 44) t

-- Every option with the value that a configuration has.
abbrev pub arguments_of : (ℤ → Text) → Config → List Text
arguments_of to_string c =
    text "--node-id"
    ∷ c.node_id
    ∷ text "--address"
    ∷ c.address
    ∷ text "--port"
    ∷ to_string c.port
    ∷ text "--grpc-port"
    ∷ to_string c.grpc_port
    ∷ text "--dimension"
    ∷ to_string c.dimension
    ∷ text "--index-type"
    ∷ c.index_type
    ∷ text "--shards"
    ∷ to_string c.shard_count
    ∷ text "--index"
    ∷ c.index_path
    ∷ text "--seed-nodes"
    ∷ join c.seed_nodes
    ∷ []

seeds_from-letters :
    (w rest seed : Text)
    → All (λ c. c ≢ 44) w
    → seeds_from (w ++ rest) seed ≡ seeds_from rest (seed ++ w)
unfolding seeds_from
seeds_from-letters [] rest seed h = rw append-nil
seeds_from-letters (c ∷ w) rest seed h =
    let n : (c == 44) ≡ false = ground (arith, h.0) in
    rw (n, seeds_from-letters w rest (seed ++ c ∷ []) h.1, append_assoc)

seeds_from-join : (seeds : List Text) → All IsSeed seeds → seeds_from (join seeds) [] ≡ seeds
unfolding seeds_from join
seeds_from-join [] h = refl
seeds_from-join ([] ∷ seeds) h = absurd h.0
seeds_from-join ((c ∷ w) ∷ []) h =
    let full : (length (c ∷ w) == 0) ≡ false = ground arith in
    let read : seeds_from ((c ∷ w) ++ []) [] ≡ (c ∷ w) ∷ [] =
      seeds_from-letters (c ∷ w) [] [] h.0 ∙ rw full in
    rw append-nil at read
seeds_from-join ((c ∷ w) ∷ next ∷ seeds) h =
    seeds_from-letters (c ∷ w) (44 ∷ join (next ∷ seeds)) [] h.0
    ∙ ap (◌∷◌ (c ∷ w)) (seeds_from-join (next ∷ seeds) h.1)

path-absolute :
    (files : FileSystem) (path : Text)
    → files.is_absolute path ≡ true
    → to_absolute_path files path ≡ path
unfolding to_absolute_path
path-absolute files path h = ground (arith, h)

-- A configuration whose path is absolute and whose seed nodes are not empty and have no comma is read
-- back from the arguments that give each of its fields, if std::stoi reads back what std::to_string
-- writes of its four numbers.
pub parse_arguments-arguments_of :
    (stoi : Text → Option ℤ) (files : FileSystem) (to_string : ℤ → Text) (c : Config)
    → stoi (to_string c.port) ≡ some c.port
    → stoi (to_string c.grpc_port) ≡ some c.grpc_port
    → stoi (to_string c.dimension) ≡ some c.dimension
    → stoi (to_string c.shard_count) ≡ some c.shard_count
    → files.is_absolute c.index_path ≡ true
    → All IsSeed c.seed_nodes
    → parse_arguments stoi files (arguments_of to_string c) ≡ returned (some c)
unfolding parse_arguments parse_from flag_of with_flag
parse_arguments-arguments_of stoi files to_string c port grpc_port dimension shard_count absolute
      seeds =
    rw (
      port,
      grpc_port,
      dimension,
      shard_count,
      path-absolute files c.index_path absolute,
      seeds_from-join c.seed_nodes seeds,
    )
