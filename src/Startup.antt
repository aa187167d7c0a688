-- ===== src/Startup.antt =====
-- src/main.cpp: the arguments of the program, as it is built with gRPC. std::stoi and std::filesystem
-- are parameters.
pub mod Arguments
use dann.Prelude.{
  ℕ, Bool, true, false, Option, none, some, List, [], ◌∷◌, ◌++◌, length, ◌==◌, if◌then◌else◌, ℤ,
  pos,
}
use dann.Dict.{Text, same_text}
use dann.Types.{Outcome, returned, undefined, thrown, ◌>>=◌}
use dann.Config.{text}

pub record Config : Type 0 where
  pub node_id : Text
  pub address : Text
  pub port : ℤ
  pub grpc_port : ℤ
  pub dimension : ℤ
  pub index_type : Text
  pub index_path : Text
  pub shard_count : ℤ
  pub seed_nodes : List Text

abbrev pub defaults : Config
defaults = record {
  node_id = text "node1";
  address = text "0.0.0.0";
  port = pos 8080;
  grpc_port = pos 50051;
  dimension = pos 128;
  index_type = text "IVF";
  index_path = [];
  shard_count = pos 1;
  seed_nodes = [];
}

-- `absolute` is a path in the current directory, in normal form.
pub record FileSystem : Type 0 where
  pub is_absolute : Text → Bool
  pub absolute : Text → Text

unfoldable pub to_absolute_path : FileSystem → Text → Text
to_absolute_path files path =
    if length path == 0 then path else if files.is_absolute path then path else files.absolute path

-- What is between the commas, the last only if it is not empty; `seed` is what has been read of one.
unfoldable pub seeds_from : Text → Text → List Text
seeds_from [] seed = if length seed == 0 then [] else seed ∷ []
seeds_from (c ∷ t) seed =
    let next = seeds_from t [] in
    let same = seeds_from t (seed ++ c ∷ []) in if c == 44 then seed ∷ next else same

-- The options that have a value.
pub data Flag : Type 0 where
  node_id_flag address_flag port_flag grpc_port_flag dimension_flag index_type_flag : Flag
  shards_flag index_flag seed_nodes_flag : Flag

unfoldable pub flag_of : Text → Option Flag
flag_of arg =
    if same_text arg (text "--node-id")
    then some node_id_flag
    else if same_text arg (text "--address")
    then some address_flag
    else if same_text arg (text "--port")
    then some port_flag
    else if same_text arg (text "--grpc-port")
    then some grpc_port_flag
    else if same_text arg (text "--dimension")
    then some dimension_flag
    else if same_text arg (text "--index-type")
    then some index_type_flag
    else if same_text arg (text "--shards")
    then some shards_flag
    else if same_text arg (text "--index")
    then some index_flag
    else if same_text arg (text "--seed-nodes")
    then some seed_nodes_flag
    else none

-- Without a number std::stoi throws.
abbrev pub number : Option ℤ → Outcome ℤ
number none = thrown
number (some n) = returned n

module _ (stoi : Text → Option ℤ) (files : FileSystem) where
  unfoldable pub with_flag : Flag → Text → Config → Outcome Config
  unfolding to_absolute_path seeds_from
  with_flag node_id_flag value c = returned (record c { node_id = value })
  with_flag address_flag value c = returned (record c { address = value })
  with_flag port_flag value c = number (stoi value) >>= λ n. returned (record c { port = n })
  with_flag grpc_port_flag value c =
      number (stoi value) >>= λ n. returned (record c { grpc_port = n })
  with_flag dimension_flag value c =
      number (stoi value) >>= λ n. returned (record c { dimension = n })
  with_flag index_type_flag value c = returned (record c { index_type = value })
  with_flag shards_flag value c =
      number (stoi value) >>= λ n. returned (record c { shard_count = n })
  with_flag index_flag value c = returned (record c { index_path = to_absolute_path files value })
  with_flag seed_nodes_flag value c =
      returned (record c { seed_nodes = c.seed_nodes ++ seeds_from value [] })

  -- The last argument: an option without its value is passed over, but for --index, which reads the null
  -- pointer behind the arguments.
  abbrev last_argument : Text → Config → Outcome (Option Config)
  last_argument arg c =
      if same_text arg (text "--help")
      then returned none
      else if same_text arg (text "--index")
      then undefined
      else returned (some c)

  -- The loop over the arguments that are left. After --help the program ends, without a configuration.
  unfoldable pub parse_from : List Text → Config → Outcome (Option Config)
  unfolding flag_of with_flag
  parse_from [] c = returned (some c)
  parse_from (arg ∷ []) c = last_argument arg c
  parse_from (arg ∷ value ∷ rest) c =
      let passed = parse_from (value ∷ rest) c in
      let taken = λ (flag : Flag). with_flag flag value c >>= λ d. parse_from rest d in
      if same_text arg (text "--help")
      then returned none
      else elim (flag_of arg) [ none ↦ passed | some flag ↦ taken flag ]

  -- The arguments behind the name of the program.
  unfoldable pub parse_arguments : List Text → Outcome (Option Config)
  unfolding parse_from
  parse_arguments args = parse_from args defaults
