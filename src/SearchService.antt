-- ===== src/SearchService.antt =====
-- src/network/vector_search_service_impl.cpp: the handlers of the requests, over the messages of
-- src/proto/vector_service.proto. The index is a record of the operations that the handlers call; Index
-- of include/dann/index.h has no add_vectors_bulk, remove_vector and update_vector, VectorIndex has.
pub mod Adding
use dann.Prelude.{
  ℕ, Bool, true, false, List, [], ◌∷◌, ◌++◌, map, length, if◌then◌else◌, ℤ, pos, not_positive,
}
use dann.Dict.{Text}
use dann.Types.{Float, InternalSearchResult}
use dann.Config.{text}

-- A call that returns, or throws with what() as its text.
pub data Called (A : Type 0) : Type 0 where
  gives : A → Called A
  throws : Text → Called A

pub record ServedIndex (S : Type 0) : Type 0 where
  pub search : S → List Float → ℤ → Called (List InternalSearchResult)
  pub add_vectors_bulk : List Float → List ℤ → ℤ → S → S × Called Bool
  pub remove_vector : ℤ → S → S × Called Bool
  pub update_vector : ℤ → List Float → S → S × Called Bool
  pub size : S → ℕ
  pub index_type : S → Text
  pub dimension : S → ℕ
  pub name : S → Text
  pub shard_count : S → ℕ

-- grpc::Status
pub data Status : Type 0 where
  status_ok : Status
  status_internal : Text → Status
  status_unimplemented : Text → Status

pub record Vector : Type 0 where
  pub id : ℤ
  pub elements : List Float

pub record SearchRequest : Type 0 where
  pub query_vector : List Float
  pub k : ℤ

pub record SearchResponse : Type 0 where
  pub success : Bool
  pub error_message : Text
  pub results : List InternalSearchResult
  pub query_time_ms : ℕ

pub record AddVectorsRequest : Type 0 where
  pub vectors : List Vector
  pub batch_size : ℤ

pub record AddVectorsResponse : Type 0 where
  pub success : Bool
  pub error_message : Text
  pub added_count : ℕ
  pub load_time_ms : ℕ

-- The response to a removal and to an update, and, without the vector, to GetVector.
pub record ChangeResponse : Type 0 where
  pub success : Bool
  pub error_message : Text

pub record StatsResponse : Type 0 where
  pub success : Bool
  pub total_vectors : ℕ
  pub index_type : Text
  pub dimension : ℕ

pub record HealthCheckResponse : Type 0 where
  pub healthy : Bool
  pub status : Text
  pub version : Text
  pub uptime_seconds : ℕ
  pub details : List (Text × Text)

unfoldable pub ids_of : List Vector → List ℤ
ids_of vectors = map (λ v. v.id) vectors

unfoldable pub floats_of : List Vector → List Float
floats_of [] = []
floats_of (v ∷ vectors) = v.elements ++ floats_of vectors

-- Of the proto3 response what is not set is empty, false or 0.
abbrev found_response : ℕ → Called (List InternalSearchResult) → SearchResponse × Status
found_response time (gives results) = (
  record { success = true; error_message = []; results = results; query_time_ms = time },
  status_ok,
)
found_response time (throws what) = (
  record { success = false; error_message = what; results = []; query_time_ms = 0 },
  status_internal what,
)

abbrev pub add_response : ℕ → ℕ → Called Bool → AddVectorsResponse × Status
add_response ids time (gives success) = (
  record {
    success = success;
    error_message = if success then [] else text "Failed to add vectors to index";
    added_count = if success then ids else 0;
    load_time_ms = time;
  },
  status_ok,
)
add_response ids time (throws what) = (
  record { success = false; error_message = what; added_count = 0; load_time_ms = 0 },
  status_internal what,
)

abbrev change_response : Text → Called Bool → ChangeResponse × Status
change_response failure (gives success) =
    (record { success = success; error_message = if success then [] else failure }, status_ok)
change_response failure (throws what) =
    (record { success = false; error_message = what }, status_internal what)

unfoldable pub get_vector : ℤ → ChangeResponse × Status
get_vector id = (
  record {
    success = false;
    error_message = text "GetVector not implemented - Index doesn't support vector retrieval";
  },
  status_unimplemented (text "GetVector not implemented"),
)

-- The time of a call is given; std::to_string is a parameter.
module _ {S : Type 0} (index : ServedIndex S) where
  unfoldable pub search : ℕ → SearchRequest → S → SearchResponse × Status
  search time request s = found_response time (index.search s request.query_vector request.k)

  unfoldable pub add_vectors : ℕ → AddVectorsRequest → S → S × AddVectorsResponse × Status
  unfolding ids_of floats_of
  add_vectors time request s =
      let batch_size = if not_positive request.batch_size then pos 1000 else request.batch_size in
      let ids = ids_of request.vectors in
      let (t, called) = index.add_vectors_bulk (floats_of request.vectors) ids batch_size s in
      let (response, status) = add_response (length ids) time called in (t, response, status)

  unfoldable pub remove_vector : (ℤ → Text) → ℤ → S → S × ChangeResponse × Status
  remove_vector to_string id s =
      let (t, called) = index.remove_vector id s in
      let (response, status) =
        change_response (text "Failed to remove vector with ID: " ++ to_string id) called in
      (t, response, status)

  unfoldable pub update_vector : (ℤ → Text) → ℤ → List Float → S → S × ChangeResponse × Status
  update_vector to_string id vector s =
      let (t, called) = index.update_vector id vector s in
      let (response, status) =
        change_response (text "Failed to update vector with ID: " ++ to_string id) called in
      (t, response, status)

  unfoldable pub get_stats : S → StatsResponse × Status
  get_stats s = (
    record {
      success = true;
      total_vectors = index.size s;
      index_type = index.index_type s;
      dimension = index.dimension s;
    },
    status_ok,
  )

  unfoldable pub health_check : (ℕ → Text) → S → HealthCheckResponse × Status
  health_check to_string s = (
    record {
      healthy = true;
      status = text "healthy";
      version = text "1.0.0";
      uptime_seconds = 0;
      details =
          (text "index_size", to_string (index.size s))
          ∷ (text "index_type", index.index_type s)
          ∷ (text "index_name", index.name s)
          ∷ (text "shard_count", to_string (index.shard_count s))
          ∷ [];
    },
    status_ok,
  )
