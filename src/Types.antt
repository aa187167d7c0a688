-- ===== src/Types.antt =====
-- include/dann/types.h and the posting lists of include/dann/ivf_shard.h.
-- A float is its bit pattern. The distances here are squared distances, which are not negative, and
-- the patterns of such floats are ordered as the floats are; a distance is never NaN.
use dann.Prelude.{ℕ, List, ℤ, Option, none, some}

abbrev pub Float : Type 0
Float = ℕ

pub record DistanceWithIndex : Type 0 where
  pub distance : Float
  pub index : ℕ

pub record InternalSearchResult : Type 0 where
  pub id : ℤ
  pub distance : Float
  pub vector : List Float

pub record InvertedList : Type 0 where
  pub vector_ids : List ℤ
  pub vectors : List Float

pub data OperationType : Type 0 where
  add_op delete_op update_op : OperationType

pub record InternalIndexOperation : Type 0 where
  pub kind : OperationType
  pub id : ℤ
  pub vector : List Float
  pub timestamp : ℕ
  pub version : ℕ

-- std::numeric_limits<float>::max()
abbrev pub float_max : Float
float_max = 0x7f7fffff

-- The processor's arithmetic on floats, of which nothing is assumed.
pub record FloatOps : Type 0 where
  pub add : Float → Float → Float
  pub sub : Float → Float → Float
  pub mul : Float → Float → Float
  -- x / n for an integer n
  pub div_count : Float → ℕ → Float
  -- x * (1 + 1/1024) and x * (1 - 1/1024)
  pub grow : Float → Float
  pub shrink : Float → Float

-- What a call ends in: a value, undefined behaviour, or an exception.
pub data Outcome {ℓ} (A : Type ℓ) : Type ℓ where
  returned : A → Outcome A
  undefined : Outcome A
  thrown : Outcome A

abbrev pub of_option {ℓ} : {A : Type ℓ} → Option A → Outcome A
of_option none = undefined
of_option (some a) = returned a

infixl 5 ◌>>=◌
abbrev pub ◌>>=◌ {ℓ κ} : {A : Type ℓ} {B : Type κ} → Outcome A → (A → Outcome B) → Outcome B
returned a >>= f = f a
undefined >>= f = undefined
thrown >>= f = thrown
