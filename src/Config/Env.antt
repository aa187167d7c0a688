-- ===== src/Config/Env.antt =====
-- Values of the form `${NAME}` that stand for environment variables. std::getenv is a parameter.
use dann.Prelude.{
  take-append_front, ℕ, suc, ◌-◌, ◌≡◌, ◌≢◌, refl, ap, Bool, true, false, ◌&&◌, Option, none, some,
  List, [], ◌∷◌, ◌++◌, take, drop, length, length-append, All, ltb, ◌==◌, if◌then◌else◌, arith,
}
use dann.Dict.{Text}
use dann.Config.{ConfigData}

-- `str.find("${") == 0`
abbrev pub starts_variable : Text → Bool
starts_variable [] = false
starts_variable (c ∷ []) = false
starts_variable (c ∷ e ∷ text) = (c == 36) && (e == 123)

-- `str.find("}") == str.length() - 1` for a text that is not empty
unfoldable pub closes_at_end : Text → Bool
closes_at_end [] = false
closes_at_end (c ∷ []) = c == 125
closes_at_end (c ∷ e ∷ text) =
    let rest = closes_at_end (e ∷ text) in if c == 125 then false else rest

unfoldable pub is_env_var : Text → Bool
unfolding closes_at_end
is_env_var str = starts_variable str && closes_at_end str

-- `str.back() == '}'`
abbrev pub ends_closed : Text → Bool
ends_closed [] = false
ends_closed (c ∷ []) = c == 125
ends_closed (c ∷ e ∷ text) = ends_closed (e ∷ text)

unfoldable pub extract_env_var_name : Text → Text
extract_env_var_name str =
    if ltb 3 (length str) && starts_variable str && ends_closed str
    then take (length str - 3) (drop 2 str)
    else str

module _ (getenv : Text → Option Text) where
  unfoldable pub expand_env_var : Text → Text
  unfolding is_env_var extract_env_var_name
  expand_env_var value =
      if is_env_var value
      then elim (getenv (extract_env_var_name value)) [ none ↦ value | some env_value ↦ env_value ]
      else value

  expand_section : List (Text × Text) → List (Text × Text)
  expand_section [] = []
  expand_section ((key, value) ∷ entries) = (key, expand_env_var value) ∷ expand_section entries

  unfoldable pub substitute_env_vars : ConfigData → ConfigData
  unfolding expand_section
  substitute_env_vars [] = []
  substitute_env_vars ((section, entries) ∷ config_data) =
      (section, expand_section entries) ∷ substitute_env_vars config_data

closes_at_end-append :
    (name : Text) → All (λ c. c ≢ 125) name → closes_at_end (name ++ 125 ∷ []) ≡ true
unfolding closes_at_end
closes_at_end-append [] h = refl
closes_at_end-append (c ∷ []) h =
    let open_brace : (c == 125) ≡ false = ground arith in rw (open_brace, closes_at_end)
closes_at_end-append (c ∷ e ∷ name) h =
    let open_brace : (c == 125) ≡ false = ground arith in
    rw (open_brace, closes_at_end) (closes_at_end-append (e ∷ name) h.1)

ends_closed-append : (name : Text) → ends_closed (name ++ 125 ∷ []) ≡ true
ends_closed-append [] = refl
ends_closed-append (c ∷ []) = refl
ends_closed-append (c ∷ e ∷ name) = ends_closed-append (e ∷ name)

-- The value `${NAME}`, for a name that is not empty and has no closing brace, becomes the value of the
-- variable, and stays if there is no such variable.
expand_env_var-variable :
    (getenv : Text → Option Text) (c : ℕ) (name : Text)
    → All (λ e. e ≢ 125) (c ∷ name)
    → expand_env_var getenv (36 ∷ 123 ∷ c ∷ name ++ 125 ∷ []) ≡ elim (getenv (c ∷ name)) [
      | none ↦ 36 ∷ 123 ∷ c ∷ name ++ 125 ∷ []
      | some env_value ↦ env_value
    ]
unfolding expand_env_var is_env_var extract_env_var_name closes_at_end
expand_env_var-variable getenv c name h = rw (closed, extracted)
  where
    closed : closes_at_end (c ∷ name ++ 125 ∷ []) ≡ true
    closed = closes_at_end-append (c ∷ name) h

    long : ltb 3 (length (36 ∷ 123 ∷ c ∷ name ++ 125 ∷ [])) ≡ true
    long = ground (arith, length-append name (125 ∷ []))

    ends : ends_closed (36 ∷ 123 ∷ c ∷ name ++ 125 ∷ []) ≡ true
    ends = ends_closed-append (36 ∷ 123 ∷ c ∷ name)

    size : length (36 ∷ 123 ∷ c ∷ name ++ 125 ∷ []) - 3 ≡ suc (length name)
    size = omega (arith, length-append name (125 ∷ []))

    extracted : extract_env_var_name (36 ∷ 123 ∷ c ∷ name ++ 125 ∷ []) ≡ c ∷ name
    extracted = rw (long, ends, size) (ap (◌∷◌ c) (take-append_front name (125 ∷ [])))

-- A value that is not of this form stays as it is.
pub expand_env_var-other :
    (getenv : Text → Option Text) (value : Text)
    → is_env_var value ≡ false
    → expand_env_var getenv value ≡ value
unfolding expand_env_var
expand_env_var-other getenv value h = rw h
