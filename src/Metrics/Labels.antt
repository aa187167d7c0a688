-- ===== src/Metrics/Labels.antt =====
-- Labels in the names of metrics.
use dann.Prelude.{
  ℕ, ◌≡◌, refl, ap, ◌∙◌, Bool, false, ◌||◌, List, [], ◌∷◌, ◌++◌, ◌==◌, if◌then◌else◌, arith,
  Bool-cases, inl, inr,
}
use dann.Dict.{Text}

-- a backslash, a quote or a line break
abbrev pub is_special : ℕ → Bool
is_special c = (c == 92) || (c == 34) || (c == 10)

unfoldable pub escape_prometheus_label : Text → Text
escape_prometheus_label [] = []
escape_prometheus_label (c ∷ label) =
    if is_special c
    then 92 ∷ c ∷ escape_prometheus_label label
    else c ∷ escape_prometheus_label label

-- `key="value"` for each label, with commas between them
unfoldable pub format_rest : List (Text × Text) → Text
unfolding escape_prometheus_label
format_rest [] = 125 ∷ []
format_rest ((k, v) ∷ labels) =
    44 ∷ k ++ (61 ∷ 34 ∷ escape_prometheus_label v) ++ 34 ∷ format_rest labels

unfoldable pub format_labels : List (Text × Text) → Text
unfolding format_rest
format_labels [] = []
format_labels ((k, v) ∷ labels) =
    123 ∷ k ++ (61 ∷ 34 ∷ escape_prometheus_label v) ++ 34 ∷ format_rest labels

-- Takes the backslashes away again.
unfoldable pub unescape : Text → Text
unescape [] = []
unescape (c ∷ []) = c ∷ []
unescape (c ∷ e ∷ text) =
    let after = unescape text in
    let rest = unescape (e ∷ text) in if c == 92 then e ∷ after else c ∷ rest

unescape-cons : (c : ℕ) (text : Text) → (c == 92) ≡ false → unescape (c ∷ text) ≡ c ∷ unescape text
unfolding unescape
unescape-cons c [] h = refl
unescape-cons c (e ∷ text) h = rw (h, unescape)

-- No two values escape to the same text: a reader that takes each backslash with the character
-- behind it gets the value back.
pub unescape-escape_prometheus_label :
    (label : Text) → unescape (escape_prometheus_label label) ≡ label
unfolding escape_prometheus_label unescape
unescape-escape_prometheus_label [] = refl
unescape-escape_prometheus_label (c ∷ label) = elim (Bool-cases (is_special c)) [
  | inl e ↦
      rw (e, escape_prometheus_label)
        (special c label ∙ ap (◌∷◌ c) (unescape-escape_prometheus_label label))
  | inr e ↦
      let plain : (c == 92) ≡ false = ground arith in
      rw (e, escape_prometheus_label)
        (unescape-cons c (escape_prometheus_label label) plain
          ∙ ap (◌∷◌ c) (unescape-escape_prometheus_label label))
]
  where
    special :
        (c : ℕ) (label : Text)
        → unescape (92 ∷ c ∷ escape_prometheus_label label)
          ≡ c ∷ unescape (escape_prometheus_label label)
    special c label = refl
