-- ===== src/Scoring.antt =====
-- src/ai/engines/scoring.engine.ts: a weighted sum of the rules of a pack's model, with its band.
pub mod Laws
mod Tests
use meru_core.Base.{
  ℤ, pos, ◌+ℤ◌, lt_ℤ, le_ℤ, String, Option, none, some, List, [], ◌∷◌, Bool, true, false, ◌==◌,
  if◌then◌else◌, filter, find?, map, get_or, Value, Fields, Runtime, Result, from_option, ◌>>=◌, ok,
}
use meru_core.Rules.Operators.{Validity, valid, validate}
use meru_core.Rules.Augment.{matches}

pub record Factor : Type 0 where
  pub key : String
  pub label : String
  pub when : Option Value
  pub weight : ℤ

pub record Band : Type 0 where
  pub key : String
  pub label : String
  pub min_score : ℤ
  pub color : Option String

pub record Model : Type 0 where
  pub key : String
  pub label : String
  pub factors : List Factor
  pub bands : Option (List Band)

pub record Contribution : Type 0 where
  pub key : String
  pub label : String
  pub matched : Bool
  pub weight : ℤ

pub record ScoreResult : Type 0 where
  pub model_key : String
  pub label : String
  pub score : ℤ
  pub max_score : ℤ
  pub band : Option Band
  pub contributions : List Contribution

abbrev pub is_valid : Validity → Bool
is_valid valid = true
is_valid _ = false

-- A factor that cannot be evaluated has not matched.
unfoldable pub contribution : Runtime → ℤ → Fields → Factor → Contribution
contribution rt now data' f = record {
  key = f.key;
  label = f.label;
  matched = if is_valid (validate rt f.when) then matches rt now f.when data' else false;
  weight = f.weight;
}

abbrev pub total_weight : List ℤ → ℤ
total_weight [] = pos 0
total_weight (w ∷ ws) = w +ℤ total_weight ws

abbrev pub insert_band : Band → List Band → List Band
insert_band a [] = a ∷ []
insert_band a (b ∷ bs) =
    let rest = insert_band a bs in if le_ℤ b.min_score a.min_score then a ∷ b ∷ bs else b ∷ rest

-- `sort((a, b) => b.minScore - a.minScore)`, which keeps the order of equals
abbrev pub sort_bands : List Band → List Band
sort_bands [] = []
sort_bands (b ∷ bs) = insert_band b (sort_bands bs)

unfoldable pub band_for : Model → ℤ → Option Band
band_for model score = find? (λ b. le_ℤ b.min_score score) (sort_bands (get_or model.bands []))

unfoldable pub apply : Runtime → ℤ → Model → Fields → ScoreResult
apply rt now model data' =
    let contributions = map (contribution rt now data') model.factors in
    let score = total_weight (map (λ c. c.weight) (filter (λ c. c.matched) contributions)) in
    record {
      model_key = model.key;
      label = model.label;
      score = score;
      max_score =
          total_weight (map (λ f. f.weight) (filter (λ f. lt_ℤ (pos 0) f.weight) model.factors));
      band = band_for model score;
      contributions = contributions;
    }

pub data ScoringError : Type 0 where
  model_not_defined : String → ScoringError

-- `model` and `score`, over the models of the vertical's pack
pub score : Runtime → ℤ → List Model → String → Fields → Result ScoringError ScoreResult
score rt now models key data' =
    from_option (model_not_defined key) (find? (λ m. m.key == key) models) >>= λ m.
    ok (apply rt now m data')
