-- ===== src/Scoring/Tests.antt =====
-- A model of three factors, one of which has an operator outside the whitelist.
use meru_core.Base.{
  pos, negsuc, none, some, [], ◌∷◌, ◌≡◌, refl, true, false, null, bool, obj, done, field, Runtime,
}
use meru_core.Rules.Operators.{validate, find_disallowed, is_allowed}
use meru_core.Rules.Missing.{missing_comparison_vars}
use meru_core.Rules.Augment.{matches}
use meru_core.Scoring.{Band, Model, apply, contribution, band_for}

abbrev agreeing : Runtime
agreeing = record {
  apply_logic = λ rule data'. some (bool true);
  parse_json = λ text. none;
  parse_date = λ text. none;
  to_iso = λ t. "";
  greater = λ a b. false;
  text_includes = λ text v. false;
  trim_lower = λ text. text;
}

abbrev low : Band
low = record { key = "low"; label = "Low"; min_score = pos 0; color = none }

abbrev high : Band
high = record { key = "high"; label = "High"; min_score = pos 20; color = some "red" }

abbrev model : Model
model = record {
  key = "lead";
  label = "Lead";
  factors =
      record { key = "a"; label = "A"; when = some (bool true); weight = pos 30 }
      ∷ record { key = "b"; label = "B"; when = some (bool true); weight = negsuc 9 }
      ∷ record {
        key = "c";
        label = "C";
        when = some (obj (field "exec" null done));
        weight = pos 5;
      }
      ∷ [];
  bands = some (low ∷ high ∷ []);
}

score_test : (apply agreeing (pos 0) model done).score ≡ pos 20
unfolding apply
score_test =
    unfold contribution validate find_disallowed is_allowed matches missing_comparison_vars in refl

band_test : band_for model (pos 25) ≡ some high
unfolding band_for
band_test = refl
