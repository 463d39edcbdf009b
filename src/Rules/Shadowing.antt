-- ===== src/Rules/Shadowing.antt =====
-- What a vertical attribute does to a column of its name, in `augment` of src/rules/rule-
-- evaluator.service.ts.
use meru_core.Base.{
  ℤ, String, some, ◌≡◌, obj, Fields, done, field, get_key, get_key-set_key_self, Runtime,
}
use meru_core.Rules.Augment.{augment, add_dates, as_date}

-- A vertical attribute whose value is an object replaces the record's own column of that name in what
-- a rule sees, whatever the column holds.
pub augment_shadowed :
    (rt : Runtime) (now : ℤ) (fields inner : Fields) (key : String)
    → get_key "verticalAttributes" fields ≡ some (obj (field key (obj inner) done))
    → get_key key (augment rt fields now) ≡ some (obj (add_dates rt now inner inner))
unfolding augment as_date
augment_shadowed rt now fields inner key e =
    rw e (get_key-set_key_self key (obj (add_dates rt now inner inner)) _)
