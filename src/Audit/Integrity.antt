-- ===== src/Audit/Integrity.antt =====
-- `verifyLogIntegrity` and `calculateChanges` of src/audit/audit.service.ts.
use mathlib.Core.Bool.{false≢true}
use meru_core.Base.{
  ℕ, String, Option, none, some, is_some, List, [], ◌∷◌, ◌++◌, ◌≡◌, ◌↔◌, refl, sym, ap, ◌∙◌, subst,
  true, ◌⊎◌, inl, inr, arith, eq_iff, length, includes, includes_iff, In, In-append_left,
  In-append_right, In-append_cases, Bool-cases, Fields, Value, obj, get_key, done,
}
use meru_core.Audit.Types.{AuditLog, LogAuditEvent, Tools, Change}
use meru_core.Audit.Write.{
  keys, add_key, add_keys, changed, changes_at, calculate_changes, with_key, state_value,
  stored_state, log_payload, new_log, generate_checksum,
}
use meru_core.Audit.Read.{column_value, expected_checksum, is_intact}

-- No two texts are found that have one hash.
abbrev pub CollisionFree : Tools → Type 0
CollisionFree tools = (s t : String) → tools.sha256 s ≡ tools.sha256 t → s ≡ t

-- Objects that are printed alike have as many keys.
abbrev pub PrintsKeys : Tools → Type 0
PrintsKeys tools =
    (a b : Fields)
    → tools.stringify (obj a) ≡ tools.stringify (obj b)
    → length (keys a) ≡ length (keys b)

-- The keys of the two states in what is hashed.
abbrev state_keys : Option Value → Option Value → List String
state_keys before after = keys (with_key "beforeState" before (with_key "afterState" after done))

both_given :
    (tools : Tools) (b a : Option Fields)
    → length (state_keys (state_value b) (state_value a))
      ≡ length
          (state_keys (column_value (stored_state tools b)) (column_value (stored_state tools a)))
    → (is_some b ≡ true) × (is_some a ≡ true)
both_given tools (some b) (some a) e = (refl, refl)
both_given tools (some b) none e = absurd (omega (arith, e))
both_given tools none (some a) e = absurd (omega (arith, e))
both_given tools none none e = absurd (omega (arith, e))

module _ (tools : Tools) (id : String) (now : ℕ) (e : LogAuditEvent) (logs : List AuditLog) where
  abbrev logged : AuditLog
  logged = new_log tools id now e logs

  -- What is hashed of an event with two given states.
  abbrev pub sent : Option Value → Option Value → Value
  sent before after = log_payload tools e.tenant_id now e.user_id e.action e.entity_id before after

  -- The states print alike as they were handed over and as jsonb gives them back.
  abbrev pub PrintsAsStored : Type 0
  PrintsAsStored =
      tools.stringify (sent (state_value e.before_state) (state_value e.after_state))
      ≡ tools.stringify (
          sent (column_value (stored_state tools e.before_state))
            (column_value (stored_state tools e.after_state)))

  logged_checksum :
      logged.checksum
      ≡ generate_checksum tools (sent (state_value e.before_state) (state_value e.after_state))
  unfolding new_log
  logged_checksum = refl

  logged_expected :
      expected_checksum tools logged
      ≡ generate_checksum tools (
          sent
            (column_value (stored_state tools e.before_state))
            (column_value (stored_state tools e.after_state)))
  unfolding new_log
  logged_expected = refl

  -- A row that `logEvent` has just written passes `verifyLogIntegrity` exactly when the event had both a
  -- state before and a state after and these print alike as they were handed over and as the jsonb columns
  -- give them back: the checksum is taken of the event, and verified of the row, which has `null` for a state
  -- that was not there. Hashes do not collide, and objects printed alike have as many keys.
  pub new_log-is_intact_iff :
      CollisionFree tools
      → PrintsKeys tools
      → (is_intact tools (new_log tools id now e logs) ≡ true)
        ↔ ((is_some e.before_state ≡ true) × (is_some e.after_state ≡ true) × PrintsAsStored)
  new_log-is_intact_iff free prints =
      let iff = eq_iff logged.checksum (expected_checksum tools logged) in
      (
        λ h.
            let alike : PrintsAsStored =
              free _ _ (sym logged_checksum ∙ iff.0 h ∙ logged_expected) in
            let (b, a) =
              both_given tools e.before_state e.after_state (omega (arith, prints _ _ alike)) in
            (b, a, alike),
        λ w. iff.1 (logged_checksum ∙ ap tools.sha256 w.2 ∙ sym logged_expected),
      )

In-add_key_iff : (seen : List String) (k j : String) → In j (add_key seen k) ↔ (In j seen ⊎ (j ≡ k))
In-add_key_iff seen k j = elim (Bool-cases (includes seen k)) [
  | inl e ↦ rw e (
    λ m. inl m,
    λ w. elim w [
      | inl m ↦ m
      | inr same ↦ subst (λ x. In x seen) (sym same) ((includes_iff seen k).0 e)
    ],
  )
  | inr e ↦ rw e (
    λ m. elim (In-append_cases seen (k ∷ []) j m) [
      | inl n ↦ inl n
      | inr (inl same) ↦ inr same
      | inr (inr n) ↦ absurd n
    ],
    λ w. elim w [
      | inl m ↦ In-append_left seen (k ∷ []) j m
      | inr same ↦ In-append_right seen (k ∷ []) j (inl same)
    ],
  )
]

In-add_keys_iff :
    (seen ks : List String) (j : String) → In j (add_keys seen ks) ↔ (In j seen ⊎ In j ks)
In-add_keys_iff seen [] j = grind arith
In-add_keys_iff seen (k ∷ ks) j =
    grind (arith, In-add_keys_iff (add_key seen k) ks j, In-add_key_iff seen k j)

in_either : (xs ys : List String) (k : String) → In k xs ⊎ In k ys → In k (xs ++ ys)
in_either xs ys k (inl m) = In-append_left xs ys k m
in_either xs ys k (inr m) = In-append_right xs ys k m

module _ (tools : Tools) (before after : Fields) where
  abbrev pub change_of : String → Change
  change_of k = record { field_name = k; old_value = get_key k before; new_value = get_key k after }

  head_change :
      (k : String) (ks : List String) (c : Change)
      → changed tools before after k ≡ true
      → c ≡ change_of k
      → In c.field_name (k ∷ ks)
        × (changed tools before after c.field_name ≡ true)
        × (c ≡ change_of c.field_name)
  head_change k ks c e same =
      let name : c.field_name ≡ k = ap (λ (x : Change). x.field_name) same in
      (inl name, ap (changed tools before after) name ∙ e, same ∙ ap change_of (sym name))

  In-changes_at_iff :
      (ks : List String) (c : Change)
      → In c (changes_at tools before after ks) ↔ (
          In c.field_name ks
          × (changed tools before after c.field_name ≡ true)
          × (c ≡ change_of c.field_name))
  In-changes_at_iff [] c = (λ m. absurd m, λ w. let (m, _, _) = w in absurd m)
  In-changes_at_iff (k ∷ ks) c =
      let ih = In-changes_at_iff ks c in
      elim (Bool-cases (changed tools before after k)) [
        | inl e ↦ rw e (
          λ m. elim m [
            | inl same ↦ head_change k ks c e same
            | inr n ↦ let (i, h, q) = ih.0 n in (inr i, h, q)
          ],
          λ w.
              let (i, h, q) = w in
              elim i [ inl name ↦ inl (q ∙ ap change_of name) | inr n ↦ inr (ih.1 (n, h, q)) ],
        )
        | inr e ↦ rw e (
          λ m. let (i, h, q) = ih.0 m in (inr i, h, q),
          λ w.
              let (i, h, q) = w in
              elim i [
                | inl name ↦ absurd (false≢true (sym e ∙ (rw name at h)))
                | inr n ↦ ih.1 (n, h, q)
              ],
        )
      ]

  -- The changes of an event that has both its states are the keys of either state at which the two are
  -- not printed alike, each with its two values, and nothing else.
  pub calculate_changes_iff :
      (c : Change)
      → In c (calculate_changes tools (some before) (some after)) ↔ (
          (In c.field_name (keys before) ⊎ In c.field_name (keys after))
          × (changed tools before after c.field_name ≡ true)
          × (c ≡ change_of c.field_name))
  unfolding calculate_changes
  calculate_changes_iff c =
      let both = In-add_keys_iff [] (keys before ++ keys after) c.field_name in
      let listed = In-changes_at_iff (add_keys [] (keys before ++ keys after)) c in
      (
        λ m.
            let (i, h, q) = listed.0 m in
            elim (both.0 i) [
              | inl n ↦ absurd n
              | inr n ↦ (In-append_cases (keys before) (keys after) c.field_name n, h, q)
            ],
        λ w.
            let (i, h, q) = w in
            listed.1 (both.1 (inr (in_either (keys before) (keys after) c.field_name i)), h, q),
      )
