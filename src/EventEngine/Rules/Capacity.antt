-- ===== src/EventEngine/Rules/Capacity.antt =====
-- The facts of one observation always find room: the table of fact slots of
-- media_engine/src/analytics/event_engine.c is larger than a summary can be.
use rv1126_custom_part.Base.{
  ℕ, zero, suc, ◌+◌, ◌≤◌, ◌<◌, true, false, not, none, some, List, [], ◌∷◌, length, get_or, set,
  length-append, replicate, All, All-snoc, if◌then◌else◌, ◌≡◌, ◌≢◌, refl, arith, Option-cases, inl,
  inr,
}
use rv1126_custom_part.Observation.Types.{RuleFact, Observation}
use rv1126_custom_part.Observation.Valid.{IsRule}
use rv1126_custom_part.AnalyticsConfig.Settings.{AnalyticsConfig}
use rv1126_custom_part.EventEngine.Types.{FactSlot, zero_fact_slot, RuleSummary, zero_summary}
use rv1126_custom_part.EventEngine.Tracks.{find_slot}
use rv1126_custom_part.EventEngine.Tracks.Identity.{find_slot-some, find_slot-none}
use rv1126_custom_part.EventEngine.Rules.{
  holds_fact, find_rule_fact_state, fresh_fact_slot, allocate_rule_fact_state, set_direction,
  is_direction, fact_slot, remember_rule_fact, remember_each, cleared_fact_states,
  remember_rule_facts, summary_add_track, add_delta, add_new_match, add_match, match_rule,
  match_rules, matching_rules,
}

-- How many slots are not in use.
free : List FactSlot → ℕ
free [] = 0
free (slot ∷ slots) = let rest = free slots in if slot.in_use then rest else rest + 1

free-replicate : (n : ℕ) → free (replicate n zero_fact_slot) ≡ n
unfolding free
free-replicate zero = refl
free-replicate (suc n) = omega (arith, free-replicate n)

free-none : (slots : List FactSlot) → All (λ slot. not slot.in_use ≡ false) slots → free slots ≡ 0
unfolding free
free-none [] h = refl
free-none (slot ∷ slots) h = ground (arith, free-none slots h.1)

-- Any one write takes one free slot at most.
free-set : (slots : List FactSlot) (i : ℕ) (v : FactSlot) → free slots ≤ free (set slots i v) + 1
unfolding free
free-set [] i v = omega arith
free-set (slot ∷ slots) zero v = ground arith
free-set (slot ∷ slots) (suc i) v = ground (arith, free-set slots i v)

-- A write to a slot in use takes none.
free-set_used :
    (slots : List FactSlot) (i : ℕ) (v : FactSlot)
    → (get_or slots i zero_fact_slot).in_use ≡ true
    → free slots ≤ free (set slots i v)
unfolding free
free-set_used [] i v h = omega arith
free-set_used (slot ∷ slots) zero v h = ground arith
free-set_used (slot ∷ slots) (suc i) v h = ground (arith, free-set_used slots i v h)

get_or-set_self :
    (slots : List FactSlot) (i : ℕ) (v : FactSlot)
    → i < length slots
    → get_or (set slots i v) i zero_fact_slot ≡ v
get_or-set_self [] i v h = absurd (omega arith)
get_or-set_self (slot ∷ slots) zero v h = refl
get_or-set_self (slot ∷ slots) (suc i) v h = get_or-set_self slots i v (omega arith)

-- The slot that a fact gets is in use, and it is the only one taken.
fact_slot-some :
    (slots : List FactSlot) (id i : ℕ) (held : List FactSlot)
    → fact_slot slots id ≡ some (i, held)
    → ((get_or held i zero_fact_slot).in_use ≡ true) × (free slots ≤ free held + 1)
unfolding fact_slot find_rule_fact_state allocate_rule_fact_state
fact_slot-some slots id i held e = elim (Option-cases (find_rule_fact_state slots id)) [
  | inr (j, found) ↦ ground (arith, find_slot-some (holds_fact id) slots j zero_fact_slot found)
  | inl missing ↦ elim (Option-cases (find_slot (λ (slot : FactSlot). not slot.in_use) slots)) [
    | inl full ↦ absurd (ground arith)
    | inr (j, spare) ↦ ground (
      arith,
      find_slot-some (λ (slot : FactSlot). not slot.in_use) slots j zero_fact_slot spare,
      get_or-set_self slots j (fresh_fact_slot id),
      free-set slots j (fresh_fact_slot id),
    )
  ]
]

fact_slot-ne-none : (slots : List FactSlot) (id : ℕ) → 0 < free slots → fact_slot slots id ≢ none
unfolding fact_slot allocate_rule_fact_state
fact_slot-ne-none slots id h e =
    elim (Option-cases (find_slot (λ (slot : FactSlot). not slot.in_use) slots)) [
      | inl full ↦
          let nothing = free-none slots (find_slot-none _ slots full) in absurd (omega arith)
      | inr (j, spare) ↦ ground arith
    ]

remember_rule_fact-stored :
    (slots : List FactSlot) (fact : RuleFact)
    → is_direction fact.direction ≡ true
    → 0 < free slots
    → ((remember_rule_fact slots fact).1 ≡ true)
      × (free slots ≤ free (remember_rule_fact slots fact).0 + 1)
unfolding remember_rule_fact
remember_rule_fact-stored slots fact d h = elim (Option-cases (fact_slot slots fact.track_id)) [
  | inl e ↦ absurd (fact_slot-ne-none slots fact.track_id h e)
  | inr ((i, held), e) ↦
      let taken = fact_slot-some slots fact.track_id i held e in
      let v = set_direction fact.direction (get_or held i zero_fact_slot) in
      let kept = free-set_used held i v taken.0 in rw (e, d, remember_rule_fact) (refl, omega arith)
]

abbrev pub IsDirected : RuleFact → Type 0
IsDirected fact = is_direction fact.direction ≡ true

remember_each-stored :
    (slots : List FactSlot) (facts : List RuleFact)
    → All IsDirected facts
    → length facts ≤ free slots
    → (remember_each slots facts).1 ≡ true
unfolding remember_each
remember_each-stored slots [] d h = refl
remember_each-stored slots (fact ∷ facts) d h =
    let first = remember_rule_fact-stored slots fact d.0 (omega arith) in
    ground
      (arith, first, remember_each-stored (remember_rule_fact slots fact).0 facts d.1 (omega arith))

-- At most sixteen facts, each with a direction.
pub record IsSmall (summary : RuleSummary) : Type 0 where
  pub few : length summary.facts ≤ 16
  pub directed : All IsDirected summary.facts

pub remember_rule_facts-stored :
    (summary : RuleSummary) → IsSmall summary → (remember_rule_facts summary).1 ≡ true
unfolding remember_rule_facts
remember_rule_facts-stored summary s =
    let room = free-replicate 64 in
    remember_each-stored cleared_fact_states summary.facts s.directed (omega (arith, s.few, room))

match_rule-IsSmall :
    (c : AnalyticsConfig) (slots : List FactSlot) (summary : RuleSummary) (rule : RuleFact)
    → IsDirected rule
    → IsSmall summary
    → IsSmall (match_rule c slots summary rule)
unfolding match_rule add_match add_new_match add_delta summary_add_track
match_rule-IsSmall c slots summary rule d s = ground (
  arith,
  length-append summary.facts (rule ∷ []),
  (All-snoc IsDirected summary.facts rule).1 (s.directed, d),
)

match_rules-IsSmall :
    (c : AnalyticsConfig) (slots : List FactSlot) (summary : RuleSummary) (rules : List RuleFact)
    → All IsDirected rules
    → IsSmall summary
    → IsSmall (match_rules c slots summary rules)
unfolding match_rules
match_rules-IsSmall c slots summary [] d s = s
match_rules-IsSmall c slots summary (rule ∷ rules) d s =
    match_rules-IsSmall c slots (match_rule c slots summary rule) rules d.1
      (match_rule-IsSmall c slots summary rule d.0 s)

All-IsDirected : (rules : List RuleFact) → All IsRule rules → All IsDirected rules
All-IsDirected [] h = tt
All-IsDirected (rule ∷ rules) h = (ground (arith, h.0.directed), All-IsDirected rules h.1)

-- The summary of valid facts always finds room.
pub matching_rules-IsSmall :
    (c : AnalyticsConfig) (slots : List FactSlot) (o : Observation)
    → All IsRule o.rules
    → IsSmall (matching_rules c slots o)
unfolding matching_rules
matching_rules-IsSmall c slots o h =
    ground (arith, match_rules-IsSmall c slots zero_summary o.rules (All-IsDirected o.rules h))
