-- ===== src/EventEngine/Rules.antt =====
-- Rule facts, media_engine/src/analytics/event_engine.c.
pub mod Capacity
use rv1126_custom_part.Base.{
  ℕ, ◌+◌, Bool, true, false, not, ◌&&◌, ◌||◌, ltb, leb, ◌==◌, if◌then◌else◌, Option, none, some,
  List, [], ◌∷◌, ◌++◌, length, get_or, set, replicate, text_eq,
}
use rv1126_custom_part.Observation.Types.{
  max_tracks, max_rule_facts, RuleType, RuleDirection, RuleFact, Observation,
}
use rv1126_custom_part.AnalyticsConfig.Settings.{AnalyticsConfig}
use rv1126_custom_part.EventEngine.Types.{
  event_max_tracks, FactSlot, zero_fact_slot, RuleSummary, zero_summary,
}
use rv1126_custom_part.EventEngine.Timeline.{uint32_max, saturating_add_u32}
use rv1126_custom_part.EventEngine.Tracks.{find_slot}

abbrev pub holds_fact : ℕ → FactSlot → Bool
holds_fact id slot = slot.in_use && slot.track_id == id

unfoldable pub find_rule_fact_state : List FactSlot → ℕ → Option ℕ
find_rule_fact_state states id = find_slot (holds_fact id) states

abbrev pub fresh_fact_slot : ℕ → FactSlot
fresh_fact_slot id = record zero_fact_slot { in_use = true; track_id = id }

unfoldable pub allocate_rule_fact_state : List FactSlot → ℕ → Option (ℕ × List FactSlot)
allocate_rule_fact_state states id =
    elim (find_slot (λ (slot : FactSlot). not slot.in_use) states) [
      | none ↦ none
      | some i ↦ some (i, set states i (fresh_fact_slot id))
    ]

-- direction_present[direction]; a direction out of range is not present.
abbrev pub direction_present : RuleDirection → FactSlot → Bool
direction_present RuleDirection.undirected slot = slot.undirected_present
direction_present RuleDirection.inward slot = slot.inward_present
direction_present RuleDirection.outward slot = slot.outward_present
direction_present RuleDirection.other slot = false

abbrev pub set_direction : RuleDirection → FactSlot → FactSlot
set_direction RuleDirection.undirected slot = record slot { undirected_present = true }
set_direction RuleDirection.inward slot = record slot { inward_present = true }
set_direction RuleDirection.outward slot = record slot { outward_present = true }
set_direction RuleDirection.other slot = slot

unfoldable pub rule_fact_seen : List FactSlot → RuleFact → Bool
unfolding find_rule_fact_state
rule_fact_seen states fact = elim (find_rule_fact_state states fact.track_id) [
  | none ↦ false
  | some i ↦ direction_present fact.direction (get_or states i zero_fact_slot)
]

abbrev pub is_direction : RuleDirection → Bool
is_direction RuleDirection.other = false
is_direction _ = true

-- The slot of the fact's track, allocated if it has none.
unfoldable pub fact_slot : List FactSlot → ℕ → Option (ℕ × List FactSlot)
unfolding find_rule_fact_state allocate_rule_fact_state
fact_slot states id = elim (find_rule_fact_state states id) [
  | none ↦ allocate_rule_fact_state states id
  | some i ↦ some (i, states)
]

-- The table after the call, and whether the fact is in it.
unfoldable pub remember_rule_fact : List FactSlot → RuleFact → List FactSlot × Bool
unfolding fact_slot
remember_rule_fact states fact =
    if not (is_direction fact.direction)
    then (states, false)
    else elim (fact_slot states fact.track_id) [
      | none ↦ (states, false)
      | some (i, held) ↦
          (set held i (set_direction fact.direction (get_or held i zero_fact_slot)), true)
    ]

-- The loop stops at the first fact that finds no slot.
unfoldable pub remember_each : List FactSlot → List RuleFact → List FactSlot × Bool
unfolding remember_rule_fact
remember_each states [] = (states, true)
remember_each states (fact ∷ facts) =
    let (held, stored) = remember_rule_fact states fact in
    let rest = remember_each held facts in if stored then rest else (held, false)

abbrev pub cleared_fact_states : List FactSlot
cleared_fact_states = replicate max_tracks zero_fact_slot

-- The facts of this observation replace those of the one before.
unfoldable pub remember_rule_facts : RuleSummary → List FactSlot × Bool
unfolding remember_each
remember_rule_facts summary = remember_each cleared_fact_states summary.facts

unfoldable pub contains : List ℕ → ℕ → Bool
contains [] id = false
contains (x ∷ xs) id = x == id || contains xs id

unfoldable pub summary_has_track : RuleSummary → ℕ → Bool
unfolding contains
summary_has_track summary id = id == 0 || contains summary.track_ids id

unfoldable pub summary_add_track : RuleSummary → ℕ → RuleSummary
unfolding summary_has_track
summary_add_track summary id =
    if id == 0 || summary_has_track summary id || length summary.track_ids == event_max_tracks
    then summary
    else record summary { track_ids = summary.track_ids ++ id ∷ [] }

-- Two types outside the enumerators count as one; no valid fact or configuration has such a type.
unfoldable pub same_type : RuleType → RuleType → Bool
same_type RuleType.unknown RuleType.unknown = true
same_type RuleType.occupancy RuleType.occupancy = true
same_type RuleType.line_cross RuleType.line_cross = true
same_type RuleType.intrusion RuleType.intrusion = true
same_type RuleType.other RuleType.other = true
same_type _ _ = false

unfoldable pub same_direction : RuleDirection → RuleDirection → Bool
same_direction RuleDirection.undirected RuleDirection.undirected = true
same_direction RuleDirection.inward RuleDirection.inward = true
same_direction RuleDirection.outward RuleDirection.outward = true
same_direction RuleDirection.other RuleDirection.other = true
same_direction _ _ = false

unfoldable pub has_fact : List RuleFact → RuleFact → Bool
unfolding same_type same_direction
has_fact [] fact = false
has_fact (previous ∷ facts) fact =
    same_type previous.rule_type fact.rule_type
      && same_direction previous.direction fact.direction
      && previous.track_id == fact.track_id
      && text_eq previous.rule_id fact.rule_id
    || has_fact facts fact

unfoldable pub summary_has_fact : RuleSummary → RuleFact → Bool
unfolding has_fact
summary_has_fact summary fact = has_fact summary.facts fact

abbrev first_or : Option RuleFact → RuleFact → Option RuleFact
first_or none rule = some rule
first_or (some first) rule = some first

-- A count that stops at the largest 32-bit value.
abbrev pub bump : ℕ → ℕ
bump n = if ltb n uint32_max then n + 1 else n

-- The deltas of a crossing that was not there before.
unfoldable pub add_delta : RuleSummary → RuleDirection → RuleSummary
add_delta summary RuleDirection.inward = record summary {
  delta_in = saturating_add_u32 summary.delta_in 1;
}
add_delta summary RuleDirection.outward = record summary {
  delta_out = saturating_add_u32 summary.delta_out 1;
}
add_delta summary _ = summary

unfoldable pub add_new_match : RuleSummary → RuleFact → RuleSummary
unfolding add_delta summary_add_track
add_new_match summary rule =
    summary_add_track
      (add_delta (record summary { new_match_count = bump summary.new_match_count }) rule.direction)
      rule.track_id

-- The body of the loop for a rule that matches and is not in the summary yet.
unfoldable pub add_match : List FactSlot → RuleSummary → RuleFact → RuleSummary
unfolding add_new_match rule_fact_seen
add_match states summary rule =
    let added = record summary {
      facts =
          if ltb (length summary.facts) max_rule_facts
          then summary.facts ++ rule ∷ []
          else summary.facts;
      first = first_or summary.first rule;
      match_count = bump summary.match_count;
    } in
    if rule_fact_seen states rule then added else add_new_match added rule

unfoldable pub rule_matches : AnalyticsConfig → RuleFact → Bool
unfolding same_type
rule_matches c rule =
    same_type rule.rule_type c.rule_type
    && text_eq rule.rule_id c.rule_id
    && leb c.score_threshold_q rule.score_q

unfoldable pub match_rule : AnalyticsConfig → List FactSlot → RuleSummary → RuleFact → RuleSummary
unfolding rule_matches add_match summary_has_fact
match_rule c states summary rule =
    if rule_matches c rule && not (summary_has_fact summary rule)
    then add_match states summary rule
    else summary

unfoldable pub match_rules :
    AnalyticsConfig → List FactSlot → RuleSummary → List RuleFact → RuleSummary
unfolding match_rule
match_rules c states summary [] = summary
match_rules c states summary (rule ∷ rules) =
    match_rules c states (match_rule c states summary rule) rules

abbrev pub is_occupancy : RuleType → Bool
is_occupancy RuleType.occupancy = true
is_occupancy _ = false

unfoldable pub matching_rules : AnalyticsConfig → List FactSlot → Observation → RuleSummary
unfolding match_rules
matching_rules c states o =
    let matched = match_rules c states zero_summary o.rules in
    if is_occupancy c.rule_type then zero_summary else matched
