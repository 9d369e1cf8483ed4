-- ===== src/Service/Flow.antt =====
-- The state flow that Register of social.go declares to the application core. The posts do not keep
-- to it: the flow has no published state, and is data for the core alone.
use social.Prelude.{String, Bool, true, false, List, [], ◌∷◌}

pub record State : Type 0 where
  pub name : String
  pub is_initial : Bool
  pub is_terminal : Bool

pub record Transition : Type 0 where
  pub from : String
  pub to : String

pub record StateFlow : Type 0 where
  pub name : String
  pub type_name : String
  pub states : List State
  pub transitions : List Transition

-- A state with neither mark.
abbrev plain : String → State
plain name = record { name = name; is_initial = false; is_terminal = false }

abbrev terminal : String → State
terminal name = record { name = name; is_initial = false; is_terminal = true }

abbrev initial : String → State
initial name = record { name = name; is_initial = true; is_terminal = false }

abbrev transition : (source target : String) → Transition
transition source target = record { from = source; to = target }

-- The argument of RegisterFlow
abbrev pub post_flow : StateFlow
post_flow = record {
  name = "scheduled-post";
  type_name = "ScheduledPost";
  states =
      initial "draft"
      ∷ plain "scheduled"
      ∷ plain "queued"
      ∷ terminal "delivered"
      ∷ plain "partial"
      ∷ plain "failed"
      ∷ terminal "archived"
      ∷ [];
  transitions =
      transition "draft" "scheduled"
      ∷ transition "scheduled" "queued"
      ∷ transition "queued" "delivered"
      ∷ transition "queued" "partial"
      ∷ transition "queued" "failed"
      ∷ transition "partial" "queued"
      ∷ transition "failed" "queued"
      ∷ transition "delivered" "archived"
      ∷ transition "partial" "archived"
      ∷ transition "failed" "archived"
      ∷ [];
}
