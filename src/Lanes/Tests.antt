-- ===== src/Lanes/Tests.antt =====
-- A wave of four tasks: two of them work on the same files through a third, and one works alone.
use taskplane.Base.{
  ℕ, ◌≡◌, ◌↔◌, refl, if◌then◌else◌, true, List, [], ◌∷◌, flatten, All, some, none, Text, text,
  text_eq, text_eq_iff, text_le, has, count, Distinct, Dict, get, set, push_to, sort, sort_by,
  arith,
}
use taskplane.Base.Chars.{trim, starts_with, has_code, split_once}
use taskplane.Types.{ParsedTask, LaneAssignment}
use taskplane.Lanes.Forest.Classes.{Linked}
use taskplane.Lanes.Affinity.{apply_file_scope_affinity}
use taskplane.Lanes.Affinity.Groups.{together}
use taskplane.Lanes.Affinity.Components.{Keyed, Keyed-All, Overlapping}
use taskplane.Lanes.Affinity.Refinement.{affinity_components}
use taskplane.Lanes.Scopes.{task_scopes_overlap}
use taskplane.Lanes.Assign.{assign_tasks_to_lanes, is_pending_task}
use taskplane.Lanes.Assign.Shares.{ids_of}
use taskplane.Lanes.Assign.Total.{at_lane, Between, assign_complete, assign_linked}

abbrev task : Text → Text → List Text → ParsedTask
task id size scope = record {
  task_id = id;
  size = size;
  dependencies = [];
  file_scope = scope;
  prompt_path = [];
  resolved_repo_id = none;
  explicit_segment_dag = none;
}

abbrev a : Text
a = text "A"

abbrev b : Text
b = text "B"

abbrev c : Text
c = text "C"

abbrev d : Text
d = text "D"

abbrev pending : Dict ParsedTask
pending =
    (a, task a (text "S") (text "src/api/*" ∷ []))
    ∷ (b, task b (text "L") (text "docs/" ∷ []))
    ∷ (c, task c (text "M") (text "src//web/x.ts" ∷ text "src\\api\\y.ts" ∷ []))
    ∷ (d, task d (text "M") (text "src/web/*.ts" ∷ []))
    ∷ []

abbrev wave : List Text
wave = a ∷ b ∷ c ∷ d ∷ []

abbrev weights : Dict ℕ
weights = (text "S", 1) ∷ (text "M", 2) ∷ (text "L", 9) ∷ []

run : Unit {0}
unfolding apply_file_scope_affinity assign_tasks_to_lanes task_scopes_overlap has get set push_to
    sort sort_by text_eq text_le trim starts_with has_code split_once
run = tt

affinity_run :
    apply_file_scope_affinity text_le wave pending ≡ some ((a ∷ c ∷ d ∷ []) ∷ (b ∷ []) ∷ [])
unfolding run
affinity_run = refl

abbrev entry : Text → ℕ → Text → List Text → LaneAssignment
entry id lane size scope = record { task_id = id; lane = lane; task = task id size scope }

abbrev assignments : List LaneAssignment
assignments =
    entry b 1 (text "L") (text "docs/" ∷ [])
    ∷ entry a 2 (text "S") (text "src/api/*" ∷ [])
    ∷ entry c 2 (text "M") (text "src//web/x.ts" ∷ text "src\\api\\y.ts" ∷ [])
    ∷ entry d 2 (text "M") (text "src/web/*.ts" ∷ [])
    ∷ []

assign_run :
    assign_tasks_to_lanes text_le wave pending 3 (text "load-balanced") weights ≡ some assignments
unfolding run
assign_run = refl

pending-Keyed : Keyed pending
pending-Keyed = Keyed-All pending (refl, (refl, (refl, (refl, tt))))

wave-Distinct : Distinct wave
unfolding count text_eq
wave-Distinct x = ground (arith, text_eq_iff x a, text_eq_iff x b, text_eq_iff x c, text_eq_iff x d)

first_link : Overlapping pending wave a c
unfolding run
first_link = record {
  first = task a (text "S") (text "src/api/*" ∷ []);
  second = task c (text "M") (text "src//web/x.ts" ∷ text "src\\api\\y.ts" ∷ []);
  first_is = refl;
  second_is = refl;
  first_in = refl;
  second_in = refl;
  overlap = refl;
}

second_link : Overlapping pending wave c d
unfolding run
second_link = record {
  first = task c (text "M") (text "src//web/x.ts" ∷ text "src\\api\\y.ts" ∷ []);
  second = task d (text "M") (text "src/web/*.ts" ∷ []);
  first_is = refl;
  second_is = refl;
  first_in = refl;
  second_in = refl;
  overlap = refl;
}

affinity_components_example :
    (groups : List (List Text)) × (apply_file_scope_affinity text_le wave pending ≡ some groups)
    × ((x : Text) → count x (flatten groups) ≡ count x wave)
    × ((x y : Text)
        → has x wave ≡ true
        → has y wave ≡ true
        → (together x y groups ≡ true) ↔ Linked (Overlapping pending wave) x y)
affinity_components_example = affinity_components text_le wave pending pending-Keyed

assign_complete_example :
    (r : List LaneAssignment) × (assign_tasks_to_lanes text_le wave pending 3
        (text "round-robin")
        weights
      ≡ some r)
    × ((x : Text) → count x (ids_of r) ≡ (if is_pending_task pending x then count x wave else 0))
    × All (Between 1 3) r
assign_complete_example =
    assign_complete text_le wave pending 3 (text "round-robin") weights pending-Keyed wave-Distinct
      (omega arith)

assign_linked_example :
    (n : ℕ) × (at_lane a n assignments ≡ true) × (at_lane d n assignments ≡ true)
unfolding run
assign_linked_example =
    assign_linked text_le wave pending 3 (text "load-balanced") weights assignments a d
      pending-Keyed wave-Distinct (omega arith) assign_run refl refl refl refl
      (Linked.chain c (Linked.link first_link) (Linked.link second_link))
