-- ===== src/Lanes/Plan/Complete.antt =====
-- About `allocateLanes` of waves.ts up to the worktrees.
use taskplane.Base.{
  ◌≤◌, ◌≡◌, refl, ◌∙◌, ap, Bool, true, false, ◌⊎◌, inl, inr, List, [], ◌∷◌, is_empty, length, none,
  some, Text, text_eq, text_eq_iff, has, count, count_of_has, has_of_count, has-cons_self, Distinct,
  Dict, get, total, arith, Bool-cases,
}
use taskplane.Types.{ParsedTask}
use taskplane.Lanes.Affinity.Components.{Keyed}
use taskplane.Lanes.Assign.{is_pending_task}
use taskplane.Lanes.Repos.{LaneEntry, group_tasks_by_repo, enforce_global_lane_cap}
use taskplane.Lanes.Repos.Cap.{places}
use taskplane.Lanes.Repos.Enforce.{Sequential, cap_enforced}
use taskplane.Lanes.Plan.{
  AllocationConfig, LanePlan, missing_tasks, validate_allocation_inputs, global_lane_entries,
  plan_or_refuse, plan_lanes,
}
use taskplane.Lanes.Plan.Groups.{grouped, count-group_tasks_by_repo}
use taskplane.Lanes.Plan.Entries.{global_lane_entries-Entries}

none_missing :
    (pending : Dict ParsedTask) (wave : List Text) (x : Text)
    → is_empty (missing_tasks pending wave) ≡ true
    → has x wave ≡ true
    → is_pending_task pending x ≡ true
unfolding has get
none_missing pending [] x e h = absurd (cc)
none_missing pending (id ∷ wave) x e h = elim (Bool-cases (is_pending_task pending id)) [
  | inl p ↦ elim (Bool-cases (text_eq x id)) [
    | inl same ↦ rw ((text_eq_iff x id).0 same) p
    | inr other ↦
        let later : has x wave ≡ true = ground arith in
        none_missing pending wave x (rw p at e) later
  ]
  | inr p ↦ absurd (let b : false ≡ true = rw p at e in cc)
]

-- What holds of inputs that pass the validation.
record Valid (wave : List Text) (pending : Dict ParsedTask) (config : AllocationConfig)
    : Type 0 where
  lane : 1 ≤ config.max_lanes
  some_task : is_empty wave ≡ false
  none_gone : is_empty (missing_tasks pending wave) ≡ true

validate-Valid :
    (wave : List Text) (pending : Dict ParsedTask) (config : AllocationConfig)
    → validate_allocation_inputs wave pending config ≡ none
    → Valid wave pending config
unfolding validate_allocation_inputs
validate-Valid wave pending config h = record {
  lane = ground arith;
  some_task = ground arith;
  none_gone = ground arith;
}

plan_lanes-runs :
    (locale_le : Text → Text → Bool) (wave : List Text) (pending : Dict ParsedTask)
    (config : AllocationConfig) (entries : List LaneEntry)
    → validate_allocation_inputs wave pending config ≡ none
    → global_lane_entries locale_le pending config (group_tasks_by_repo wave pending) 0
      ≡ some entries
    → plan_lanes locale_le wave pending config
      ≡ some (plan_or_refuse (enforce_global_lane_cap entries config.max_lanes))
unfolding plan_lanes
plan_lanes-runs locale_le wave pending config entries e f =
    rw (e, plan_lanes) (rw (f, plan_lanes) refl)

not_refused :
    (x : Text) (entries : List LaneEntry)
    → 1 ≤ total (places x) entries
    → plan_or_refuse entries ≡ LanePlan.planned entries
not_refused x [] h = absurd (omega arith)
not_refused x (e ∷ entries) h = refl

some_place : (wave : List Text) → is_empty wave ≡ false → (x : Text) × (1 ≤ count x wave)
some_place [] h = absurd (cc)
some_place (id ∷ wave) h = (id, count_of_has id (id ∷ wave) (has-cons_self id wave))

-- Inputs that pass the validation are never refused later: every task of the wave stands in exactly
-- one lane of the plan, the plan has at most the allowed lanes or at most one for each repository,
-- and its lanes are numbered from 1 on. The wave names no task twice, and a pending task is kept
-- under its own id.
pub plan_lanes_complete :
    (locale_le : Text → Text → Bool) (wave : List Text) (pending : Dict ParsedTask)
    (config : AllocationConfig)
    → Keyed pending
    → Distinct wave
    → validate_allocation_inputs wave pending config ≡ none
    → (plan : List LaneEntry) × (plan_lanes locale_le wave pending config
        ≡ some (LanePlan.planned plan))
      × ((x : Text) → total (places x) plan ≡ count x wave)
      × ((length plan ≤ config.max_lanes)
          ⊎ (length plan ≤ length (group_tasks_by_repo wave pending)))
      × Sequential 1 plan
plan_lanes_complete locale_le wave pending config keyed distinct valid =
    let v = validate-Valid wave pending config valid in
    let groups = group_tasks_by_repo wave pending in
    let shared : (x : Text) → count x (grouped groups) ≡ count x wave =
      λ x. count-group_tasks_by_repo x wave pending in
    let o =
      global_lane_entries-Entries locale_le pending config keyed v.lane groups 0
        (λ x. omega (arith, shared x, distinct x))
        (λ x h.
          none_missing pending wave x v.none_gone
            (has_of_count x wave (omega (arith, shared x, count_of_has x (grouped groups) h)))) in
    let (conserved, bounded, numbered) = cap_enforced o.entries config.max_lanes o.numbered in
    let kept : (x : Text)
        → total (places x) (enforce_global_lane_cap o.entries config.max_lanes) ≡ count x wave =
      λ x. omega (arith, conserved x, o.conserved x, shared x) in
    let (first, placed) = some_place wave v.some_task in
    let plan = enforce_global_lane_cap o.entries config.max_lanes in
    (
      plan,
      plan_lanes-runs locale_le wave pending config o.entries valid o.runs
          ∙ ap some (not_refused first plan (omega (arith, kept first, placed))),
      kept,
      elim bounded [ inl l ↦ inl l | inr l ↦ inr (omega (arith, l, o.repos [])) ],
      numbered,
    )
