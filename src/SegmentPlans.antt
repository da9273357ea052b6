-- ===== src/SegmentPlans.antt =====
-- The segment plans of waves.ts: in which repositories a task runs, and in which order.
pub mod Build
pub mod Signals
pub mod Order
pub mod Chain
pub mod Linear
pub mod Rounds
mod Tests
use taskplane.Base.{
  ℕ, ◌+◌, ◌==◌, ltb, leb, if◌then◌else◌, Bool, true, false, not, ◌&&◌, ◌||◌, List, [], ◌∷◌, ◌++◌,
  map, any, is_empty, Option, none, some, Text, text, text_eq, has, add, Dict, get, set, keys,
  values, sort_by, sort,
}
use taskplane.Base.Chars.{is_lower, is_digit, to_lower, trim}
use taskplane.Types.{ParsedTask, PromptSegmentDagMetadata, PromptSegmentDagEdge}
use taskplane.Waves.References.{parse_dependency_reference}
use taskplane.Lanes.Scopes.{to_slash}

abbrev is_repo_start : ℕ → Bool
is_repo_start c = is_lower c || is_digit c

abbrev is_repo_char : ℕ → Bool
is_repo_char c = is_repo_start c || c == b'-'

-- `SEGMENT_REPO_ID_PATTERN.test`.
abbrev is_repo_id : Text → Bool
is_repo_id [] = false
is_repo_id (c ∷ t) = is_repo_start c && not (any (λ d. not (is_repo_char d)) t)

unfoldable pub normalize_repo_id_candidate : Text → Option Text
unfolding trim to_lower
normalize_repo_id_candidate raw =
    let candidate = to_lower (trim raw) in if is_repo_id candidate then some candidate else none

-- `if (repoId) known.add(repoId)`.
abbrev add_candidate : Text → List Text → List Text
add_candidate raw known = elim (normalize_repo_id_candidate raw) [
  | none ↦ known
  | some repo ↦ add repo known
]

abbrev add_candidates : List Text → List Text → List Text
add_candidates [] known = known
add_candidates (raw ∷ raws) known = add_candidates raws (add_candidate raw known)

abbrev add_resolved : Option Text → List Text → List Text
add_resolved none known = known
add_resolved (some raw) known = add_candidate raw known

abbrev add_explicit : Option PromptSegmentDagMetadata → List Text → List Text
add_explicit none known = known
add_explicit (some dag) known = add_candidates dag.repo_ids known

abbrev known_from : List ParsedTask → List Text → List Text
known_from [] known = known
known_from (t ∷ tasks) known =
    known_from tasks (add_explicit t.explicit_segment_dag (add_resolved t.resolved_repo_id known))

unfoldable pub collect_known_repo_ids : Dict ParsedTask → Option (List Text) → List Text
unfolding normalize_repo_id_candidate add
collect_known_repo_ids pending none = known_from (values pending) []
collect_known_repo_ids pending (some ids) = known_from (values pending) (add_candidates ids [])

-- `split("/")[0]`.
abbrev first_part : Text → Text
first_part [] = []
first_part (c ∷ t) = let rest = first_part t in if c == b'/' then [] else c ∷ rest

-- The empty text is no candidate, so its early returns are left to the last step.
unfoldable pub extract_repo_prefix_from_file_scope : Text → Option Text
unfolding trim normalize_repo_id_candidate
extract_repo_prefix_from_file_scope entry =
    normalize_repo_id_candidate (trim (first_part (trim (map to_slash entry))))

-- The variables of `inferTaskRepoOrder`.
pub record RepoOrder : Type 0 where
  pub first_appearance : Dict ℕ
  pub cursor : ℕ
  pub has_primary_signal : Bool

abbrev pub is_refused : List Text → Bool → Text → Bool
is_refused known require_known repo =
    require_known && (not (is_empty known) && not (has repo known))

abbrev pub appear : Text → RepoOrder → RepoOrder
appear repo s =
    if has repo (keys s.first_appearance)
    then s
    else record s { first_appearance = set repo s.cursor s.first_appearance; cursor = s.cursor + 1 }

abbrev pub record_candidate : List Text → Bool → Option Text → RepoOrder → RepoOrder × Option Text
record_candidate known require_known none s = (s, none)
record_candidate known require_known (some repo) s =
    if is_refused known require_known repo then (s, none) else (appear repo s, some repo)

-- The inner function `record`.
unfoldable pub record_repo : List Text → Bool → Text → RepoOrder → RepoOrder × Option Text
unfolding normalize_repo_id_candidate has set
record_repo known require_known raw s =
    record_candidate known require_known (normalize_repo_id_candidate raw) s

-- A repository that `record` takes is a primary signal.
abbrev pub mark_signal : RepoOrder × Option Text → RepoOrder
mark_signal (s, none) = s
mark_signal (s, some _) = record s { has_primary_signal = true }

unfoldable pub signal : List Text → Text → RepoOrder → RepoOrder
unfolding record_repo
signal known repo s = mark_signal (record_repo known true repo s)

unfoldable pub signal_scopes : List Text → List Text → RepoOrder → RepoOrder
unfolding signal extract_repo_prefix_from_file_scope
signal_scopes known [] s = s
signal_scopes known (entry ∷ scopes) s = signal_scopes known scopes (
    if is_empty known then s else (elim (extract_repo_prefix_from_file_scope entry) [
      | none ↦ s
      | some repo ↦ signal known repo s
    ]))

-- An empty repository counts as absent.
abbrev pub signal_resolved : List Text → Option Text → RepoOrder → RepoOrder
signal_resolved known (some (c ∷ repo)) s = signal known (c ∷ repo) s
signal_resolved known _ s = s

abbrev pub resolved_of : Option ParsedTask → Option Text
resolved_of none = none
resolved_of (some t) = t.resolved_repo_id

unfoldable pub signal_dependencies : List Text → Dict ParsedTask → List Text → RepoOrder → RepoOrder
unfolding signal get parse_dependency_reference
signal_dependencies known pending [] s = s
signal_dependencies known pending (raw ∷ dependencies) s =
    signal_dependencies known pending dependencies
      (signal_resolved known (resolved_of (get (parse_dependency_reference raw).task_id pending)) s)

abbrev pub record_resolved : List Text → Option Text → RepoOrder → RepoOrder
record_resolved known (some (c ∷ repo)) s = (record_repo known true (c ∷ repo) s).0
record_resolved known _ s = s

pub record InferredRepoOrder : Type 0 where
  pub repo_ids : List Text
  pub used_fallback : Bool

abbrev text_or_empty : Option Text → Text
text_or_empty none = []
text_or_empty (some t) = t

abbrev or_default : Option Text → Text
or_default none = text "default"
or_default (some t) = t

abbrev pub by_appearance : (Text → Text → Bool) → Text × ℕ → Text × ℕ → Bool
by_appearance locale_le a b = ltb a.1 b.1 || (a.1 == b.1 && locale_le a.0 b.0)

abbrev pub signals : ParsedTask → Dict ParsedTask → List Text → RepoOrder
signals task pending known = signal_dependencies known pending task.dependencies (
    signal_scopes known task.file_scope
      (record { first_appearance = []; cursor = 0; has_primary_signal = false }))

unfoldable pub infer_task_repo_order :
    (Text → Text → Bool) → ParsedTask → Dict ParsedTask → List Text → InferredRepoOrder
unfolding signal_dependencies signal_scopes record_repo normalize_repo_id_candidate sort_by
infer_task_repo_order locale_le task pending known =
    let s = signals task pending known in
    let final = record_resolved known task.resolved_repo_id s in
    if not s.has_primary_signal
    then record {
      repo_ids =
          or_default (normalize_repo_id_candidate (text_or_empty task.resolved_repo_id)) ∷ [];
      used_fallback = true;
    }
    else record {
      repo_ids =
          map (λ (e : Text × ℕ). e.0) (sort_by (by_appearance locale_le) final.first_appearance);
      used_fallback = false;
    }
