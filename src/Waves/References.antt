-- ===== src/Waves/References.antt =====
-- `parseDependencyReference` of extensions/taskplane/discovery.ts.
use taskplane.Base.{
  ◌==◌, if◌then◌else◌, Bool, false, ◌&&◌, ◌||◌, not, Option, none, some, Text, text, is_empty, all,
  refl, ◌≡◌,
}
use taskplane.Base.Chars.{is_upper, is_lower, is_digit, to_upper, to_lower, trim, split_once}

pub record DependencyRef : Type 0 where
  pub raw : Text
  pub area_name : Option Text
  pub task_id : Text

-- `[a-z0-9-]+` without regard to case.
abbrev is_area : Text → Bool
is_area s = not (is_empty s) && all (λ c. is_lower c || is_upper c || is_digit c || c == b'-') s

-- `[A-Z]+-\d+` without regard to case.
is_task_id : Text → Bool
unfolding split_once
is_task_id s = elim (split_once b'-' s) [
  | none ↦ false
  | some p ↦
      not (is_empty p.0)
      && all (λ c. is_lower c || is_upper c) p.0
      && not (is_empty p.1)
      && all is_digit p.1
]

unfoldable pub parse_dependency_reference : Text → DependencyRef
unfolding is_task_id trim to_upper to_lower split_once
parse_dependency_reference raw =
    let trimmed = trim raw in
    let id_only : DependencyRef = record {
      raw = trimmed;
      area_name = none;
      task_id = to_upper trimmed;
    } in
    elim (split_once b'/' trimmed) [
      | none ↦ id_only
      | some p ↦
          if is_area p.0 && is_task_id p.1
          then record { raw = trimmed; area_name = some (to_lower p.0); task_id = to_upper p.1 }
          else id_only
    ]

-- `parseDependencyReference(raw).taskId`.
unfoldable pub dependency_id : Text → Text
dependency_id raw = (parse_dependency_reference raw).task_id

qualified : parse_dependency_reference (text " Platform/tp-12 ") ≡ record {
  raw = text "Platform/tp-12";
  area_name = some (text "platform");
  task_id = text "TP-12";
}
unfolding parse_dependency_reference
qualified = refl
