-- ===== src/Lanes/Scopes.antt =====
-- The file scopes of waves.ts: `normalizeScope`, `scopesOverlap` and `taskScopesOverlap`.
pub mod Overlap
use taskplane.Base.{
  ℕ, ◌==◌, if◌then◌else◌, Bool, true, false, not, ◌&&◌, ◌||◌, List, [], ◌∷◌, ◌++◌, map, any,
  is_empty, Option, none, some, Text, text, text_eq,
}
use taskplane.Base.Chars.{trim, starts_with, has_code, split_once}
use taskplane.Types.{ParsedTask}

abbrev pub to_slash : ℕ → ℕ
to_slash c = if c == b'\\' then b'/' else c

-- A run of slashes becomes one.
squeeze : Text → Text
unfolding starts_with
squeeze [] = []
squeeze (c ∷ s) =
    let rest = squeeze s in if c == b'/' && starts_with s (b'/' ∷ []) then rest else c ∷ rest

drop_last_slash : Text → Text
drop_last_slash [] = []
drop_last_slash (c ∷ []) = if c == b'/' then [] else c ∷ []
drop_last_slash (c ∷ d ∷ s) = c ∷ drop_last_slash (d ∷ s)

unfoldable pub normalize_scope : Text → Text
unfolding squeeze drop_last_slash trim
normalize_scope scope = drop_last_slash (squeeze (trim (map to_slash scope)))

unfoldable pub is_glob_scope : Text → Bool
unfolding has_code
is_glob_scope scope = has_code b'*' scope

unfoldable pub prefix_of_glob : Text → Text
unfolding drop_last_slash split_once
prefix_of_glob scope = elim (split_once b'*' scope) [ none ↦ scope | some p ↦ drop_last_slash p.0 ]

unfoldable pub path_starts_with_segment : Text → Text → Bool
unfolding text_eq starts_with
path_starts_with_segment path_value prefix =
    is_empty prefix || text_eq path_value prefix || starts_with path_value (prefix ++ b'/' ∷ [])

-- The tests after the normalisation.
unfoldable pub normal_scopes_overlap : Text → Text → Bool
unfolding text_eq is_glob_scope prefix_of_glob path_starts_with_segment
normal_scopes_overlap a b =
    if is_empty a || is_empty b
    then false
    else (if text_eq a b
        then true
        else (if not (is_glob_scope a) && not (is_glob_scope b)
            then false
            else (if is_glob_scope a && not (is_glob_scope b)
                then path_starts_with_segment b (prefix_of_glob a)
                else (if not (is_glob_scope a) && is_glob_scope b
                    then path_starts_with_segment a (prefix_of_glob b)
                    else (path_starts_with_segment (prefix_of_glob a) (prefix_of_glob b)
                        || path_starts_with_segment (prefix_of_glob b) (prefix_of_glob a))))))

unfoldable pub scopes_overlap : Text → Text → Bool
unfolding normal_scopes_overlap normalize_scope
scopes_overlap a b = normal_scopes_overlap (normalize_scope a) (normalize_scope b)

-- The two loops; of an empty scope nothing overlaps.
unfoldable pub task_scopes_overlap : ParsedTask → ParsedTask → Bool
unfolding scopes_overlap
task_scopes_overlap a b = any (λ s. any (λ t. scopes_overlap s t) b.file_scope) a.file_scope
