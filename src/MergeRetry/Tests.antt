-- ===== src/MergeRetry/Tests.antt =====
-- Failures by their reasons, and the retries of a lock file.
use taskplane.Base.{true, false, ◌≡◌, refl, [], some, text}
use taskplane.Base.Chars.{to_lower}
use taskplane.MergeRetry.{git_lock_file, classify_merge_failure, compute_merge_retry_decision}

run : Unit {0}
unfolding classify_merge_failure compute_merge_retry_decision to_lower
run = tt

-- The word names no lock file.
classify_merge_failure-blocked :
    classify_merge_failure [] (some (text "Blocked by cleanup")) ≡ some git_lock_file
unfolding run
classify_merge_failure-blocked = refl

-- A lock file is tried again twice.
retry-first : (compute_merge_retry_decision (some git_lock_file) 1).should_retry ≡ true
unfolding run
retry-first = refl

retry-third : (compute_merge_retry_decision (some git_lock_file) 2).should_retry ≡ false
unfolding run
retry-third = refl
