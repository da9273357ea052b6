-- ===== src/Resume/Eligibility.antt =====
-- `checkResumeEligibility` and `getMergeStatusForWave` of resume.ts.
use taskplane.Base.{
  ℕ, ◌==◌, ◌≡◌, ◌↔◌, refl, ◌⊎◌, inl, inr, if◌then◌else◌, Bool, true, false, List, [], ◌∷◌, ◌++◌,
  Option, none, some, Text, text, arith,
}
use taskplane.Batch.{
  Phase, idle, launching, planning, executing, merging, paused, stopped, completed_phase,
  failed_phase, MergeStatus, MergeResult, BatchState,
}

pub record ResumeEligibility : Type 0 where
  pub eligible : Bool
  pub reason : Text
  pub phase : Phase
  pub batch_id : Text

verdict : BatchState → Bool → Text → ResumeEligibility
verdict state eligible reason = record {
  eligible = eligible;
  reason = text "Batch " ++ (state.batch_id ++ reason);
  phase = state.phase;
  batch_id = state.batch_id;
}

-- The `switch`. The default case, an unknown phase, does not occur in a validated state.
by_phase : BatchState → Bool → Phase → ResumeEligibility
unfolding verdict
by_phase state force paused = verdict state true (text " is paused and can be resumed.")
by_phase state force executing =
    verdict state true (text " was executing when the orchestrator disconnected. Can be resumed.")
by_phase state force merging =
    verdict state true (text " was merging when the orchestrator disconnected. Can be resumed.")
by_phase state force stopped =
    if force
    then verdict state true (text " was stopped by failure policy. Force-resuming (--force).")
    else verdict state false
        (text " was stopped by failure policy. Use --force to resume, or /orch-abort to clean up.")
by_phase state force failed_phase =
    if force
    then verdict state true (text " has a terminal failure. Force-resuming (--force).")
    else verdict state false
        (text " has a terminal failure. Use --force to resume, or /orch-abort to clean up.")
by_phase state force completed_phase = verdict state false (
    text " already completed. "
    ++ ((if force then text "--force cannot resume a completed batch. " else [])
        ++ text "Delete the state file or start a new batch."))
by_phase state force idle =
    verdict state false (text " never started execution. Start a new batch with /orch.")
by_phase state force launching =
    verdict state false (text " is currently launching. Wait for it to start or use /orch-abort.")
by_phase state force planning =
    verdict state false (text " was still in planning phase. Start a new batch with /orch.")

unfoldable pub check_resume_eligibility : BatchState → Bool → ResumeEligibility
unfolding by_phase
check_resume_eligibility state force = by_phase state force state.phase

abbrev pub Interrupted : Phase → Type 0
Interrupted p = (p ≡ paused) ⊎ ((p ≡ executing) ⊎ (p ≡ merging))

-- A batch may be resumed exactly if it is paused, executing or merging, or if it was stopped or has
-- failed and the operator forces it.
pub eligible_iff :
    (state : BatchState) (force : Bool)
    → ((check_resume_eligibility state force).eligible ≡ true) ↔ (
        Interrupted state.phase
        ⊎ ((force ≡ true) × ((state.phase ≡ stopped) ⊎ (state.phase ≡ failed_phase))))
unfolding check_resume_eligibility
eligible_iff state force = (λ h. forth state.phase refl h, λ h. ground arith)
  where
    forth :
        (p : Phase)
        → state.phase ≡ p
        → (by_phase state force p).eligible ≡ true
        → Interrupted state.phase
          ⊎ ((force ≡ true) × ((state.phase ≡ stopped) ⊎ (state.phase ≡ failed_phase)))
    forth paused e h = inl (inl e)
    forth executing e h = inl (inr (inl e))
    forth merging e h = inl (inr (inr e))
    forth stopped e h = inr (ground arith, inl e)
    forth failed_phase e h = inr (ground arith, inr e)
    forth idle e h = absurd (ground arith)
    forth launching e h = absurd (ground arith)
    forth planning e h = absurd (ground arith)
    forth completed_phase e h = absurd (ground arith)

-- The search from the end of the array.
unfoldable pub get_merge_status_for_wave : List MergeResult → ℕ → Option MergeStatus
get_merge_status_for_wave [] wave_index = none
get_merge_status_for_wave (r ∷ results) wave_index =
    elim (get_merge_status_for_wave results wave_index) [
      | some later ↦ some later
      | none ↦ if r.wave_index == wave_index then some r.status else none
    ]

-- A merge result that is appended decides its wave, and leaves the other waves as they were.
pub merge_status-append :
    (results : List MergeResult) (r : MergeResult) (w : ℕ)
    → get_merge_status_for_wave (results ++ r ∷ []) w
      ≡ (if r.wave_index == w then some r.status else get_merge_status_for_wave results w)
unfolding get_merge_status_for_wave
merge_status-append [] r w = refl
merge_status-append (q ∷ results) r w = ground (arith, merge_status-append results r w)
