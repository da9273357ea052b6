-- ===== src/Segments/Recovery.antt =====
-- What the recovery tools leave in the segment records.
use taskplane.Base.{
  ℕ, ◌+◌, ◌≡◌, ◌≢◌, refl, ap, ◌∙◌, none, false, inl, inr, if◌then◌else◌, Bool, true, not, ◌&&◌,
  List, [], ◌∷◌, map, filter, all, some, Text, text_eq, arith, ◌⊎◌,
}
use taskplane.Batch.{
  Status, pending, running, succeeded, failed, stalled, skipped, held, SegmentRecord, BatchState,
}
use taskplane.Segments.{
  is_settled, is_unfinished, mark_task_segments_skipped, skip_segment, segments_for_task, executed,
  ReExecutionOutcome, apply_re_execution_outcome_to_segments, apply_outcome,
}

all_settled :
    (task_id : Text) (now : ℕ) (segments : List SegmentRecord)
    → all
        (λ (s : SegmentRecord). is_settled s.status)
        (filter
          (λ (s : SegmentRecord). text_eq s.task_id task_id)
          (map (skip_segment task_id now) segments))
      ≡ true
all_settled task_id now [] = refl
all_settled task_id now (s ∷ segments) = ground (arith, all_settled task_id now segments)

none_unsettled :
    (task_id : Text) (now : ℕ) (segments : List SegmentRecord)
    → filter
        (λ (s : SegmentRecord). text_eq s.task_id task_id && not (is_settled s.status))
        (map (skip_segment task_id now) segments)
      ≡ []
none_unsettled task_id now [] = refl
none_unsettled task_id now (s ∷ segments) = ground (arith, none_unsettled task_id now segments)

skip_segment-settled :
    (task_id : Text) (later : ℕ) (s : SegmentRecord)
    → (text_eq s.task_id task_id ≡ false) ⊎ (is_settled s.status ≡ true)
    → skip_segment task_id later s ≡ s
skip_segment-settled task_id later s (inl e) = rw e refl
skip_segment-settled task_id later s (inr e) = ground arith

skipped_or_other :
    (task_id : Text) (now : ℕ) (s : SegmentRecord)
    → (text_eq (skip_segment task_id now s).task_id task_id ≡ false)
      ⊎ (is_settled (skip_segment task_id now s).status ≡ true)
skipped_or_other task_id now s = ground arith

skip_twice :
    (task_id : Text) (now later : ℕ) (segments : List SegmentRecord)
    → map (skip_segment task_id later) (map (skip_segment task_id now) segments)
      ≡ map (skip_segment task_id now) segments
skip_twice task_id now later [] = refl
skip_twice task_id now later (s ∷ segments) =
    let same =
      skip_segment-settled task_id later (skip_segment task_id now s)
        (skipped_or_other task_id now s) in
    ap (λ t. t ∷ map (skip_segment task_id later) (map (skip_segment task_id now) segments)) same
    ∙ ap (λ ts. skip_segment task_id now s ∷ ts) (skip_twice task_id now later segments)

-- After a task is skipped by the supervisor, each of its segments has succeeded or is skipped; to
-- skip it again, at any later time, names no segment and leaves the whole state as it is.
pub skip_settles :
    (state : BatchState) (task_id : Text) (now later : ℕ)
    → let once = mark_task_segments_skipped state task_id now in
      (all (λ s. is_settled s.status) (segments_for_task once.0 task_id) ≡ true)
      × (mark_task_segments_skipped once.0 task_id later ≡ (once.0, []))
unfolding mark_task_segments_skipped segments_for_task
skip_settles state task_id now later = (
  all_settled task_id now state.segments,
  ap
        (λ segments. (
          record state { segments = segments },
          map (λ (s : SegmentRecord). s.segment_id)
              (filter
                (λ (s : SegmentRecord). text_eq s.task_id task_id && not (is_settled s.status))
                (map (skip_segment task_id now) state.segments)),
        ))
        (skip_twice task_id now later state.segments)
      ∙ ap
          (λ ids. (
            record state { segments = map (skip_segment task_id now) state.segments },
            map (λ (s : SegmentRecord). s.segment_id) ids,
          ))
          (none_unsettled task_id now state.segments),
)

-- One segment record under a recovery tool: what the tool may have done to it.
abbrev pub Others : (SegmentRecord → Bool) → List SegmentRecord → List SegmentRecord → Type 0
Others p [] [] = Unit
Others p (s ∷ ss) (t ∷ ts) = ((p s ≡ true) ⊎ (t ≡ s)) × Others p ss ts
Others p _ _ = ⊥

-- A record started over, with one more retry; its ids and dependencies stay.
abbrev pub Restarted : SegmentRecord → SegmentRecord → Type 0
Restarted s t = t ≡ record s {
  status = pending;
  started_at = none;
  ended_at = none;
  exit_diagnostic = none;
  exit_reason = [];
  retries = s.retries + 1;
}

-- What a retry makes of a segment of the task, by the segment's status.
abbrev pub Retried : Status → SegmentRecord → SegmentRecord → Type 0
Retried failed s t = Restarted s t
Retried stalled s t = Restarted s t
Retried running s t = Restarted s t
Retried skipped s t = Restarted s t
Retried succeeded s t = t ≡ s
Retried pending s t = t ≡ s
Retried held s t = t ≡ s

-- The segments before and after a retry, one by one.
abbrev pub RetriedTask : Text → List SegmentRecord → List SegmentRecord → Type 0
RetriedTask task_id [] [] = Unit
RetriedTask task_id (s ∷ ss) (t ∷ ts) =
    (s.task_id ≡ task_id → Retried s.status s t)
    × (s.task_id ≢ task_id → t ≡ s)
    × RetriedTask task_id ss ts
RetriedTask task_id _ _ = ⊥

Others-outcome :
    (task_id : Text) (ok : Bool) (outcome : ReExecutionOutcome) (id : Text) (now : ℕ)
    (segments : List SegmentRecord)
    → Others
        (λ s. text_eq s.task_id task_id && text_eq s.segment_id id && is_unfinished s.status)
        segments
        (map
          (λ seg. if executed task_id (some id) seg then apply_outcome ok outcome now seg else seg)
          segments)
Others-outcome task_id ok outcome id now [] = tt
Others-outcome task_id ok outcome id now (s ∷ segments) =
    (ground arith, Others-outcome task_id ok outcome id now segments)

-- The outcome of a re-executed segment reaches that segment alone, and only while it is pending or
-- running: no later segment of the task takes it.
pub outcome_spares :
    (segments : List SegmentRecord) (task_id : Text) (ok : Bool) (outcome : ReExecutionOutcome)
    (id : Text) (now : ℕ)
    → Others
        (λ s. text_eq s.task_id task_id && text_eq s.segment_id id && is_unfinished s.status)
        segments
        (apply_re_execution_outcome_to_segments segments task_id ok outcome (some id) now).0
unfolding apply_re_execution_outcome_to_segments
outcome_spares segments task_id ok outcome id now =
    Others-outcome task_id ok outcome id now segments
