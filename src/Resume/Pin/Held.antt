-- ===== src/Resume/Pin/Held.antt =====
-- About the tasks and segments that `pinHeldSegments` of resume.ts leaves held.
use taskplane.Base.{
  ◌≡◌, refl, sym, subst, if◌then◌else◌, Bool, true, false, not, ◌&&◌, List, [], ◌∷◌, ◌++◌, Option,
  none, some, Text, text_eq, text_eq_iff, arith, inl, inr, Bool-cases, ◌∙◌,
}
use taskplane.Batch.{Status, held, SegmentRecord, TaskRecord, BatchState}
use taskplane.Holds.Records.{HoldRecord}
use taskplane.Holds.Authority.{is_hold_unresolved}
use taskplane.Resume.Pin.{
  named, find_task, find_segment, hold_task, hold_segment, is_done, pin_segment, pin_unit,
  pin_found, pin_hold, pin_holds, pin_held_segments,
}

abbrev pub is_held : Status → Bool
is_held held = true
is_held _ = false

abbrev pub is_known : Option TaskRecord → Bool
is_known none = false
is_known (some _) = true

abbrev pub is_task_held : Option TaskRecord → Bool
is_task_held none = false
is_task_held (some t) = is_held t.status

abbrev is_past_unit : List SegmentRecord → Option Text → Bool
is_past_unit segments none = false
is_past_unit segments (some id) = is_done (find_segment id segments)

-- The hold is of a segment that has succeeded.
abbrev pub is_past : List SegmentRecord → HoldRecord → Bool
is_past segments hold = is_past_unit segments (named hold.segment_id)

is_past-eq :
    (u : Option Text) (s next : BatchState)
    → ((k : Text) → is_done (find_segment k next.segments) ≡ is_done (find_segment k s.segments))
    → is_past_unit next.segments u ≡ is_past_unit s.segments u
is_past-eq none s next e = refl
is_past-eq (some id) s next e = e id

same_task : {a b : TaskRecord} → some a ≡ some b → a ≡ b
same_task h = cc

is_known-hold_task :
    (id k : Text) (active : Option Text) (ts : List TaskRecord)
    → is_known (find_task k (hold_task id active ts)) ≡ is_known (find_task k ts)
unfolding hold_task
is_known-hold_task id k active [] = refl
is_known-hold_task id k active (t ∷ ts) = ground (arith, is_known-hold_task id k active ts)

is_task_held-hold_task :
    (id k : Text) (active : Option Text) (ts : List TaskRecord)
    → is_task_held (find_task k (hold_task id active ts))
      ≡ (if text_eq id k then is_known (find_task k ts) else is_task_held (find_task k ts))
unfolding hold_task
is_task_held-hold_task id k active [] = ground arith
is_task_held-hold_task id k active (t ∷ ts) = ground (
  arith,
  is_task_held-hold_task id k active ts,
  text_eq_iff t.task_id id,
  text_eq_iff t.task_id k,
  text_eq_iff id k,
)

is_done-hold_segment :
    (id k : Text) (ss : List SegmentRecord)
    → is_done (find_segment id ss) ≡ false
    → is_done (find_segment k (hold_segment id ss)) ≡ is_done (find_segment k ss)
unfolding hold_segment
is_done-hold_segment id k [] h = refl
is_done-hold_segment id k (s ∷ ss) h =
    ground
      (arith, is_done-hold_segment id k ss, text_eq_iff s.segment_id id, text_eq_iff s.segment_id k)

found_id :
    (k : Text) (ts : List TaskRecord) (t : TaskRecord)
    → find_task k ts ≡ some t
    → text_eq t.task_id k ≡ true
found_id k [] t h = cc
found_id k (u ∷ ts) t h = elim (Bool-cases (text_eq u.task_id k)) [
  | inl e ↦ let same : u ≡ t = same_task (rw e at h) in rw (← same) e
  | inr e ↦ found_id k ts t (rw e at h)
]

-- What a step of the loop keeps.
record Kept (s next : BatchState) : Type 0 where
  done : (k : Text) → is_done (find_segment k next.segments) ≡ is_done (find_segment k s.segments)
  known : (k : Text) → is_known (find_task k next.tasks) ≡ is_known (find_task k s.tasks)
  stays :
      (k : Text)
      → is_task_held (find_task k s.tasks) ≡ true
      → is_task_held (find_task k next.tasks) ≡ true

Kept-same : (s : BatchState) → Kept s s
Kept-same s = record { done = λ k. refl; known = λ k. refl; stays = λ k h. h }

known_of_held : (t : Option TaskRecord) → is_task_held t ≡ true → is_known t ≡ true
known_of_held none h = cc
known_of_held (some t) h = refl

stays-hold_task :
    (id k : Text) (active : Option Text) (ts : List TaskRecord)
    → is_task_held (find_task k ts) ≡ true
    → is_task_held (find_task k (hold_task id active ts)) ≡ true
stays-hold_task id k active ts h =
    ground (arith, is_task_held-hold_task id k active ts, known_of_held (find_task k ts))

Kept-unit : (s : BatchState) (task : TaskRecord) (u : Option Text) → Kept s (pin_unit s task u).0
unfolding pin_unit pin_segment
Kept-unit s task none = record {
  done = λ k. refl;
  known = λ k. is_known-hold_task task.task_id k none s.tasks;
  stays = λ k. stays-hold_task task.task_id k none s.tasks;
}
Kept-unit s task (some id) = elim (Bool-cases (is_done (find_segment id s.segments))) [
  | inl e ↦ rw e (Kept-same s)
  | inr e ↦ rw e (record {
    done = λ k. is_done-hold_segment id k s.segments e;
    known = λ k. is_known-hold_task task.task_id k (some id) s.tasks;
    stays = λ k. stays-hold_task task.task_id k (some id) s.tasks;
  })
]

Kept-found :
    (s : BatchState) (u : Option Text) (found : Option TaskRecord) → Kept s (pin_found s u found).0
unfolding pin_found
Kept-found s u none = Kept-same s
Kept-found s u (some task) = Kept-unit s task u

Kept-hold : (s : BatchState) (hold : HoldRecord) → Kept s (pin_hold s hold).0
unfolding pin_hold
Kept-hold s hold = elim (Bool-cases (is_hold_unresolved hold)) [
  | inl e ↦ rw e (Kept-found s _ _)
  | inr e ↦ rw e (Kept-same s)
]

Kept-holds : (s : BatchState) (holds : List HoldRecord) → Kept s (pin_holds s holds).0
unfolding pin_holds
Kept-holds s [] = Kept-same s
Kept-holds s (hold ∷ holds) =
    let one = Kept-hold s hold in
    let rest = Kept-holds (pin_hold s hold).0 holds in
    record {
      done = λ k. rest.done k ∙ one.done k;
      known = λ k. rest.known k ∙ one.known k;
      stays = λ k h. rest.stays k (one.stays k h);
    }

-- The hold names a task of the batch, and no segment that has succeeded.
abbrev pub is_pinned : BatchState → HoldRecord → Bool
is_pinned s hold =
    is_hold_unresolved hold
    && is_known (find_task hold.task_id s.tasks)
    && not (is_past s.segments hold)

held-unit :
    (s : BatchState) (task : TaskRecord) (u : Option Text) (k : Text)
    → text_eq task.task_id k ≡ true
    → is_known (find_task k s.tasks) ≡ true
    → is_past_unit s.segments u ≡ false
    → is_task_held (find_task k (pin_unit s task u).0.tasks) ≡ true
unfolding pin_unit pin_segment
held-unit s task none k e known past =
    ground (arith, is_task_held-hold_task task.task_id k none s.tasks)
held-unit s task (some id) k e known past =
    rw past (ground (arith, is_task_held-hold_task task.task_id k (some id) s.tasks))

held-found :
    (s : BatchState) (u : Option Text) (found : Option TaskRecord) (k : Text)
    → find_task k s.tasks ≡ found
    → is_known found ≡ true
    → is_past_unit s.segments u ≡ false
    → is_task_held (find_task k (pin_found s u found).0.tasks) ≡ true
unfolding pin_found
held-found s u none k e known past = cc
held-found s u (some task) k e known past =
    held-unit s task u k (found_id k s.tasks task e) (rw e refl) past

held-hold :
    (s : BatchState) (hold : HoldRecord)
    → is_pinned s hold ≡ true
    → is_task_held (find_task hold.task_id (pin_hold s hold).0.tasks) ≡ true
unfolding pin_hold
held-hold s hold h =
    let unresolved : is_hold_unresolved hold ≡ true = ground arith in
    rw unresolved (
      held-found s (named hold.segment_id) (find_task hold.task_id s.tasks) hold.task_id refl
        (ground arith) (ground arith))

is_pinned-hold :
    (s : BatchState) (one hold : HoldRecord)
    → is_pinned s hold ≡ true
    → is_pinned (pin_hold s one).0 hold ≡ true
is_pinned-hold s one hold h =
    let kept = Kept-hold s one in
    ground (
      arith,
      kept.known hold.task_id,
      is_past-eq (named hold.segment_id) s (pin_hold s one).0 kept.done,
    )

held-holds :
    (s : BatchState) (before after : List HoldRecord) (hold : HoldRecord)
    → is_pinned s hold ≡ true
    → is_task_held (find_task hold.task_id (pin_holds s (before ++ hold ∷ after)).0.tasks) ≡ true
unfolding pin_holds
held-holds s [] after hold h =
    (Kept-holds (pin_hold s hold).0 after).stays hold.task_id (held-hold s hold h)
held-holds s (one ∷ before) after hold h =
    held-holds (pin_hold s one).0 before after hold (is_pinned-hold s one hold h)

-- After the pinning, the task of every unresolved hold is held, unless the hold is of a segment that
-- has succeeded or of a task that the batch does not have.
pub pin_held_segments-held :
    (s : BatchState) (before after : List HoldRecord) (hold : HoldRecord)
    → s.holds ≡ before ++ hold ∷ after
    → is_pinned s hold ≡ true
    → is_task_held (find_task hold.task_id (pin_held_segments s).0.tasks) ≡ true
unfolding pin_held_segments
pin_held_segments-held s before after hold e h =
    subst (λ holds. is_task_held (find_task hold.task_id (pin_holds s holds).0.tasks) ≡ true)
      (sym e) (held-holds s before after hold h)
