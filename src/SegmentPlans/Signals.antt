-- ===== src/SegmentPlans/Signals.antt =====
-- About the repositories that `inferTaskRepoOrder` of waves.ts meets.
use taskplane.Base.{
  ◌≤◌, ◌≡◌, refl, ap, ◌∙◌, true, false, ◌⊎◌, inl, inr, List, [], ◌∷◌, is_empty, length, Option,
  none, some, Text, text_eq_iff, text_eq_refl, has, has-add, count, add, Distinct, Distinct-add,
  Dict, get, keys, length-append, arith, Bool-cases,
}
use taskplane.Types.{ParsedTask}
use taskplane.Lanes.Repos.Keys.{keys-set}
use taskplane.Waves.References.{parse_dependency_reference}
use taskplane.SegmentPlans.{
  RepoOrder, is_refused, appear, record_candidate, record_repo, mark_signal, resolved_of,
  signal_resolved, record_resolved, signal, signal_scopes, signal_dependencies, signals,
  normalize_repo_id_candidate, extract_repo_prefix_from_file_scope,
}

-- What holds of the repositories met so far.
pub record Inv (known : List Text) (s : RepoOrder) : Type 0 where
  pub distinct : Distinct (keys s.first_appearance)
  pub known_only :
      is_empty known ≡ false
      → (x : Text) → has x (keys s.first_appearance) ≡ true
      → has x known ≡ true
  pub some_repo : s.has_primary_signal ≡ true → 1 ≤ length (keys s.first_appearance)

some_length : (x : Text) (ks : List Text) → has x ks ≡ true → 1 ≤ length ks
unfolding has
some_length x [] h = absurd (cc)
some_length x (k ∷ ks) h = omega arith

length-add-le : (x : Text) (ks : List Text) → length ks ≤ length (add x ks)
unfolding add
length-add-le x ks = ground (arith, length-append ks (x ∷ []))

some_or_none : {A : Type 0} (o : Option A) → (o ≡ none) ⊎ ((x : A) × (o ≡ some x))
some_or_none none = inl refl
some_or_none (some x) = inr (x, refl)

module _ (known : List Text) where
  keys-appear :
      (repo : Text) (s : RepoOrder)
      → keys (appear repo s).first_appearance ≡ add repo (keys s.first_appearance)
  unfolding add
  keys-appear repo s = elim (Bool-cases (has repo (keys s.first_appearance))) [
    | inl e ↦ rw e refl
    | inr e ↦ ground (arith, keys-set repo s.cursor s.first_appearance)
  ]

  signal-appear :
      (repo : Text) (s : RepoOrder) → (appear repo s).has_primary_signal ≡ s.has_primary_signal
  signal-appear repo s = ground arith

  Inv-appear :
      (repo : Text) (s : RepoOrder)
      → is_refused known true repo ≡ false
      → Inv known s
      → Inv known (appear repo s)
  Inv-appear repo s fit inv =
      let same = keys-appear repo s in
      record {
        distinct = rw same (Distinct-add repo (keys s.first_appearance) inv.distinct);
        known_only = λ some_known x h. ground (
          arith,
          inv.known_only some_known x,
          has-add x repo (keys s.first_appearance),
          ap (has x) same,
          text_eq_iff x repo,
        );
        some_repo = λ h. ground (
          arith,
          signal-appear repo s,
          inv.some_repo,
          ap length same,
          length-add-le repo (keys s.first_appearance),
        );
      }

  -- What is met stands among the keys.
  abbrev Recorded : RepoOrder × Option Text → Type 0
  Recorded r =
      Inv known r.0 × ((repo : Text) → r.1 ≡ some repo → 1 ≤ length (keys r.0.first_appearance))

  Inv-record_candidate :
      (c : Option Text) (s : RepoOrder) → Inv known s → Recorded (record_candidate known true c s)
  Inv-record_candidate none s inv = (inv, λ repo e. absurd (cc))
  Inv-record_candidate (some c) s inv = elim (Bool-cases (is_refused known true c)) [
    | inl e ↦ rw e (inv, λ repo h. absurd (cc))
    | inr e ↦
        let present : has c (keys (appear c s).first_appearance) ≡ true =
          ap (has c) (keys-appear c s)
          ∙ ground (arith, has-add c c (keys s.first_appearance), text_eq_refl c) in
        rw e (
          Inv-appear c s e inv,
          λ repo h. some_length c (keys (appear c s).first_appearance) present,
        )
  ]

  Inv-record_repo :
      (raw : Text) (s : RepoOrder) → Inv known s → Recorded (record_repo known true raw s)
  unfolding record_repo
  Inv-record_repo raw s inv = Inv-record_candidate (normalize_repo_id_candidate raw) s inv

  Inv-mark_signal : (r : RepoOrder × Option Text) → Recorded r → Inv known (mark_signal r)
  Inv-mark_signal (s, none) (kept, present) = kept
  Inv-mark_signal (s, some repo) (kept, present) = record {
    distinct = kept.distinct;
    known_only = kept.known_only;
    some_repo = λ h. present repo refl;
  }

  Inv-signal : (raw : Text) (s : RepoOrder) → Inv known s → Inv known (signal known raw s)
  unfolding signal
  Inv-signal raw s inv = Inv-mark_signal (record_repo known true raw s) (Inv-record_repo raw s inv)

  Inv-signal_scopes :
      (scopes : List Text) (s : RepoOrder) → Inv known s → Inv known (signal_scopes known scopes s)
  unfolding signal_scopes
  Inv-signal_scopes [] s inv = inv
  Inv-signal_scopes (entry ∷ scopes) s inv =
      Inv-signal_scopes scopes _ (elim (Bool-cases (is_empty known)) [
        | inl e ↦ rw e inv
        | inr e ↦ rw e (elim (some_or_none (extract_repo_prefix_from_file_scope entry)) [
          | inl none_is ↦ rw none_is inv
          | inr (repo, some_is) ↦ rw some_is (Inv-signal repo s inv)
        ])
      ])

  Inv-signal_resolved :
      (resolved : Option Text) (s : RepoOrder)
      → Inv known s
      → Inv known (signal_resolved known resolved s)
  Inv-signal_resolved none s inv = inv
  Inv-signal_resolved (some []) s inv = inv
  Inv-signal_resolved (some (c ∷ repo)) s inv = Inv-signal (c ∷ repo) s inv

  Inv-signal_dependencies :
      (pending : Dict ParsedTask) (dependencies : List Text) (s : RepoOrder)
      → Inv known s
      → Inv known (signal_dependencies known pending dependencies s)
  unfolding signal_dependencies
  Inv-signal_dependencies pending [] s inv = inv
  Inv-signal_dependencies pending (raw ∷ dependencies) s inv =
      Inv-signal_dependencies pending dependencies _ (
        Inv-signal_resolved (resolved_of (get (parse_dependency_reference raw).task_id pending)) s
          inv)

  pub Inv-record_resolved :
      (resolved : Option Text) (s : RepoOrder)
      → Inv known s
      → Inv known (record_resolved known resolved s)
  Inv-record_resolved none s inv = inv
  Inv-record_resolved (some []) s inv = inv
  Inv-record_resolved (some (c ∷ repo)) s inv = (Inv-record_repo (c ∷ repo) s inv).0

  -- Recording the task's own repository keeps those that are there.
  pub more-record_resolved :
      (resolved : Option Text) (s : RepoOrder)
      → length (keys s.first_appearance)
        ≤ length (keys (record_resolved known resolved s).first_appearance)
  unfolding record_repo
  more-record_resolved none s = omega arith
  more-record_resolved (some []) s = omega arith
  more-record_resolved (some (c ∷ repo)) s = go (normalize_repo_id_candidate (c ∷ repo))
    where
      go :
          (r : Option Text)
          → length (keys s.first_appearance)
            ≤ length (keys (record_candidate known true r s).0.first_appearance)
      go none = omega arith
      go (some r) = elim (Bool-cases (is_refused known true r)) [
        | inl e ↦ rw e (omega arith)
        | inr e ↦
            rw e (
              omega (arith, ap length (keys-appear r s), length-add-le r (keys s.first_appearance)))
      ]

  pub Inv-signals :
      (task : ParsedTask) (pending : Dict ParsedTask) → Inv known (signals task pending known)
  unfolding count has
  Inv-signals task pending = Inv-signal_dependencies pending task.dependencies _ (
      Inv-signal_scopes task.file_scope _ (record {
        distinct = λ x. omega arith;
        known_only = λ some_known x h. absurd (cc);
        some_repo = λ h. absurd (cc);
      }))
