-- ===== src/Lanes/Affinity/Components.antt =====
-- About the affinity groups, against the chains of overlapping file scopes.
use taskplane.Base.{
  ◌≡◌, refl, sym, ◌∙◌, ap, Bool, true, false, List, [], ◌∷◌, ◌++◌, Option, none, some, Text,
  text_eq, text_eq_iff, has, has-cons, has-cons_self, All, All-append, Dict, get, arith, inl, inr,
  Bool-cases, Option-cases,
}
use taskplane.Types.{ParsedTask}
use taskplane.Lanes.Scopes.{task_scopes_overlap}
use taskplane.Lanes.Scopes.Overlap.{task_scopes_overlap_comm}
use taskplane.Lanes.Forest.Classes.{Linked}
use taskplane.Lanes.Forest.Unions.{Pair}
use taskplane.Lanes.Affinity.{overlaps_with, overlapping_pairs}

same_task : {a b : ParsedTask} → some a ≡ some b → a ≡ b
same_task h = cc

-- `pending` is keyed by the ids of its tasks.
abbrev pub Keyed : Dict ParsedTask → Type 0
Keyed pending = (id : Text) (task : ParsedTask) → get id pending ≡ some task → task.task_id ≡ id

pub Keyed-All :
    (pending : Dict ParsedTask)
    → All (λ (e : Text × ParsedTask). e.1.task_id ≡ e.0) pending
    → Keyed pending
unfolding get
Keyed-All [] h id task e = cc
Keyed-All ((k, t) ∷ pending) h id task e = elim (Bool-cases (text_eq k id)) [
  | inl same ↦
      let found : t ≡ task = same_task (rw same at e) in
      rw (← found) (h.0 ∙ (text_eq_iff k id).0 same)
  | inr other ↦ Keyed-All pending h.1 id task (rw other at e)
]

-- Two pending tasks of the wave whose scopes overlap.
pub record Overlapping (pending : Dict ParsedTask) (wave : List Text) (a b : Text) : Type 0 where
  pub first : ParsedTask
  pub second : ParsedTask
  pub first_is : get a pending ≡ some first
  pub second_is : get b pending ≡ some second
  pub first_in : has a wave ≡ true
  pub second_in : has b wave ≡ true
  pub overlap : task_scopes_overlap first second ≡ true

module _ (pending : Dict ParsedTask) (keyed : Keyed pending) (wave : List Text) where
  abbrev pub Related : Text → Text → Type 0
  Related = Overlapping pending wave

  abbrev pub Within : List Text → Type 0
  Within ids = (x : Text) → has x ids ≡ true → has x wave ≡ true

  Pair-of :
      (x y : Text) (a b : ParsedTask)
      → get x pending ≡ some a
      → get y pending ≡ some b
      → has x wave ≡ true
      → has y wave ≡ true
      → task_scopes_overlap a b ≡ true
      → Pair Related wave (a.task_id, b.task_id)
  Pair-of x y a b ea eb hx hy o =
      rw (keyed x a ea, keyed y b eb)
        (record {
          related = record {
            first = a;
            second = b;
            first_is = ea;
            second_is = eb;
            first_in = hx;
            second_in = hy;
            overlap = o;
          };
          left = hx;
          right = hy;
        })

  Pair-overlaps_with :
      (x : Text) (a : ParsedTask) (ids : List Text)
      → get x pending ≡ some a
      → has x wave ≡ true
      → Within ids
      → All (Pair Related wave) (overlaps_with pending (some a) ids)
  unfolding overlaps_with
  Pair-overlaps_with x a [] ea hx w = tt
  Pair-overlaps_with x a (id ∷ ids) ea hx w =
      let rest = Pair-overlaps_with x a ids ea hx (λ y hy. w y (has-cons y id ids hy)) in
      elim (Option-cases (get id pending)) [
        | inl e ↦ rw (e, overlaps_with) rest
        | inr (b, e) ↦ elim (Bool-cases (task_scopes_overlap a b)) [
          | inl o ↦
              rw (e, overlaps_with)
                (rw (o) (Pair-of x id a b ea e hx (w id (has-cons_self id ids)) o, rest))
          | inr o ↦ rw (e, overlaps_with) (rw (o) rest)
        ]
      ]

  Pair-from :
      (id : Text) (a : Option ParsedTask) (ids : List Text)
      → get id pending ≡ a
      → has id wave ≡ true
      → Within ids
      → All (Pair Related wave) (overlaps_with pending a ids)
  unfolding overlaps_with
  Pair-from id none ids e h w = tt
  Pair-from id (some a) ids e h w = Pair-overlaps_with id a ids e h w

  pub Pair-overlapping_pairs :
      (ids : List Text) → Within ids → All (Pair Related wave) (overlapping_pairs pending ids)
  unfolding overlapping_pairs
  Pair-overlapping_pairs [] w = tt
  Pair-overlapping_pairs (id ∷ ids) w =
      let within : Within ids = λ y hy. w y (has-cons y id ids hy) in
      All-append (Pair Related wave) (overlaps_with pending (get id pending) ids)
        (overlapping_pairs pending ids)
        (Pair-from id (get id pending) ids refl (w id (has-cons_self id ids)) within)
        (Pair-overlapping_pairs ids within)

  module _ (rep : Text → Text) where
    abbrev pub Equal : List (Text × Text) → Type 0
    Equal pairs = All (λ (p : Text × Text). rep p.0 ≡ rep p.1) pairs

    Equal-left : (ps qs : List (Text × Text)) → Equal (ps ++ qs) → Equal ps
    Equal-left [] qs h = tt
    Equal-left (p ∷ ps) qs h = (h.0, Equal-left ps qs h.1)

    Equal-right : (ps qs : List (Text × Text)) → Equal (ps ++ qs) → Equal qs
    Equal-right [] qs h = h
    Equal-right (p ∷ ps) qs h = Equal-right ps qs h.1

    overlaps_with-next :
        (a : ParsedTask) (id : Text) (ids : List Text)
        → Equal (overlaps_with pending (some a) (id ∷ ids))
        → Equal (overlaps_with pending (some a) ids)
          × ((b : ParsedTask)
              → get id pending ≡ some b
              → task_scopes_overlap a b ≡ true
              → rep a.task_id ≡ rep b.task_id)
    unfolding overlaps_with
    overlaps_with-next a id ids h = elim (Option-cases (get id pending)) [
      | inl e ↦ (rw (e, overlaps_with) at h, λ b eb o. absurd (cc))
      | inr (c, e) ↦ elim (Bool-cases (task_scopes_overlap a c)) [
        | inl o ↦
            let pair : Equal ((a.task_id, c.task_id) ∷ overlaps_with pending (some a) ids) =
              rw o at (rw (e, overlaps_with) at h) in
            (
              pair.1,
              λ b eb _. pair.0 ∙ ap (λ (t : ParsedTask). rep t.task_id) (same_task (sym e ∙ eb)),
            )
        | inr o ↦
            let rest : Equal (overlaps_with pending (some a) ids) =
              rw o at (rw (e, overlaps_with) at h) in
            (rest, λ b eb ob. absurd (differ o (rw (← same_task (sym e ∙ eb)) at ob)))
      ]
    ]
      where
        differ : {b : Bool} → b ≡ false → b ≡ true → ⊥
        differ f t = cc

    overlaps_with-joins :
        (a b : ParsedTask) (y : Text) (ids : List Text)
        → Equal (overlaps_with pending (some a) ids)
        → has y ids ≡ true
        → get y pending ≡ some b
        → task_scopes_overlap a b ≡ true
        → rep a.task_id ≡ rep b.task_id
    unfolding has
    overlaps_with-joins a b y [] h hy eb o = cc
    overlaps_with-joins a b y (id ∷ ids) h hy eb o =
        let next = overlaps_with-next a id ids h in
        elim (Bool-cases (text_eq y id)) [
          | inl e ↦ next.1 b (rw ((text_eq_iff y id).0 e) at eb) o
          | inr e ↦ overlaps_with-joins a b y ids next.0 (rw e at hy) eb o
        ]

    pub overlapping_pairs-joins :
        (a b : ParsedTask) (x y : Text) (ids : List Text)
        → Equal (overlapping_pairs pending ids)
        → has x ids ≡ true
        → has y ids ≡ true
        → get x pending ≡ some a
        → get y pending ≡ some b
        → task_scopes_overlap a b ≡ true
        → rep x ≡ rep y
    unfolding overlapping_pairs has
    overlapping_pairs-joins a b x y [] h hx hy ea eb o = cc
    overlapping_pairs-joins a b x y (id ∷ ids) h hx hy ea eb o =
        let here = Equal-left (overlaps_with pending (get id pending) ids) _ h in
        let rest = Equal-right (overlaps_with pending (get id pending) ids) _ h in
        elim (Bool-cases (text_eq x id)) [
          | inl ex ↦ elim (Bool-cases (text_eq y id)) [
            | inl ey ↦ ground (arith, text_eq_iff x id, text_eq_iff y id)
            | inr ey ↦
                let ea' : get id pending ≡ some a = rw ((text_eq_iff x id).0 ex) at ea in
                rw (← keyed x a ea, ← keyed y b eb)
                  (overlaps_with-joins a b y ids (rw ea' at here) (rw ey at hy) eb o)
          ]
          | inr ex ↦ elim (Bool-cases (text_eq y id)) [
            | inl ey ↦
                let eb' : get id pending ≡ some b = rw ((text_eq_iff y id).0 ey) at eb in
                rw (← keyed x a ea, ← keyed y b eb)
                  (sym (
                    overlaps_with-joins b a x ids (rw eb' at here) (rw ex at hx) ea
                      (task_scopes_overlap_comm b a ∙ o)))
            | inr ey ↦ overlapping_pairs-joins a b x y ids rest (rw ex at hx) (rw ey at hy) ea eb o
          ]
        ]

    -- Linked tasks have one root, if overlapping ones have.
    pub linked_joins :
        ((x y : Text) → Related x y → rep x ≡ rep y)
        → (x y : Text) → Linked Related x y
        → rep x ≡ rep y
    linked_joins h x y (Linked.link r) = h x y r
    linked_joins h x y Linked.same = refl
    linked_joins h x y (Linked.flip l) = sym (linked_joins h y x l)
    linked_joins h x y (Linked.chain z l m) = linked_joins h x z l ∙ linked_joins h z y m
