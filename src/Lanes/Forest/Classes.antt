-- ===== src/Lanes/Forest/Classes.antt =====
-- About the union-find: its trees against the links that made them.
use taskplane.Base.{
  ℕ, ◌+◌, ◌≤◌, ◌<◌, ltb, ◌≡◌, refl, sym, ap, if◌then◌else◌, true, false, List, some, Text, text_eq,
  text_eq_iff, text_eq_refl, has, Dict, get, set, get-set, get_or, get_or-set, arith, ◌⊎◌, inl, inr,
  Bool-cases,
}
use taskplane.Lanes.Forest.{Forest, rank_of, attach}
use taskplane.Lanes.Forest.Rep.{Climbs, Rep}

-- The equivalence that a relation generates.
pub data Linked (U : Text → Text → Type 0) : Text → Text → Type 0 where
  link : {a b : Text} → U a b → Linked U a b
  same : {a : Text} → Linked U a a
  flip : {a b : Text} → Linked U a b → Linked U b a
  chain : {a c : Text} (b : Text) → Linked U a b → Linked U b c → Linked U a c

-- The roots after a root `child` was put under a root `top`.
abbrev moved : (Text → Text) → Text → Text → Text → Text
moved rep child top y = if text_eq (rep y) child then top else rep y

module _ (rep : Text → Text) (ids : List Text) (f : Forest) (child top : Text) where
  record Attached (rank : Dict ℕ) : Type 0 where
    kept : Rep rep ids f
    known : has top ids ≡ true
    child_root : get child f.parent ≡ some child
    top_root : get top f.parent ≡ some top
    distinct : text_eq child top ≡ false
    others : (x : Text) → text_eq x top ≡ false → get_or rank x 0 ≡ rank_of f x
    grows : rank_of f top ≤ get_or rank top 0
    above : rank_of f child < get_or rank top 0

  Rep-Attached :
      (rank : Dict ℕ)
      → Attached rank
      → Rep (moved rep child top) ids (record { parent = set child top f.parent; rank = rank })
  Rep-Attached rank h = record { climbs = climbs; root = root }
    where
      rep_child : rep child ≡ child
      rep_child = h.kept.root child h.child_root

      rep_top : rep top ≡ top
      rep_top = h.kept.root top h.top_root

      climbs :
          (x : Text)
          → has x ids ≡ true
          → Climbs
              (moved rep child top)
              ids
              (record { parent = set child top f.parent; rank = rank })
              x
      climbs x hx = elim (Bool-cases (text_eq child x)) [
        | inl e ↦ record {
          parent = top;
          stored = ground (arith, get-set x child top f.parent);
          known = h.known;
          same = ground (arith, rep_child, rep_top, text_eq_iff child x, text_eq_iff (rep x) child);
          higher = λ _. ground (
            arith,
            h.above,
            h.others child,
            text_eq_iff child x,
            text_eq_iff child top,
            h.distinct,
          );
        }
        | inr e ↦
            let k = h.kept.climbs x hx in
            record {
              parent = k.parent;
              stored = ground (arith, get-set x child top f.parent, k.stored);
              known = k.known;
              same = ap (λ r. if text_eq r child then top else r) k.same;
              higher = λ b. ground (
                arith,
                k.higher,
                k.stored,
                h.top_root,
                h.grows,
                h.others x,
                h.others k.parent,
                text_eq_iff x top,
                text_eq_iff k.parent top,
                text_eq_iff k.parent x,
              );
            }
      ]

      root : (x : Text) → get x (set child top f.parent) ≡ some x → moved rep child top x ≡ x
      root x e = ground (
        arith,
        get-set x child top f.parent,
        h.kept.root x,
        text_eq_iff child x,
        text_eq_iff (rep x) child,
        text_eq_iff child top,
        h.distinct,
      )

moved-cases :
    (rep : Text → Text) (child top x y : Text)
    → moved rep child top x ≡ moved rep child top y
    → (rep x ≡ rep y) ⊎ ((rep x ≡ child) × (rep y ≡ top)) ⊎ ((rep x ≡ top) × (rep y ≡ child))
moved-cases rep child top x y e = elim (Bool-cases (text_eq (rep x) child)) [
  | inl hx ↦ elim (Bool-cases (text_eq (rep y) child)) [
    | inl hy ↦ inl (ground (arith, text_eq_iff (rep x) child, text_eq_iff (rep y) child))
    | inr hy ↦ inr (inl (ground (arith, text_eq_iff (rep x) child)))
  ]
  | inr hx ↦ elim (Bool-cases (text_eq (rep y) child)) [
    | inl hy ↦ inr (inr (ground (arith, text_eq_iff (rep y) child)))
    | inr hy ↦ inl (ground arith)
  ]
]

module _ (U : Text → Text → Type 0) (ids : List Text) where
  -- Texts with one root are linked.
  abbrev pub Sound : (Text → Text) → Type 0
  Sound rep = (x y : Text) → rep x ≡ rep y → Linked U x y

  -- What a union leaves.
  pub record Merged (rep : Text → Text) (a b : Text) (g : Forest) : Type 0 where
    pub next : Text → Text
    pub kept : Rep next ids g
    pub joins : next a ≡ next b
    pub coarser : (x y : Text) → rep x ≡ rep y → next x ≡ next y
    pub sound : Sound next

  moved-Sound :
      (rep : Text → Text) (a b : Text)
      → Sound rep
      → Linked U a b
      → Sound (moved rep (rep a) (rep b))
  moved-Sound rep a b sound ab x y e = elim (moved-cases rep (rep a) (rep b) x y e) [
    | inl h ↦ sound x y h
    | inr (inl (hx, hy)) ↦ chain a (sound x a hx) (chain b ab (sound b y (sym hy)))
    | inr (inr (hx, hy)) ↦ chain b (sound x b hx) (chain a (flip ab) (sound a y (sym hy)))
  ]

  -- One root put under the other, whatever the new ranks.
  Merged-Attached :
      (rep : Text → Text) (f : Forest) (a b : Text) (rank : Dict ℕ)
      → Attached rep ids f (rep a) (rep b) rank
      → Sound rep
      → Linked U a b
      → Merged rep a b (record { parent = set (rep a) (rep b) f.parent; rank = rank })
  Merged-Attached rep f a b rank h sound ab = record {
    next = moved rep (rep a) (rep b);
    kept = Rep-Attached rep ids f (rep a) (rep b) rank h;
    joins = ground (arith, text_eq_refl (rep a), text_eq_refl (rep b));
    coarser = λ x y e. ap (λ r. if text_eq r (rep a) then rep b else r) e;
    sound = moved-Sound rep a b sound ab;
  }

  Merged-flip : {rep : Text → Text} {a b : Text} {g : Forest} → Merged rep b a g → Merged rep a b g
  Merged-flip m = record {
    next = m.next;
    kept = m.kept;
    joins = sym m.joins;
    coarser = m.coarser;
    sound = m.sound;
  }

  pub record Roots (rep : Text → Text) (f : Forest) (ra rb : Text) : Type 0 where
    pub kept : Rep rep ids f
    pub known_a : has ra ids ≡ true
    pub known_b : has rb ids ≡ true
    pub root_a : get ra f.parent ≡ some ra
    pub root_b : get rb f.parent ≡ some rb
    pub distinct : text_eq ra rb ≡ false

  pub attach_ok :
      (rep : Text → Text) (f : Forest) (a b : Text)
      → Roots rep f (rep a) (rep b)
      → Sound rep
      → Linked U a b
      → Merged rep a b (attach f (rep a) (rep b))
  unfolding attach
  attach_ok rep f a b h sound ab = elim (Bool-cases (ltb (rank_of f (rep a)) (rank_of f (rep b)))) [
    | inl lt ↦ rw lt (
        Merged-Attached rep f a b f.rank
          (record {
            kept = h.kept;
            known = h.known_b;
            child_root = h.root_a;
            top_root = h.root_b;
            distinct = h.distinct;
            others = λ x e. refl;
            grows = omega arith;
            above = ground arith;
          })
          sound ab)
    | inr ge ↦ elim (Bool-cases (ltb (rank_of f (rep b)) (rank_of f (rep a)))) [
      | inl gt ↦
          rw (ge, gt)
            (Merged-flip (
              Merged-Attached rep f b a f.rank
                (record {
                  kept = h.kept;
                  known = h.known_a;
                  child_root = h.root_b;
                  top_root = h.root_a;
                  distinct = apart;
                  others = λ x e. refl;
                  grows = omega arith;
                  above = ground arith;
                })
                sound (flip ab)))
      | inr eq ↦
          rw (ge, eq)
            (Merged-flip (
              Merged-Attached rep f b a (set (rep a) (rank_of f (rep a) + 1) f.rank)
                (record {
                  kept = h.kept;
                  known = h.known_a;
                  child_root = h.root_b;
                  top_root = h.root_a;
                  distinct = apart;
                  others = λ x e. ground (
                    arith,
                    get_or-set x (rep a) (rank_of f (rep a) + 1) 0 f.rank,
                    text_eq_iff x (rep a),
                    text_eq_iff (rep a) x,
                  );
                  grows = ground (
                    arith,
                    get_or-set (rep a) (rep a) (rank_of f (rep a) + 1) 0 f.rank,
                    text_eq_refl (rep a),
                  );
                  above = ground (
                    arith,
                    get_or-set (rep a) (rep a) (rank_of f (rep a) + 1) 0 f.rank,
                    text_eq_refl (rep a),
                  );
                })
                sound (flip ab)))
    ]
  ]
    where
      apart : text_eq (rep b) (rep a) ≡ false
      apart = ground (arith, h.distinct, text_eq_iff (rep a) (rep b), text_eq_iff (rep b) (rep a))
