-- ===== src/Lanes/Forest/Unions.antt =====
-- About the union-find: a sequence of unions from single trees on.
use taskplane.Base.{
  ◌≡◌, refl, if◌then◌else◌, true, List, [], ◌∷◌, some, Text, text_eq, text_eq_iff, has, All, get,
  set, get-set, arith, inl, inr, Bool-cases,
}
use taskplane.Lanes.Forest.{Forest, find_root, attach, union, union_all, singletons}
use taskplane.Lanes.Forest.Rep.{Rep, find_root_ok}
use taskplane.Lanes.Forest.Classes.{Linked, Sound, Merged, attach_ok}

union-find_root :
    (f f1 f2 : Forest) (a b ra rb : Text)
    → find_root f a ≡ some (f1, ra)
    → find_root f1 b ≡ some (f2, rb)
    → union f a b ≡ some (if text_eq ra rb then f2 else attach f2 ra rb)
unfolding union
union-find_root f f1 f2 a b ra rb ea eb = rw (ea, union) (rw (eb, union) refl)

module _ (U : Text → Text → Type 0) (ids : List Text) where
  join_roots :
      (rep : Text → Text) (g : Forest) (a b ra rb : Text)
      → Rep rep ids g
      → ra ≡ rep a
      → rb ≡ rep b
      → has ra ids ≡ true
      → has rb ids ≡ true
      → get ra g.parent ≡ some ra
      → get rb g.parent ≡ some rb
      → Sound U ids rep
      → Linked U a b
      → Merged U ids rep a b (if text_eq ra rb then g else attach g ra rb)
  join_roots rep g a b ra rb kept ea eb ka kb ra_root rb_root sound ab =
      elim (Bool-cases (text_eq ra rb)) [
        | inl e ↦ rw e (record {
          next = rep;
          kept = kept;
          joins = ground (arith, text_eq_iff ra rb);
          coarser = λ x y h. h;
          sound = sound;
        })
        | inr e ↦ rw e (
            rw (ea, eb)
              (attach_ok U ids rep g a b
                (record {
                  kept = kept;
                  known_a = rw ea at ka;
                  known_b = rw eb at kb;
                  root_a = rw ea at ra_root;
                  root_b = rw eb at rb_root;
                  distinct = rw (ea, eb) at e;
                })
                sound ab))
      ]

  union_ok :
      (rep : Text → Text) (f : Forest) (a b : Text)
      → Rep rep ids f
      → has a ids ≡ true
      → has b ids ≡ true
      → Sound U ids rep
      → Linked U a b
      → (g : Forest) × (union f a b ≡ some g) × Merged U ids rep a b g
  union_ok rep f a b kept ha hb sound ab =
      let (f1, ra, ea, fa) = find_root_ok rep ids f a kept ha in
      let (f2, rb, eb, fb) = find_root_ok rep ids f1 b fa.kept hb in
      (
        _,
        union-find_root f f1 f2 a b ra rb ea eb,
        join_roots rep f2 a b ra rb fb.kept fa.is_rep fb.is_rep fa.is_known fb.is_known
            (fb.roots ra fa.is_root) fb.is_root sound ab,
      )

  -- A pair that is to be united.
  pub record Pair (p : Text × Text) : Type 0 where
    pub related : U p.0 p.1
    pub left : has p.0 ids ≡ true
    pub right : has p.1 ids ≡ true

  pub record Joined (rep : Text → Text) (pairs : List (Text × Text)) (g : Forest) : Type 0 where
    pub next : Text → Text
    pub kept : Rep next ids g
    pub joins : All (λ p. next p.0 ≡ next p.1) pairs
    pub coarser : (x y : Text) → rep x ≡ rep y → next x ≡ next y
    pub sound : Sound U ids next

  union_all-next :
      (f g h : Forest) (a b : Text) (pairs : List (Text × Text))
      → union f a b ≡ some g
      → union_all pairs g ≡ some h
      → union_all ((a, b) ∷ pairs) f ≡ some h
  unfolding union_all
  union_all-next f g h a b pairs e rest = rw (e, union_all) rest

  pub union_all_ok :
      (pairs : List (Text × Text)) (rep : Text → Text) (f : Forest)
      → Rep rep ids f
      → Sound U ids rep
      → All Pair pairs
      → (g : Forest) × (union_all pairs f ≡ some g) × Joined rep pairs g
  unfolding union_all
  union_all_ok [] rep f kept sound hs =
      (f, refl, record { next = rep; kept = kept; joins = tt; coarser = λ x y h. h; sound = sound })
  union_all_ok ((a, b) ∷ pairs) rep f kept sound hs =
      let (g, eg, m) =
        union_ok rep f a b kept hs.0.left hs.0.right sound (Linked.link hs.0.related) in
      let (h, eh, j) = union_all_ok pairs m.next g m.kept m.sound hs.1 in
      (
        h,
        union_all-next f g h a b pairs eg eh,
        record {
          next = j.next;
          kept = j.kept;
          joins = (j.coarser a b m.joins, j.joins);
          coarser = λ x y e. j.coarser x y (m.coarser x y e);
          sound = j.sound;
        },
      )

parent-singletons :
    (x : Text) (ids : List Text) (f : Forest)
    → get x (singletons ids f).parent ≡ (if has x ids then some x else get x f.parent)
unfolding singletons has
parent-singletons x [] f = refl
parent-singletons x (id ∷ ids) f = ground (
  arith,
  parent-singletons x ids (record { parent = set id id f.parent; rank = set id 0 f.rank }),
  get-set x id id f.parent,
  text_eq_iff x id,
  text_eq_iff id x,
)

-- At the start each text is its own root.
pub Rep-singletons :
    (ids : List Text) → Rep (λ x. x) ids (singletons ids (record { parent = []; rank = [] }))
Rep-singletons ids = record {
  climbs = λ x h. record {
    parent = x;
    stored = ground (arith, parent-singletons x ids (record { parent = []; rank = [] }));
    known = h;
    same = refl;
    higher = λ e. absurd (ground (arith, text_eq_iff x x));
  };
  root = λ x h. refl;
}
