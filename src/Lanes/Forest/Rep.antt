-- ===== src/Lanes/Forest/Rep.antt =====
-- About the union-find: what its steps keep, against a function that names each text's root.
use taskplane.Base.{
  ℕ, zero, suc, ◌+◌, ◌≤◌, ◌<◌, ◌≡◌, refl, sym, ◌∙◌, true, false, List, [], ◌∷◌, some, Text, text_eq,
  text_eq_iff, has, Dict, get, set, get-set, get_or, arith, inl, inr, Bool-cases,
}
use taskplane.Lanes.Forest.{Forest, walk, highest, find_root, rank_of}

-- A text of the forest has a parent in the forest, with the same root and, unless it is its own
-- parent, a higher rank.
pub record Climbs (rep : Text → Text) (ids : List Text) (f : Forest) (x : Text) : Type 0 where
  pub parent : Text
  pub stored : get x f.parent ≡ some parent
  pub known : has parent ids ≡ true
  pub same : rep parent ≡ rep x
  pub higher : text_eq parent x ≡ false → rank_of f x < rank_of f parent

pub record Rep (rep : Text → Text) (ids : List Text) (f : Forest) : Type 0 where
  pub climbs : (x : Text) → has x ids ≡ true → Climbs rep ids f x
  pub root : (x : Text) → get x f.parent ≡ some x → rep x ≡ x

get_highest : (x : Text) (d : Dict ℕ) → get_or d x 0 ≤ highest d
unfolding get
get_highest x [] = omega arith
get_highest x ((k, r) ∷ d) = ground (arith, get_highest x d)

walk-here :
    (fuel : ℕ) (parent : Dict Text) (x p : Text)
    → get x parent ≡ some p
    → text_eq p x ≡ true
    → walk (suc fuel) parent x ≡ some (parent, x)
unfolding walk
walk-here fuel parent x p h e = ground arith

walk-up :
    (fuel : ℕ) (parent : Dict Text) (x p grand : Text)
    → get x parent ≡ some p
    → text_eq p x ≡ false
    → get p parent ≡ some grand
    → walk (suc fuel) parent x ≡ walk fuel (set x grand parent) grand
unfolding walk
walk-up fuel parent x p grand h e g = ground arith

find_root-walk :
    (f : Forest) (x : Text) (r : Dict Text × Text)
    → walk (suc (highest f.rank)) f.parent x ≡ some r
    → find_root f x ≡ some (record f { parent = r.0 }, r.1)
unfolding find_root
find_root-walk f x r h = rw (h, find_root) refl

module _ (rep : Text → Text) (ids : List Text) where
  -- What a search leaves of the forest.
  pub record Found (x : Text) (f g : Forest) (r : Text) : Type 0 where
    pub kept : Rep rep ids g
    pub ranks : g.rank ≡ f.rank
    pub is_rep : r ≡ rep x
    pub is_root : get r g.parent ≡ some r
    pub is_known : has r ids ≡ true
    pub roots : (y : Text) → get y f.parent ≡ some y → get y g.parent ≡ some y

  unfoldable halve : Forest → Text → Text → Forest
  halve f x grand = record f { parent = set x grand f.parent }

  Rep-halve :
      (f : Forest) (x : Text) (c : Climbs rep ids f x) (d : Climbs rep ids f c.parent)
      → Rep rep ids f
      → text_eq c.parent x ≡ false
      → Rep rep ids (halve f x d.parent)
  unfolding halve
  Rep-halve f x c d kept below = record { climbs = climbs; root = root }
    where
      above : rank_of f x < rank_of f d.parent
      above = ground (arith, c.higher, d.higher, text_eq_iff d.parent c.parent)

      climbs : (y : Text) → has y ids ≡ true → Climbs rep ids (halve f x d.parent) y
      climbs y hy = elim (Bool-cases (text_eq x y)) [
        | inl e ↦ record {
          parent = d.parent;
          stored = ground (arith, get-set y x d.parent f.parent);
          known = d.known;
          same = d.same ∙ c.same ∙ ground (arith, text_eq_iff x y);
          higher = λ _. ground (arith, above, text_eq_iff x y);
        }
        | inr e ↦
            let k = kept.climbs y hy in
            record {
              parent = k.parent;
              stored = ground (arith, get-set y x d.parent f.parent, k.stored);
              known = k.known;
              same = k.same;
              higher = k.higher;
            }
      ]

      root : (y : Text) → get y (halve f x d.parent).parent ≡ some y → rep y ≡ y
      root y h = ground (arith, get-set y x d.parent f.parent, kept.root y, text_eq_iff x y, above)

  Found-here :
      (f : Forest) (x : Text) (c : Climbs rep ids f x)
      → Rep rep ids f
      → has x ids ≡ true
      → text_eq c.parent x ≡ true
      → Found x f f x
  Found-here f x c kept hx e =
      let own : get x f.parent ≡ some x = ground (arith, c.stored, text_eq_iff c.parent x) in
      record {
        kept = kept;
        ranks = refl;
        is_rep = sym (kept.root x own);
        is_root = own;
        is_known = hx;
        roots = λ y h. h;
      }

  Found-up :
      (f g : Forest) (x r : Text) (c : Climbs rep ids f x) (d : Climbs rep ids f c.parent)
      → text_eq c.parent x ≡ false
      → Found d.parent (halve f x d.parent) g r
      → Found x f g r
  unfolding halve
  Found-up f g x r c d below found = record {
    kept = found.kept;
    ranks = found.ranks;
    is_rep = found.is_rep ∙ d.same ∙ c.same;
    is_root = found.is_root;
    is_known = found.is_known;
    roots = λ y h. found.roots y (
        ground (
          arith,
          get-set y x d.parent f.parent,
          c.stored,
          text_eq_iff x y,
          text_eq_iff c.parent x,
        ));
  }

  walk_ok :
      (fuel : ℕ) (f : Forest) (x : Text)
      → Rep rep ids f
      → has x ids ≡ true
      → highest f.rank < rank_of f x + fuel
      → (r : Dict Text × Text) × (walk fuel f.parent x ≡ some r)
        × Found x f (record f { parent = r.0 }) r.1
  unfolding halve
  walk_ok zero f x kept hx h = absurd (omega (arith, get_highest x f.rank))
  walk_ok (suc fuel) f x kept hx h =
      let c = kept.climbs x hx in
      let d = kept.climbs c.parent c.known in
      elim (Bool-cases (text_eq c.parent x)) [
        | inl e ↦ (
          (f.parent, x),
          walk-here fuel f.parent x c.parent c.stored e,
          Found-here f x c kept hx e,
        )
        | inr e ↦
            let (r, runs, found) =
              walk_ok fuel (halve f x d.parent) d.parent (Rep-halve f x c d kept e) d.known
                (ground (arith, h, c.higher, d.higher, text_eq_iff d.parent c.parent)) in
            (
              r,
              walk-up fuel f.parent x c.parent d.parent c.stored e d.stored ∙ runs,
              Found-up f _ x r.1 c d e found,
            )
      ]

  pub find_root_ok :
      (f : Forest) (x : Text)
      → Rep rep ids f
      → has x ids ≡ true
      → (g : Forest) × (r : Text) × (find_root f x ≡ some (g, r)) × Found x f g r
  unfolding find_root
  find_root_ok f x kept hx =
      let (r, runs, found) = walk_ok (suc (highest f.rank)) f x kept hx (omega arith) in
      (record f { parent = r.0 }, r.1, find_root-walk f x r runs, found)
