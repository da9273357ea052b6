-- ===== src/Fingerprints/Diff.antt =====
-- About `diffFingerprints` of verification.ts, as set operations on the keys.
use taskplane.Base.{
  ℕ, ◌≡◌, if◌then◌else◌, Bool, not, ◌&&◌, List, [], ◌∷◌, Text, text_eq_iff, has, add, count,
  has-add, count_of_has, has_of_count, filter, arith,
}
use taskplane.Fingerprints.{
  TestFingerprint, fingerprint_key, key_set, unseen, deduplicate_fingerprints, diff_fingerprints,
}

module _ (k : Text) where
  count-unseen :
      (seen : List Text) (fps : List TestFingerprint)
      → count k (key_set (unseen seen fps))
        ≡ (if not (has k seen) && has k (key_set fps) then 1 else 0)
  unfolding unseen has count
  count-unseen seen [] = ground arith
  count-unseen seen (fp ∷ fps) = ground (
    arith,
    count-unseen (add (fingerprint_key fp) seen) fps,
    has-add k (fingerprint_key fp) seen,
    text_eq_iff k (fingerprint_key fp),
  )

  count-deduplicate :
      (fps : List TestFingerprint)
      → count k (key_set (deduplicate_fingerprints fps)) ≡ (if has k (key_set fps) then 1 else 0)
  unfolding deduplicate_fingerprints has
  count-deduplicate fps = count-unseen [] fps

  has-deduplicate :
      (fps : List TestFingerprint)
      → has k (key_set (deduplicate_fingerprints fps)) ≡ has k (key_set fps)
  has-deduplicate fps = ground (
    arith,
    count-deduplicate fps,
    count_of_has k (key_set (deduplicate_fingerprints fps)),
    has_of_count k (key_set (deduplicate_fingerprints fps)),
  )

  count-filter_keys :
      (p : Text → Bool) (fps : List TestFingerprint)
      → count k (key_set (filter (λ fp. p (fingerprint_key fp)) fps))
        ≡ (if p k then count k (key_set fps) else 0)
  unfolding count
  count-filter_keys p [] = ground arith
  count-filter_keys p (fp ∷ fps) =
      ground (arith, count-filter_keys p fps, text_eq_iff k (fingerprint_key fp))

abbrev pub once_if : Bool → ℕ
once_if b = if b then 1 else 0

-- By their keys, the new failures are those after the merge and not before, the pre-existing ones
-- those of both, and the fixed ones those before and not after; each list holds a key once.
pub diff_keys :
    (baseline post_merge : List TestFingerprint) (k : Text)
    → let d = diff_fingerprints baseline post_merge in
      let before = has k (key_set baseline) in
      let after = has k (key_set post_merge) in
      (count k (key_set d.new_failures) ≡ once_if (after && not before))
      × (count k (key_set d.pre_existing) ≡ once_if (after && before))
      × (count k (key_set d.fixed) ≡ once_if (before && not after))
unfolding diff_fingerprints
diff_keys baseline post_merge k =
    let before = deduplicate_fingerprints baseline in
    let after = deduplicate_fingerprints post_merge in
    let seen_before = has-deduplicate k baseline in
    let seen_after = has-deduplicate k post_merge in
    let once_before = count-deduplicate k baseline in
    let once_after = count-deduplicate k post_merge in
    (
      ground (
        arith,
        count-filter_keys k (λ x. not (has x (key_set before))) after,
        seen_before,
        once_after,
      ),
      ground
          (arith, count-filter_keys k (λ x. has x (key_set before)) after, seen_before, once_after),
      ground (
        arith,
        count-filter_keys k (λ x. not (has x (key_set after))) before,
        seen_after,
        once_before,
      ),
    )
