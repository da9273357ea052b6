-- ===== src/Fingerprints/Tests.antt =====
-- A failure that stays, one that is fixed and one that is new.
use taskplane.Base.{◌≡◌, refl, not, ◌&&◌, [], ◌∷◌, Text, text, has, text_eq, add, count}
use taskplane.Fingerprints.{
  FailureKind, assertion_error, timeout, TestFingerprint, fingerprint_key, key_set,
  deduplicate_fingerprints, diff_fingerprints,
}
use taskplane.Fingerprints.Keys.{Plain, fingerprint_key_injective}
use taskplane.Fingerprints.Diff.{once_if, diff_keys}

abbrev failure : Text → FailureKind → TestFingerprint
failure case_ kind = record {
  command_id = text "test";
  file = text "a.ts";
  case = case_;
  kind = kind;
  message_norm = text "expected 1";
}

abbrev stays : TestFingerprint
stays = failure (text "stays") assertion_error

abbrev goes : TestFingerprint
goes = failure (text "goes") timeout

abbrev comes : TestFingerprint
comes = failure (text "comes") timeout

run : Unit {0}
unfolding diff_fingerprints deduplicate_fingerprints fingerprint_key has text_eq add count
run = tt

diff_fingerprints-run :
    diff_fingerprints (stays ∷ goes ∷ stays ∷ []) (comes ∷ stays ∷ comes ∷ [])
    ≡ record { new_failures = comes ∷ []; pre_existing = stays ∷ []; fixed = goes ∷ [] }
unfolding run
diff_fingerprints-run = refl

diff_keys_example :
    let d = diff_fingerprints (stays ∷ goes ∷ []) (comes ∷ stays ∷ []) in
    let before = has (fingerprint_key comes) (key_set (stays ∷ goes ∷ [])) in
    let after = has (fingerprint_key comes) (key_set (comes ∷ stays ∷ [])) in
    (count (fingerprint_key comes) (key_set d.new_failures) ≡ once_if (after && not before))
    × (count (fingerprint_key comes) (key_set d.pre_existing) ≡ once_if (after && before))
    × (count (fingerprint_key comes) (key_set d.fixed) ≡ once_if (before && not after))
diff_keys_example = diff_keys (stays ∷ goes ∷ []) (comes ∷ stays ∷ []) (fingerprint_key comes)

stays-Plain : Plain stays
stays-Plain = record { command_id = refl; file = refl; case = refl }

fingerprint_key_injective_example : stays ≡ stays
fingerprint_key_injective_example =
    fingerprint_key_injective stays stays stays-Plain stays-Plain refl
