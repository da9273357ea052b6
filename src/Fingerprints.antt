-- ===== src/Fingerprints.antt =====
-- extensions/taskplane/verification.ts: the fingerprints of failed tests, before and after a merge.
mod Keys
mod Diff
mod Tests
use taskplane.Base.{if◌then◌else◌, not, List, [], ◌∷◌, ◌++◌, Text, text, has, add, filter, map}

pub data FailureKind : Type 0 where
  assertion_error : FailureKind
  runtime_error : FailureKind
  timeout : FailureKind
  command_error : FailureKind
  unknown_failure : FailureKind

pub record TestFingerprint : Type 0 where
  pub command_id : Text
  pub file : Text
  pub case : Text
  pub kind : FailureKind
  pub message_norm : Text

pub record FingerprintDiff : Type 0 where
  pub new_failures : List TestFingerprint
  pub pre_existing : List TestFingerprint
  pub fixed : List TestFingerprint

-- The constructor's string.
abbrev pub kind_text : FailureKind → Text
kind_text assertion_error = text "assertion_error"
kind_text runtime_error = text "runtime_error"
kind_text timeout = text "timeout"
kind_text command_error = text "command_error"
kind_text unknown_failure = text "unknown"

unfoldable pub fingerprint_key : TestFingerprint → Text
fingerprint_key fp =
    fp.command_id
    ++ 0 ∷ (fp.file ++ 0 ∷ (fp.case ++ 0 ∷ (kind_text fp.kind ++ 0 ∷ fp.message_norm)))

-- The loop, with the keys `seen` before it; to add a key that is there changes nothing.
pub unseen : List Text → List TestFingerprint → List TestFingerprint
unfolding fingerprint_key has add
unseen seen [] = []
unseen seen (fp ∷ fps) =
    let rest = unseen (add (fingerprint_key fp) seen) fps in
    if has (fingerprint_key fp) seen then rest else fp ∷ rest

unfoldable pub deduplicate_fingerprints : List TestFingerprint → List TestFingerprint
unfolding unseen
deduplicate_fingerprints = unseen []

abbrev pub key_set : List TestFingerprint → List Text
key_set = map fingerprint_key

unfoldable pub diff_fingerprints : List TestFingerprint → List TestFingerprint → FingerprintDiff
unfolding deduplicate_fingerprints
diff_fingerprints baseline post_merge =
    let before = deduplicate_fingerprints baseline in
    let after = deduplicate_fingerprints post_merge in
    record {
      new_failures = filter (λ fp. not (has (fingerprint_key fp) (key_set before))) after;
      pre_existing = filter (λ fp. has (fingerprint_key fp) (key_set before)) after;
      fixed = filter (λ fp. not (has (fingerprint_key fp) (key_set after))) before;
    }
