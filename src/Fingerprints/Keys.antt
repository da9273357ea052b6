-- ===== src/Fingerprints/Keys.antt =====
-- About `fingerprintKey` of verification.ts.
use taskplane.Base.{
  ℕ, ◌≡◌, refl, ap, [], ◌∷◌, ◌++◌, Text, arith, all, not, ◌==◌, if◌then◌else◌, sym, ◌∙◌, true,
}
use taskplane.Fingerprints.{
  FailureKind, assertion_error, runtime_error, timeout, command_error, unknown_failure,
  TestFingerprint, kind_text, fingerprint_key,
}

-- No code unit is NUL.
abbrev pub NulFree : Text → Type 0
NulFree s = all (λ c. not (c == 0)) s ≡ true

head_eq : {a b : ℕ} {s t : Text} → a ∷ s ≡ b ∷ t → a ≡ b
head_eq e = cc

tail_eq : {a b : ℕ} {s t : Text} → a ∷ s ≡ b ∷ t → s ≡ t
tail_eq e = cc

-- A field that holds no NUL ends at the first one.
field_end : (s t u v : Text) → NulFree s → NulFree t → s ++ 0 ∷ u ≡ t ++ 0 ∷ v → (s ≡ t) × (u ≡ v)
field_end [] [] u v hs ht e = (refl, tail_eq e)
field_end [] (b ∷ t) u v hs ht e = absurd (ground (arith, head_eq e))
field_end (a ∷ s) [] u v hs ht e = absurd (ground (arith, head_eq e))
field_end (a ∷ s) (b ∷ t) u v hs ht e =
    let (same, rest) = field_end s t u v (ground arith) (ground arith) (tail_eq e) in
    let first : a ≡ b = head_eq e in (rw (first, same) refl, rest)

kind_text-NulFree : (k : FailureKind) → NulFree (kind_text k)
kind_text-NulFree assertion_error = refl
kind_text-NulFree runtime_error = refl
kind_text-NulFree timeout = refl
kind_text-NulFree command_error = refl
kind_text-NulFree unknown_failure = refl

abbrev kind_of : Text → FailureKind
kind_of [] = unknown_failure
kind_of (c ∷ _) =
    if c == b'a'
    then assertion_error
    else (if c == b'r'
        then runtime_error
        else (if c == b't'
            then timeout
            else (if c == b'c' then command_error else unknown_failure)))

kind_of-kind_text : (k : FailureKind) → kind_of (kind_text k) ≡ k
kind_of-kind_text assertion_error = refl
kind_of-kind_text runtime_error = refl
kind_of-kind_text timeout = refl
kind_of-kind_text command_error = refl
kind_of-kind_text unknown_failure = refl

kind_text-injective : (k l : FailureKind) → kind_text k ≡ kind_text l → k ≡ l
kind_text-injective k l e = sym (kind_of-kind_text k) ∙ ap kind_of e ∙ kind_of-kind_text l

-- The fields before the message hold no NUL, as file names and command names do not.
pub record Plain (fp : TestFingerprint) : Type 0 where
  pub command_id : NulFree fp.command_id
  pub file : NulFree fp.file
  pub case : NulFree fp.case

-- Two fingerprints whose command, file and case hold no NUL have the same key only if they agree in
-- all five fields.
pub fingerprint_key_injective :
    (a b : TestFingerprint) → Plain a → Plain b → fingerprint_key a ≡ fingerprint_key b → a ≡ b
unfolding fingerprint_key
fingerprint_key_injective a b pa pb e =
    let (command, e1) = field_end a.command_id b.command_id _ _ pa.command_id pb.command_id e in
    let (file, e2) = field_end a.file b.file _ _ pa.file pb.file e1 in
    let (case_, e3) = field_end a.case b.case _ _ pa.case pb.case e2 in
    let (kind, message) =
      field_end (kind_text a.kind) (kind_text b.kind) _ _ (kind_text-NulFree a.kind)
        (kind_text-NulFree b.kind) e3 in
    let same_kind = kind_text-injective a.kind b.kind kind in
    cc (command, file, case_, same_kind, message)
