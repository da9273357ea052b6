-- ===== src/Diagnostics/Tests.antt =====
-- Runs of the classifier.
use taskplane.Base.{◌≡◌, refl, false, true, [], ◌∷◌, none, some, text}
use taskplane.Base.Int.{pos}
use taskplane.Diagnostics.{
  ExitClassificationInput, model_access_error, classify_exit, is_model_access_error,
}
use taskplane.Diagnostics.Evidence.{Evidence, classify_exit-Evidence}

abbrev refused : ExitClassificationInput
refused = record {
  exit_summary = some (record {
    exit_code = some (pos 1);
    retries =
        record { attempt = 1; error = text "HTTP 429 slow"; delay_ms = 5; succeeded = false } ∷ [];
    compactions = 0;
    error = none;
  });
  done_file_found = false;
  timer_killed = true;
  context_killed = none;
  stall_detected = true;
  user_killed = false;
  context_pct = none;
}

classify_exit-refused : classify_exit refused ≡ model_access_error
unfolding classify_exit is_model_access_error
classify_exit-refused = refl

inside_word : is_model_access_error (text "x4290 Model Not Foun") ≡ false
unfolding is_model_access_error
inside_word = refl

phrase : is_model_access_error (text "the Model has_been deprecated") ≡ true
unfolding is_model_access_error
phrase = refl

classify_exit-Evidence_example : Evidence refused (classify_exit refused)
classify_exit-Evidence_example = classify_exit-Evidence refused
