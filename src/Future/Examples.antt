-- ===== src/Future/Examples.antt =====
-- A future with one pipe and one continuation.
use protoactor_cpp.Base.{ℕ, ◌≡◌, false, some, List, [], ◌∷◌}
use protoactor_cpp.Messages.{Ref, payload}
use protoactor_cpp.Future.{Future, blocked, success, new_future, result_of}
use protoactor_cpp.Future.Completion.{
  Call, user_message, timeout, continues_with, after_calls, result_never_returns,
}

abbrev ref : ℕ → Ref
ref n = record { ptr = n; pid = record { address = []; id = n ∷ []; request_id = 0 } }

abbrev calls : List (Call ℕ ℕ)
calls = continues_with 5 ∷ user_message (some (ref 1)) (some (payload 6)) ∷ timeout ∷ []

result_never_returns_example :
    result_of (after_calls calls (new_future (ref 1)))
    ≡ blocked (after_calls calls (new_future (ref 1)))
result_never_returns_example = result_never_returns (ref 1) calls

abbrev waiting : Future ℕ ℕ
waiting = record {
  pid = ref 1;
  locked = false;
  done = false;
  result = some (payload 6);
  err = success;
  pipes = ref 2 ∷ [];
  completions = 5 ∷ [];
  log = [];
}
