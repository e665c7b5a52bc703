-- ===== src/PidSet/Examples.antt =====
-- Two pointers to PIDs that differ in the request id alone.
use protoactor_cpp.Base.{ℕ, ◌+◌, ◌*◌, ◌≡◌, some, none, List, [], ◌∷◌, length, is_some}
use protoactor_cpp.Messages.{Ref}
use protoactor_cpp.PidSet.{key_of, new_pid_set, contains, get_all, pid_set_len}
use protoactor_cpp.PidSet.Members.{
  Call, adds, removes, clears, run, member_after, with_key, at_most_one, contains-run,
}

abbrev ref : ℕ → ℕ → Ref
ref n request = record {
  ptr = 10 * n + request;
  pid = record { address = []; id = n ∷ []; request_id = request };
}

abbrev calls : List Call
calls =
    adds (some (ref 1 0))
    ∷ clears
    ∷ adds (some (ref 1 1))
    ∷ adds (some (ref 1 2))
    ∷ adds (some (ref 3 0))
    ∷ removes (some (ref 3 7))
    ∷ []

contains-run_example :
    let pids = run calls new_pid_set in
    (contains pids (some (ref 1 5)) ≡ is_some (member_after calls (key_of (ref 1 5)) none))
    × (with_key (key_of (ref 1 5)) (get_all pids)
        ≡ at_most_one (member_after calls (key_of (ref 1 5)) none))
    × (pid_set_len pids ≡ length (get_all pids))
contains-run_example = contains-run calls (ref 1 5)
