-- ===== src/RouterGroup/Examples.antt =====
-- The group on small inputs.
use protoactor_cpp.Base.{◌≡◌, refl, some, [], ◌∷◌, Bytes, bytes_beq}
use protoactor_cpp.Pid.{Pid}
use protoactor_cpp.RouterGroup.{add_routee, remove_routee}

abbrev routee : Bytes → Bytes → Pid
routee address id = record { address = address; id = id; request_id = 0 }

-- The PID of the same name at another address goes too.
removes_namesake :
    remove_routee
      (add_routee
        (routee [] (b'a' ∷ []) ∷ routee [] (b'b' ∷ []) ∷ [])
        (some (routee (b'x' ∷ []) (b'a' ∷ []))))
      (some (routee [] (b'a' ∷ [])))
    ≡ routee [] (b'b' ∷ []) ∷ []
unfolding add_routee remove_routee bytes_beq
removes_namesake = refl
