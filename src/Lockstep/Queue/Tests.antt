-- ===== src/Lockstep/Queue/Tests.antt =====
-- The queue on small inputs: inputs 5 and 6 are under way as ids 3 and 4.
use kodiak.Base.{◌-◌, ◌≡◌, refl, arith, true, [], ◌∷◌, Returns, drop, length}
use kodiak.Lockstep.Input.{into_input_iter}
use kodiak.Lockstep.Sample.{counting}
use kodiak.Lockstep.Queue.{LockstepInputQueue, push_back, acknowledged, numbered, IsValid, is_full}
use kodiak.Lockstep.Queue.Laws.{acknowledged-Returns, push_back-Returns}

abbrev under_way : LockstepInputQueue counting
under_way = record { inputs = 5 ∷ 6 ∷ []; end = 5 }

under_way-IsValid : IsValid counting under_way
under_way-IsValid = omega arith

acknowledged-Returns_example :
    Returns
      (λ q'.
        (numbered counting q' ≡ record { input_id = 4; inner = 6 } ∷ [])
        × (q'.end ≡ 5)
        × IsValid counting q')
      (acknowledged counting under_way 3)
acknowledged-Returns_example =
    acknowledged-Returns counting under_way 3 under_way-IsValid (omega arith)

push_back-Returns_example :
    Returns
      (λ r.
        (numbered counting r.0
          ≡ record { input_id = 3; inner = 5 }
            ∷ record { input_id = 4; inner = 6 }
            ∷ record { input_id = 5; inner = 7 }
            ∷ [])
        × (into_input_iter r.1 ≡ drop (length r.0.inputs - 2) (numbered counting r.0))
        × IsValid counting r.0)
      (push_back counting under_way 7 true)
unfolding is_full
push_back-Returns_example =
    push_back-Returns counting under_way 7 true under_way-IsValid refl (omega arith) (omega arith)
