-- ===== src/Lockstep/Peers/Tests.antt =====
-- Two players, one of whom looks at the other.
use kodiak.Base.{◌≡◌, Returns}
use kodiak.Collection.Arena
use kodiak.Collection.Arena.Key.{nonzero_key}
use kodiak.Collection.Arena.Invariant.{new-IsValid, insert-IsValid}
use kodiak.Lockstep.Sample.{counting, seven, two}
use kodiak.Lockstep.State.{Players}
use kodiak.Lockstep.Peers.{peers, iter}
use kodiak.Lockstep.Peers.Listing.{PeersOf, iter-PeersOf}

abbrev alone : Players counting
alone = (Arena.insert Arena.new seven (record { input = 0; inner = 7 })).0

abbrev both : Players counting
both = (Arena.insert alone two (record { input = 0; inner = 2 })).0

iter-PeersOf_example :
    Returns (PeersOf counting both two) (iter counting (peers counting both two).0)
    × ((peers counting both two).1 ≡ Arena.get both two)
iter-PeersOf_example = iter-PeersOf counting both two (
    insert-IsValid alone two (record { input = 0; inner = 2 })
      (insert-IsValid Arena.new seven (record { input = 0; inner = 7 }) new-IsValid))
