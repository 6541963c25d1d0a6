-- ===== src/Team/Roster/Created.antt =====
-- A new team, which is empty and anonymous.
use kodiak.Base.{◌≡◌, refl, sym, ap, arith, some, none}
use kodiak.Team.{new_team}
use kodiak.Team.Model.{TeamId, Limits, put}
use kodiak.Team.Roster.{has, asked, IsSound, World, IsValid}
use kodiak.Team.Roster.Steps.{set_team-IsValid}

new_team-IsSound :
    {Name D M : Type 0} (limits : Limits) (d : D)
    → IsSound {Name = Name} {M = M} limits (some (new_team d))
unfolding new_team
new_team-IsSound limits d = record {
  distinct = tt;
  unique = tt;
  solo = λ _. omega arith;
  closed = λ _ _. refl;
  members_fit = λ n. cc;
  all_fit = λ n. cc;
}

pub created-IsValid :
    {Name D M : Type 0} {limits : Limits} (w : World Name D M) (k : TeamId) (d : D)
    → IsValid limits w
    → w.teams k ≡ none
    → IsValid limits (record { players = w.players; teams = put w.teams k (some (new_team d)) })
unfolding new_team
created-IsValid {limits = limits} w k d valid e =
    set_team-IsValid w valid k (some (new_team d)) (λ q. ap (λ o. has o q) (sym e))
      (λ q. ap (λ o. asked o q) (sym e)) (new_team-IsSound limits d) (λ q i h n. cc)
