-- ===== src/Team/Roster/Departures.antt =====
-- The last player of a team leaves it, and one of several does.
use kodiak.Base.{
  ◌≤◌, ◌≡◌, refl, sym, ap, ◌∙◌, subst, arith, true, some, none, List, [], length, is_some,
}
use kodiak.Ids.{PlayerId}
use kodiak.Team.{Member, contains, Team, spawning, joined, JoinedStatus}
use kodiak.Team.Updates.{Removed}
use kodiak.Team.Model.{TeamId, Limits, put, same_id_refl}
use kodiak.Team.Requests.{has_id}
use kodiak.Team.Roster.{has, asked, named, IsSound, World, IsValid}
use kodiak.Team.Roster.Facts.{only_member}
use kodiak.Team.Roster.Moves.{depart-IsValid}

pub no_team-IsSound :
    {Name D M : Type 0} {limits : Limits} → IsSound {Name = Name} {D = D} {M = M} limits none
no_team-IsSound = record {
  distinct = tt;
  unique = tt;
  solo = λ _. omega arith;
  closed = λ _ _. refl;
  members_fit = λ n. cc;
  all_fit = λ n. cc;
}

module _ {Name D M : Type 0} {limits : Limits} (w : World Name D M) (valid : IsValid limits w) where
  module _ (p : PlayerId) (j : JoinedStatus TeamId) (t : Team Name D M) where
    pub last-IsValid :
        w.players p ≡ some (joined j)
        → j.joins ≡ []
        → w.teams j.team_id ≡ some t
        → contains t.members p ≡ true
        → length t.members ≤ 1
        → t.joiners ≡ []
        → IsValid limits (record {
          players = put w.players p (some spawning);
          teams = put w.teams j.team_id none;
        })
    unfolding contains
    last-IsValid e nothing ek here solo no_joiners =
        depart-IsValid w valid p j none e nothing refl
          (λ q ne. sym (ap (λ o. has o q) ek ∙ only_member t.members p q here solo ∙ ne))
          (λ q. sym (ap (λ o. asked o q) ek ∙ ap (λ ids. has_id ids q) no_joiners)) no_team-IsSound
          (λ n. cc)

    pub others-IsValid :
        {rest : List (Member M)}
        → w.players p ≡ some (joined j)
        → j.joins ≡ []
        → w.teams j.team_id ≡ some t
        → is_some t.name ≡ true
        → Removed t.members p rest
        → IsValid limits (record {
          players = put w.players p (some spawning);
          teams = put w.teams j.team_id (some (record t { members = rest }));
        })
    others-IsValid {rest} e nothing ek n r =
        let sound : IsSound limits (some t) = subst (IsSound limits) ek (valid.sound j.team_id) in
        depart-IsValid w valid p j (some (record t { members = rest })) e nothing
          (r.others p ∙ ground (arith, same_id_refl p))
          (λ q ne. r.others q ∙ ground (arith, ne) ∙ ap (λ o. has o q) (sym ek))
          (λ q. ap (λ o. asked o q) (sym ek))
          (record {
            distinct = r.distinct;
            unique = sound.unique;
            solo = λ a. absurd (ground (arith, n, a));
            closed = λ a q. absurd (ground (arith, n, a));
            members_fit = λ n. omega (arith, sound.members_fit n, r.fewer);
            all_fit = λ n. omega (arith, sound.all_fit n, r.fewer);
          })
          (λ _. ap named ek ∙ n)
