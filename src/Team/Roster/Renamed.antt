-- ===== src/Team/Roster/Renamed.antt =====
-- A team that gets a name or loses it, and a member whose manifestation is replaced.
use kodiak.Base.{◌≤◌, ◌≡◌, sym, ap, ◌∙◌, subst, arith, true, false, some, none, List, [], length}
use kodiak.Ids.{PlayerId}
use kodiak.Team.{Member, contains, Team}
use kodiak.Team.Updates.{Replaced}
use kodiak.Team.Model.{TeamId, Limits, put, same_id-eq}
use kodiak.Team.Requests.{has_id}
use kodiak.Team.Roster.{asks, has, asked, named, IsSound, World, IsValid}
use kodiak.Team.Roster.Facts.{only_member}
use kodiak.Team.Roster.Steps.{set_team-IsValid}

-- A team of one may have a name.
pub record AllowsOne (limits : Limits) : Type 0 where
  pub one_member : 1 ≤ limits.max_members
  pub one_in_all : 1 ≤ limits.max_members_and_joiners

module _ {Name D M : Type 0} {limits : Limits} (w : World Name D M) (valid : IsValid limits w) where
  module _ (k : TeamId) (t : Team Name D M) (ek : w.teams k ≡ some t) where
    pub replace-IsValid :
        (rest : List (Member M))
        → Replaced t.members rest
        → IsValid limits (record {
          players = w.players;
          teams = put w.teams k (some (record t { members = rest }));
        })
    replace-IsValid rest r =
        let sound : IsSound limits (some t) = subst (IsSound limits) ek (valid.sound k) in
        set_team-IsValid w valid k (some (record t { members = rest }))
          (λ q. r.same q ∙ ap (λ o. has o q) (sym ek)) (λ q. ap (λ o. asked o q) (sym ek))
          (record {
            distinct = r.distinct;
            unique = sound.unique;
            solo = λ n. omega (arith, sound.solo n, r.as_many);
            closed = sound.closed;
            members_fit = λ n. omega (arith, sound.members_fit n, r.as_many);
            all_fit = λ n. omega (arith, sound.all_fit n, r.as_many);
          })
          (λ q i h n. valid.settled q k i h (ap named ek ∙ n))

    pub named-IsValid :
        (p : PlayerId) (n : Name)
        → AllowsOne limits
        → contains t.members p ≡ true
        → length t.members ≤ 1
        → t.joiners ≡ []
        → ((i : TeamId) → asks (w.players p) i ≡ false)
        → IsValid limits (record {
          players = w.players;
          teams = put w.teams k (some (record t { name = some n }));
        })
    named-IsValid p n allows here solo nobody silent =
        let sound : IsSound limits (some t) = subst (IsSound limits) ek (valid.sound k) in
        set_team-IsValid w valid k (some (record t { name = some n }))
          (λ q. ap (λ o. has o q) (sym ek)) (λ q. ap (λ o. asked o q) (sym ek))
          (record {
            distinct = sound.distinct;
            unique = sound.unique;
            solo = λ a. cc;
            closed = λ a. cc;
            members_fit = λ _. omega (arith, allows.one_member);
            all_fit = λ _. omega (arith, allows.one_in_all, ap (length {A = PlayerId}) nobody);
          })
          λ q i h _.
            let e : p ≡ q = same_id-eq p q (
              sym (only_member t.members p q here solo)
              ∙ ap (λ o. has o q) (sym ek)
              ∙ sym (valid.home q k)
              ∙ h) in
            ap (λ q. asks (w.players q) i) (sym e) ∙ silent i

    pub unnamed-IsValid :
        length t.members ≤ 1
        → t.joiners ≡ []
        → IsValid limits (record {
          players = w.players;
          teams = put w.teams k (some (record t { name = none }));
        })
    unnamed-IsValid solo nobody =
        let sound : IsSound limits (some t) = subst (IsSound limits) ek (valid.sound k) in
        set_team-IsValid w valid k (some (record t { name = none }))
          (λ q. ap (λ o. has o q) (sym ek)) (λ q. ap (λ o. asked o q) (sym ek))
          (record {
            distinct = sound.distinct;
            unique = sound.unique;
            solo = λ _. solo;
            closed = λ _ q. ap (λ ids. has_id ids q) nobody;
            members_fit = λ n. cc;
            all_fit = λ n. cc;
          })
          (λ q i h n. cc)
