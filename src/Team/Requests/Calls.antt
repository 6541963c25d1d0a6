-- ===== src/Team/Requests/Calls.antt =====
-- The calls of a store's operations by what they write.
use kodiak.Base.{
  ◌≡◌, refl, false, Option, some, List, [], ◌∷◌, ◌++◌, Returns, returns, length, ◌<◌, lt→ltb,
}
use kodiak.Ids.{PlayerId}
use kodiak.Team.{
  Member, contains, push, replace, remove, Team, without_joiner, update, set_name, add_joiner,
  remove_joiner, add_member, replace_member, remove_member, PlayerStatus, spawning, joined,
  JoinedStatus, JoinUpdate, quit, add_join, remove_join, max_joins, player_update,
}
use kodiak.Team.Updates.{all-not-any}
use kodiak.Team.Model.{TeamId, PlayerTeamModel, put}
use kodiak.Team.Roster.Ids.{drop_id}

module _ {Name D M : Type 0} (m : PlayerTeamModel Name D M) where
  open m use {Store, player, team, update_player, update_team}

  abbrev pub WritesPlayer : Store → PlayerId → PlayerStatus TeamId → Store → Type 0
  WritesPlayer s p status s' = (player s' ≡ put (player s) p (some status)) × (team s' ≡ team s)

  abbrev pub WritesTeam : Store → TeamId → Team Name D M → Store → Type 0
  WritesTeam s k t s' = (player s' ≡ player s) × (team s' ≡ put (team s) k (some t))

  module _ (s : Store) (p : PlayerId) where
    pub quit_call :
        {status : PlayerStatus TeamId}
        → player s p ≡ some status
        → Returns (WritesPlayer s p spawning) (update_player s p quit)
    unfolding player_update
    quit_call e = m.update_player_lem s p quit e refl

    pub join_call :
        {status : PlayerStatus TeamId} (k : TeamId)
        → player s p ≡ some status
        → Returns
            (WritesPlayer s p (joined (record { team_id = k; joins = [] })))
            (update_player s p (JoinUpdate.join k))
    unfolding player_update
    join_call k e = m.update_player_lem s p (JoinUpdate.join k) e refl

    pub add_join_call :
        {j : JoinedStatus TeamId} (k : TeamId)
        → player s p ≡ some (joined j)
        → length j.joins < max_joins
        → Returns
            (WritesPlayer s p (joined (record j { joins = j.joins ++ (k ∷ []) })))
            (update_player s p (add_join k))
    unfolding player_update
    add_join_call {j} k e room =
        m.update_player_lem s p (add_join k) e (rw (lt→ltb (length j.joins) max_joins room))

    pub remove_join_call :
        {j : JoinedStatus TeamId} (k : TeamId)
        → player s p ≡ some (joined j)
        → Returns
            (WritesPlayer s p (joined (record j { joins = drop_id k j.joins })))
            (update_player s p (remove_join k))
    unfolding player_update
    remove_join_call k e = m.update_player_lem s p (remove_join k) e refl

  module _ (s : Store) (k : TeamId) {t : Team Name D M} (e : team s k ≡ some t) where
    pub set_name_call :
        (n : Option Name)
        → Returns (WritesTeam s k (record t { name = n })) (update_team s k (set_name n))
    unfolding update
    set_name_call n = m.update_team_lem s k (set_name n) e refl

    pub add_joiner_call :
        (p : PlayerId)
        → Returns
            (WritesTeam s k (record t { joiners = t.joiners ++ (p ∷ []) }))
            (update_team s k (add_joiner p))
    unfolding update
    add_joiner_call p = m.update_team_lem s k (add_joiner p) e refl

    pub remove_joiner_call :
        (p : PlayerId)
        → Returns (WritesTeam s k (without_joiner t p)) (update_team s k (remove_joiner p))
    unfolding update
    remove_joiner_call p = m.update_team_lem s k (remove_joiner p) e refl

    pub add_member_call :
        (member : Member M)
        → contains t.members member.player_id ≡ false
        → Returns
            (WritesTeam s k
              (record (without_joiner t member.player_id) { members = t.members ++ (member ∷ []) }))
            (update_team s k (add_member member))
    unfolding update without_joiner push
    add_member_call member h =
        m.update_team_lem s k (add_member member) e
          (rw (h, all-not-any t.members member.player_id, h))

    pub replace_member_call :
        (member : Member M) {rest : List (Member M)}
        → replace t.members member ≡ returns rest
        → Returns
            (WritesTeam s k (record t { members = rest }))
            (update_team s k (replace_member member))
    unfolding update
    replace_member_call member h = m.update_team_lem s k (replace_member member) e (rw h)

    pub remove_member_call :
        (p : PlayerId) {rest : List (Member M)}
        → remove t.members p ≡ returns rest
        → Returns (WritesTeam s k (record t { members = rest })) (update_team s k (remove_member p))
    unfolding update
    remove_member_call p h = m.update_team_lem s k (remove_member p) e (rw h)
