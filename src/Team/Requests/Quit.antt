-- ===== src/Team/Requests/Quit.antt =====
-- `player_quit_game` on a valid store.
use kodiak.Base.{
  ◌≤◌, ◌≡◌, refl, sym, ap, ◌∙◌, subst, arith, Bool, true, false, ◌==◌, length, none, some, List, [],
  ◌>>=◌, Returns, Returns-bind, if◌then◌else◌, if_false, is_some, Bool-cases, inl, inr,
}
use kodiak.Ids.{PlayerId}
use kodiak.Team.{same_id, contains, Team, PlayerStatus, spawning, joined, JoinedStatus, quit}
use kodiak.Team.Updates.{remove-Removed}
use kodiak.Team.Model.{TeamId, Limits, PlayerTeamModel, put, put_self, put_ne, put-put, same_id-eq}
use kodiak.Team.Requests.{has_id, remove_joiner_of, leave_behind, quit_team, player_quit_game}
use kodiak.Team.Requests.Calls.{quit_call, remove_member_call}
use kodiak.Team.Requests.Loops.{IsValid-eq, remove_joiner_of-Dropped}
use kodiak.Team.Requests.Emptied.{remove_join_of-Forgot}
use kodiak.Team.Roster.{IsValid, IsSound, view, named}
use kodiak.Team.Roster.Ids.{drop_ids, drop_ids_self}
use kodiak.Team.Roster.Facts.{
  put_same, get-contains, one_member, team_of_joined, joined_of_joiner, team_of_join, no_joins,
  own_request, own_joiner,
}
use kodiak.Team.Roster.Departures.{last-IsValid, others-IsValid}

pub apart_of :
    (ids : List TeamId) (i k : TeamId)
    → has_id ids i ≡ true
    → has_id ids k ≡ false
    → same_id k i ≡ false
apart_of ids i k h out = elim (Bool-cases (same_id k i)) [
  | inl e ↦ absurd (ground (arith, sym h ∙ ap (has_id ids) (sym (same_id-eq k i e)) ∙ out))
  | inr e ↦ e
]

if_same : (b : Bool) → (if b then true else true) ≡ true
if_same true = refl
if_same false = refl

module _ {Name D M : Type 0} (limits : Limits) (m : PlayerTeamModel Name D M) where
  open m use {Store, player, team, update_player, update_team, delete_team}

  several_named :
      (t : Team Name D M) (p : PlayerId)
      → contains t.members p ≡ true
      → IsSound limits (some t)
      → (length t.members == 1) ≡ false
      → is_some t.name ≡ true
  several_named t p here sound several = elim (Bool-cases (is_some t.name)) [
    | inl n ↦ n
    | inr n ↦ absurd (ground (arith, sym (one_member t.members p here (sound.solo n)) ∙ several))
  ]

  module _ (p : PlayerId) (j : JoinedStatus TeamId) (t : Team Name D M) where
    -- The player's team is gone, and the rest is as if it were there without joiners.
    pub record Deleted (s s' : Store) : Type 0 where
      pub status : player s' p ≡ player s p
      pub teams : team s' ≡ put (team s) j.team_id none
      pub valid : IsValid limits (record {
        players = player s';
        teams = put (team s') j.team_id (some (record t { joiners = [] }));
      })

    leave_behind-Deleted :
        (s : Store)
        → IsValid limits (view m s)
        → player s p ≡ some (joined j)
        → team s j.team_id ≡ some t
        → Returns (Deleted s) (leave_behind m s p j.team_id true t.joiners)
    unfolding leave_behind
    leave_behind-Deleted s valid e ek =
        let k = j.team_id in
        Returns-bind _ (Deleted s) _ (λ s'. delete_team s' k)
          (remove_join_of-Forgot limits m p k t t.joiners s (own_joiner (view m s) valid p j t e ek)
            (λ q h. let (i, ei, _) = joined_of_joiner (view m s) valid k t q ek h in (i, ei))
            (IsValid-eq refl (put_same (team s) k (some t) ek) valid))
          λ s₁ f.
            let (s₂, e₂, (ep, et)) = m.delete_team_lem s₁ k in
            let et' = et ∙ ap (λ g. put g k none) f.teams in
            (
              s₂,
              e₂,
              record {
                status = ap (λ g. g p) ep ∙ f.status;
                teams = et';
                valid =
                    IsValid-eq ep
                      (ap (λ g. put g k (some (record t { joiners = [] }))) et'
                        ∙ put-put (team s) k _ _
                        ∙ ap (λ ids. put (team s) k (some (record t { joiners = ids })))
                            (sym (drop_ids_self t.joiners)))
                      f.valid;
              },
            )

    -- The player is spawning, and the store is valid.
    abbrev HasQuit : Store → Type 0
    HasQuit s = (player s p ≡ some spawning) × IsValid limits (view m s)

    last_quits :
        (s s' : Store)
        → IsValid limits (view m s)
        → player s p ≡ some (joined j)
        → contains t.members p ≡ true
        → length t.members ≤ 1
        → Deleted s s'
        → Returns HasQuit (update_player s' p quit >>= remove_joiner_of m p j.joins)
    last_quits s s' valid e here solo d =
        let k = j.team_id in
        let none_left : Team Name D M = record t { joiners = [] } in
        let nothing : JoinedStatus TeamId = record j { joins = drop_ids j.joins j.joins } in
        let out = own_request (view m s) valid p j e in
        Returns-bind _ HasQuit _ (remove_joiner_of m p j.joins) (quit_call m s' p (d.status ∙ e))
          λ s₁ (ep, et).
            let (s₂, e₂, l) =
              remove_joiner_of-Dropped limits m p j k (some none_left) j.joins s₁ out
                (λ i h.
                  let (t', et') = team_of_join (view m s) valid p j i e h in
                  (
                    t',
                    ap (λ g. g i) (et ∙ d.teams)
                        ∙ put_ne (team s) k none i (apart_of j.joins i k h out)
                        ∙ et',
                  ))
                (IsValid-eq
                  (ap (λ f. put f p (some (joined j))) ep
                    ∙ put-put (player s') p _ _
                    ∙ put_same (player s') p _ (d.status ∙ e))
                  (ap (λ g. put g k (some none_left)) et) d.valid) in
            let gone : player s₂ p ≡ some spawning =
              ap (λ f. f p) (l.players ∙ ep) ∙ put_self (player s') p _ in
            let deleted : team s₂ k ≡ none =
              l.teams k
              ∙ if_false _ _ out
              ∙ ap (λ g. g k) (et ∙ d.teams)
              ∙ put_self (team s) k none in
            (
              s₂,
              e₂,
              (
                gone,
                IsValid-eq
                    (sym (put_same (player s₂) p _ gone)
                      ∙ ap (λ f. put f p (some spawning)) l.players
                      ∙ sym (put-put (player s₁) p _ _))
                    (sym (put_same (team s₂) k none deleted) ∙ sym (put-put (team s₂) k _ _))
                    (last-IsValid _ l.valid p nothing none_left (put_self (player s₁) p _)
                      (drop_ids_self j.joins) (put_self (team s₂) k _) here solo refl),
              ),
            )

    leaves_others :
        (s : Store)
        → IsValid limits (view m s)
        → player s p ≡ some (joined j)
        → team s j.team_id ≡ some t
        → contains t.members p ≡ true
        → is_some t.name ≡ true
        → Returns HasQuit (
            leave_behind m s p j.team_id false t.joiners >>= λ s.
            update_player s p quit >>= remove_joiner_of m p j.joins)
    unfolding leave_behind remove_joiner_of
    leaves_others s valid e ek here n =
        let k = j.team_id in
        let sound : IsSound limits (some t) = subst (IsSound limits) ek (valid.sound k) in
        let nothing = no_joins (view m s) valid p j e (ap named ek ∙ n) in
        let (rest, er, r) = remove-Removed t.members p sound.distinct here in
        Returns-bind _ HasQuit _ _ (remove_member_call m s k ek p er) λ s₁ (ep, et).
          let (s₂, e₂, (ep', et')) = quit_call m s₁ p (ap (λ f. f p) ep ∙ e) in
          (
            s₂,
            rw (e₂, nothing),
            (
              ap (λ f. f p) ep' ∙ put_self (player s₁) p _,
              IsValid-eq (ep' ∙ ap (λ f. put f p (some spawning)) ep) (et' ∙ et)
                  (others-IsValid (view m s) valid p j t e nothing ek n r),
            ),
          )

    quit_team-HasQuit :
        (s : Store)
        → IsValid limits (view m s)
        → player s p ≡ some (joined j)
        → team s j.team_id ≡ some t
        → contains t.members p ≡ true
        → Returns HasQuit (quit_team m s p j)
    unfolding quit_team
    quit_team-HasQuit s valid e ek here =
        let sound : IsSound limits (some t) = subst (IsSound limits) ek (valid.sound j.team_id) in
        let (member, em) = get-contains t.members p here in
        let (s₁, e₁, (ep, et)) =
          m.delete_manifestation_lem s (record { team_id = j.team_id; player_id = p })
            member.manifestation in
        let valid₁ = IsValid-eq ep et valid in
        let e' = ap (λ f. f p) ep ∙ e in
        let ek' = ap (λ g. g j.team_id) et ∙ ek in
        elim (Bool-cases (length t.members == 1)) [
          | inl one ↦
              rw (ek, one, if_same (is_some t.name), em, e₁)
                (Returns-bind (Deleted s₁) HasQuit _ _ (leave_behind-Deleted s₁ valid₁ e' ek')
                  λ s' d. last_quits s₁ s' valid₁ e' here (ground arith) d)
          | inr several ↦
              let n : is_some t.name ≡ true = several_named t p here sound several in
              rw (ek, several, n, em, e₁) (leaves_others s₁ valid₁ e' ek' here n)
        ]

  -- A player who quits a valid store does so without a panic: the player is spawning afterwards, and
  -- the store is valid.
  pub player_quit_game-Returns :
      (s : Store) (p : PlayerId) (status : PlayerStatus TeamId)
      → IsValid limits (view m s)
      → player s p ≡ some status
      → Returns
          (λ s'. (player s' p ≡ some spawning) × IsValid limits (view m s'))
          (player_quit_game m s p)
  unfolding player_quit_game quit_team
  player_quit_game-Returns s p spawning valid e = (s, rw e, (e, valid))
  player_quit_game-Returns s p (joined j) valid e =
      let (t, ek, here) = team_of_joined (view m s) valid p j e in
      rw e (quit_team-HasQuit p j t s valid e ek here)
