-- ===== src/Team/Handle/Naming.antt =====
-- `TeamRequest::Name` on a valid store.
use kodiak.Base.{
  ◌≡◌, ap, ◌∙◌, subst, arith, Bool, true, false, not, some, Outcome, length, ◌==◌, Returns, is_some,
  if_cases, if_false,
}
use kodiak.Ids.{PlayerId}
use kodiak.Team.{Member, contains, Team, PlayerStatus, joined, JoinedStatus}
use kodiak.Team.Updates.{replace-Replaced}
use kodiak.Team.Model.{TeamId, Limits, PlayerTeamModel, put, put_self}
use kodiak.Team.Requests.{has_id, Reply, leads, empty_team_name, unauthorized, already_named}
use kodiak.Team.Requests.Calls.{replace_member_call, set_name_call}
use kodiak.Team.Requests.Loops.{IsValid-eq, withdraw-Withdrawn}
use kodiak.Team.Handle.{name_team, handle_name}
use kodiak.Team.Leave.{no_ids}
use kodiak.Team.Handle.Settled.{
  Settled, refuse-Settled, accept_with-Settled, joined-Settled, leader_of_leads,
}
use kodiak.Team.Roster.{IsValid, IsSound, view, asks}
use kodiak.Team.Roster.Ids.{drop_ids_self}
use kodiak.Team.Roster.Facts.{one_member, team_of_join, no_joiners, own_request}
use kodiak.Team.Roster.Renamed.{AllowsOne, replace-IsValid, named-IsValid}

module _ {Name D M : Type 0} (limits : Limits) (m : PlayerTeamModel Name D M) where
  open m use {Store, player, team}

  name_team-IsValid :
      (s : Store) (p : PlayerId) (j : JoinedStatus TeamId) (t : Team Name D M) (n : Name)
      → AllowsOne limits
      → IsValid limits (view m s)
      → player s p ≡ some (joined j)
      → team s j.team_id ≡ some t
      → contains t.members p ≡ true
      → leads m t p ≡ true
      → is_some t.name ≡ false
      → Returns (λ s'. IsValid limits (view m s')) (name_team m s p j t n)
  unfolding name_team
  name_team-IsValid s p j t n allows valid e ek here led anonymous =
      let k = j.team_id in
      let sound : IsSound limits (some t) = subst (IsSound limits) ek (valid.sound k) in
      let solo = sound.solo anonymous in
      let nobody = no_joiners (view m s) valid k t ek anonymous in
      let one : (length t.members == 1) ≡ true = one_member t.members p here solo in
      let none_joining : no_ids t.joiners ≡ true = ap no_ids nobody in
      let (l, el, same) = leader_of_leads limits m t p led in
      let (r, er, (ep, et)) =
        m.swap_manifestation_lem s (record { team_id = k; player_id = p }) l.manifestation k
          t.data_ in
      let s₁ = r.1 in
      let l' : Member M = record l { manifestation = r.0 } in
      let (rest, ex, replaced) =
        replace-Replaced t.members l' sound.distinct (ap (contains t.members) same ∙ here) in
      let (s₂, e₂, (ep₂, et₂)) = replace_member_call m s₁ k (ap (λ g. g k) et ∙ ek) l' ex in
      let valid₂ : IsValid limits (view m s₂) =
        IsValid-eq (ep₂ ∙ ep) (et₂ ∙ ap (λ g. put g k (some (record t { members = rest }))) et)
          (replace-IsValid (view m s) valid k t ek rest replaced) in
      let (s₃, e₃, w) =
        withdraw-Withdrawn limits m p j.joins j s₂
          (λ i h. team_of_join (view m s₂) valid₂ p j i (ap (λ f. f p) (ep₂ ∙ ep) ∙ e) h)
          (ap (λ f. f p) (ep₂ ∙ ep) ∙ e) valid₂ in
      let ek₃ : team s₃ k ≡ some (record t { members = rest }) =
        w.teams k
        ∙ if_false _ _ (own_request (view m s) valid p j e)
        ∙ ap (λ g. g k) et₂
        ∙ put_self (team s₁) k _ in
      let (s₄, e₄, (ep₄, et₄)) = set_name_call m s₃ k ek₃ (some n) in
      (
        s₄,
        rw (one, none_joining, el, er, e₂, e₃) e₄,
        IsValid-eq ep₄ et₄ (
            named-IsValid (view m s₃) w.valid k (record t { members = rest }) ek₃ p n allows
              (replaced.same p ∙ here) (omega (arith, solo, replaced.as_many)) nobody
              (λ i.
                ap (λ o. asks o i) w.status ∙ ap (λ ids. has_id ids i) (drop_ids_self j.joins))),
      )

  pub handle_name-Settled :
      (new_sanitized : Name → Name) (is_empty : Name → Bool) (s : Store) (p : PlayerId)
      (status : PlayerStatus TeamId) (raw : Name)
      → AllowsOne limits
      → IsValid limits (view m s)
      → player s p ≡ some status
      → Returns (Settled limits m s) (handle_name m new_sanitized is_empty s p raw)
  unfolding handle_name
  handle_name-Settled new_sanitized is_empty s p status raw allows valid e =
      let P = λ (r : Outcome (Store × Reply)). Returns (Settled limits m s) r in
      let n = new_sanitized raw in
      if_cases P (is_empty n) (λ _. refuse-Settled limits m s empty_team_name)
        λ _. joined-Settled limits m s p status _ valid e λ j t ej ek here.
          if_cases P (not (leads m t p)) (λ _. refuse-Settled limits m s unauthorized)
            λ led.
              if_cases P (is_some t.name) (λ _. refuse-Settled limits m s already_named)
                λ anonymous.
                  accept_with-Settled limits m s _
                    (name_team-IsValid s p j t n allows valid ej ek here (ground arith) anonymous)
