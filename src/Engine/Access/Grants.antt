-- ===== src/Engine/Access/Grants.antt =====
-- Who has access to a vserver, in terms of the configuration.
use seesaw.Base.{
  ℕ, ◌≡◌, Bool, false, ◌&&◌, ◌||◌, none, some, List, [], ◌∷◌, if◌then◌else◌, lookup, insert, arith,
  ◌==◌, is_some, lookup-insert, ap, ℕ_discrete, Option-cases, inl, inr,
}
use seesaw.Engine.Access.Defs.{
  AccessGrant, VserverConfig, Cluster, VserverUserAccess, users_of, grant_access, has_access,
  grant_members, apply_grant, apply_grants, apply_vservers, new_vserver_user_access,
}

abbrev pub is_member : ℕ → List ℕ → Bool
is_member u [] = false
is_member u (m ∷ ms) = m == u || is_member u ms

-- Whether a grant names the user, or a group that has the user.
abbrev pub names : List (ℕ × List ℕ) → ℕ → AccessGrant → Bool
names groups u ag =
    if ag.is_group
    then elim (lookup ag.grantee groups) [ none ↦ false | some members ↦ is_member u members ]
    else ag.grantee == u

abbrev pub some_names : List (ℕ × List ℕ) → ℕ → List AccessGrant → Bool
some_names groups u [] = false
some_names groups u (ag ∷ ags) = names groups u ag || some_names groups u ags

-- Whether a vserver of that name has a grant for the user.
abbrev pub is_granted : List (ℕ × List ℕ) → ℕ → ℕ → List VserverConfig → Bool
is_granted groups v u [] = false
is_granted groups v u (vs ∷ rest) =
    (vs.name == v && some_names groups u vs.access_grants) || is_granted groups v u rest

abbrev may : VserverUserAccess → ℕ → ℕ → Bool
may vua v u = is_some (has_access vua v u)

module _ (v u : ℕ) where
  may-grant_access :
      (vua : VserverUserAccess) (vserver username reason : ℕ)
      → may (grant_access vua vserver username reason) v u
        ≡ ((vserver == v && username == u) || may vua v u)
  unfolding grant_access has_access
  may-grant_access vua vserver username reason = elim (ℕ_discrete vserver v) [
    | yes e ↦ ground (
      arith,
      lookup-insert vserver v (insert username reason (users_of vua vserver)) vua,
      lookup-insert username u reason (users_of vua vserver),
      ap (users_of vua) e,
    )
    | no ne ↦
        ground (arith, lookup-insert vserver v (insert username reason (users_of vua vserver)) vua)
  ]

  may-grant_members :
      (vua : VserverUserAccess) (vserver reason : ℕ) (members : List ℕ)
      → may (grant_members vua vserver reason members) v u
        ≡ ((vserver == v && is_member u members) || may vua v u)
  unfolding grant_members
  may-grant_members vua vserver reason [] = ground arith
  may-grant_members vua vserver reason (m ∷ members) = ground (
    arith,
    may-grant_members (grant_access vua vserver m reason) vserver reason members,
    may-grant_access vua vserver m reason,
  )

  module _ (groups : List (ℕ × List ℕ)) where
    may-apply_grant :
        (vserver : ℕ) (vua : VserverUserAccess) (ag : AccessGrant)
        → may (apply_grant groups vserver vua ag) v u
          ≡ ((vserver == v && names groups u ag) || may vua v u)
    unfolding apply_grant
    may-apply_grant vserver vua ag = elim (Option-cases (lookup ag.grantee groups)) [
      | inl missing ↦ ground (arith, may-grant_access vua vserver ag.grantee ag.key)
      | inr (members, there) ↦ ground (
        arith,
        may-grant_access vua vserver ag.grantee ag.key,
        may-grant_members vua vserver ag.key members,
      )
    ]

    may-apply_grants :
        (vserver : ℕ) (vua : VserverUserAccess) (ags : List AccessGrant)
        → may (apply_grants groups vserver vua ags) v u
          ≡ ((vserver == v && some_names groups u ags) || may vua v u)
    unfolding apply_grants
    may-apply_grants vserver vua [] = ground arith
    may-apply_grants vserver vua (ag ∷ ags) = ground (
      arith,
      may-apply_grants vserver (apply_grant groups vserver vua ag) ags,
      may-apply_grant vserver vua ag,
    )

    may-apply_vservers :
        (vua : VserverUserAccess) (vss : List VserverConfig)
        → may (apply_vservers groups vua vss) v u ≡ (is_granted groups v u vss || may vua v u)
    unfolding apply_vservers
    may-apply_vservers vua [] = ground arith
    may-apply_vservers vua (vs ∷ rest) = ground (
      arith,
      may-apply_vservers (apply_grants groups vs.name vua vs.access_grants) rest,
      may-apply_grants vs.name vua vs.access_grants,
    )

-- A user has access to a vserver exactly if the configuration of the cluster grants it, to the user by
-- name or to a group that exists and has the user as a member.
pub has_access-new_vserver_user_access :
    (cluster : Cluster) (v u : ℕ)
    → is_some (has_access (new_vserver_user_access cluster) v u)
      ≡ is_granted cluster.access_groups v u cluster.vservers
unfolding new_vserver_user_access has_access
has_access-new_vserver_user_access cluster v u =
    ground (arith, may-apply_vservers v u cluster.access_groups [] cluster.vservers)
