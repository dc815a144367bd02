-- ===== src/Engine/Access/Defs.antt =====
-- engine/access.go: the access map and how it is built from a cluster. Names, users and reasons are
-- numbers.
use seesaw.Base.{ℕ, Bool, Option, none, some, List, [], ◌∷◌, if◌then◌else◌, lookup, insert}

-- `config.AccessGrant`; `key` is the number of what its `Key` returns.
pub record AccessGrant : Type 0 where
  pub grantee : ℕ
  pub is_group : Bool
  pub key : ℕ

pub record VserverConfig : Type 0 where
  pub name : ℕ
  pub access_grants : List AccessGrant

-- `access_groups`: the members of each group.
pub record Cluster : Type 0 where
  pub vservers : List VserverConfig
  pub access_groups : List (ℕ × List ℕ)

abbrev pub VserverUserAccess : Type 0
VserverUserAccess = List (ℕ × List (ℕ × ℕ))

-- The map of a vserver that is not in the map is empty.
abbrev pub users_of : VserverUserAccess → ℕ → List (ℕ × ℕ)
users_of vua vserver = elim (lookup vserver vua) [ none ↦ [] | some users ↦ users ]

unfoldable pub grant_access : VserverUserAccess → ℕ → ℕ → ℕ → VserverUserAccess
grant_access vua vserver username reason =
    insert vserver (insert username reason (users_of vua vserver)) vua

-- `hasAccess`: the reason, or `none` for "no access granted".
unfoldable pub has_access : VserverUserAccess → ℕ → ℕ → Option ℕ
has_access vua vserver username = lookup username (users_of vua vserver)

-- `for _, username := range group.Members`
unfoldable pub grant_members : VserverUserAccess → ℕ → ℕ → List ℕ → VserverUserAccess
unfolding grant_access
grant_members vua vserver reason [] = vua
grant_members vua vserver reason (username ∷ members) =
    grant_members (grant_access vua vserver username reason) vserver reason members

-- The body of the loop over `vs.AccessGrants`; a group that does not exist grants nothing.
unfoldable pub apply_grant :
    List (ℕ × List ℕ) → ℕ → VserverUserAccess → AccessGrant → VserverUserAccess
unfolding grant_access grant_members
apply_grant groups vserver vua ag =
    if ag.is_group
    then elim (lookup ag.grantee groups) [
      | none ↦ vua
      | some members ↦ grant_members vua vserver ag.key members
    ]
    else grant_access vua vserver ag.grantee ag.key

unfoldable pub apply_grants :
    List (ℕ × List ℕ) → ℕ → VserverUserAccess → List AccessGrant → VserverUserAccess
unfolding apply_grant
apply_grants groups vserver vua [] = vua
apply_grants groups vserver vua (ag ∷ ags) =
    apply_grants groups vserver (apply_grant groups vserver vua ag) ags

unfoldable pub apply_vservers :
    List (ℕ × List ℕ) → VserverUserAccess → List VserverConfig → VserverUserAccess
unfolding apply_grants
apply_vservers groups vua [] = vua
apply_vservers groups vua (vs ∷ rest) =
    apply_vservers groups (apply_grants groups vs.name vua vs.access_grants) rest

-- `newVserverUserAccess`; it returns no error.
unfoldable pub new_vserver_user_access : Cluster → VserverUserAccess
unfolding apply_vservers
new_vserver_user_access cluster = apply_vservers cluster.access_groups [] cluster.vservers
