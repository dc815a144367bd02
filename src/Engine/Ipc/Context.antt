-- ===== src/Engine/Ipc/Context.antt =====
-- common/ipc/ipc.go: contexts and the groups of their users. Groups and names of users are numbers.
use seesaw.Base.{ℕ, Bool, true, false, ◌&&◌, ◌||◌, List, [], ◌∷◌, ◌==◌}

pub data AuthType : Type 0 where
  at_none at_sso at_trusted at_untrusted : AuthType

pub record User : Type 0 where
  pub groups : List ℕ
  pub username : ℕ

pub record Context : Type 0 where
  pub auth_type : AuthType
  pub user : User

-- `authGroupAdmin`, `authGroupOperator` and `authGroupReader`.
pub record AuthGroups : Type 0 where
  pub admin : ℕ
  pub operator : ℕ
  pub reader : ℕ

abbrev pub is_authenticated : Context → Bool
is_authenticated ctx = elim (ctx.auth_type) [ at_sso ↦ true | _ ↦ false ]

abbrev pub is_trusted : Context → Bool
is_trusted ctx = elim (ctx.auth_type) [ at_trusted ↦ true | _ ↦ false ]

module _ (auth : AuthGroups) where
  -- The loops over `u.Groups`.
  unfoldable pub has_admin : List ℕ → Bool
  has_admin [] = false
  has_admin (g ∷ groups) = g == auth.admin || has_admin groups

  unfoldable pub has_operator : List ℕ → Bool
  has_operator [] = false
  has_operator (g ∷ groups) = (g == auth.admin || g == auth.operator) || has_operator groups

  unfoldable pub has_reader : List ℕ → Bool
  has_reader [] = false
  has_reader (g ∷ groups) =
      (g == auth.admin || g == auth.operator || g == auth.reader) || has_reader groups

  abbrev pub is_admin : User → Bool
  is_admin u = has_admin u.groups

  abbrev pub is_operator : User → Bool
  is_operator u = has_operator u.groups

  abbrev pub is_reader : User → Bool
  is_reader u = has_reader u.groups

  unfoldable pub can_read : Context → Bool
  can_read ctx = is_trusted ctx || is_authenticated ctx && is_reader ctx.user

  unfoldable pub can_write : Context → Bool
  can_write ctx = is_trusted ctx || is_authenticated ctx && is_admin ctx.user
