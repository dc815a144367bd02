-- ===== src/Engine/Ipc/Ecu.antt =====
-- ecu/control.go and ecu/auth.go: the calls that remote users make of the engine through the ECU.
use seesaw.Base.{
  ◌≡◌, refl, ◌⊎◌, inl, inr, Option, none, some, arith, Option-cases, is_some, Bool, true, false,
}
use seesaw.Engine.Ipc.Context.{Context, AuthGroups, at_sso}
use seesaw.Engine.Ipc.Server.{Server, Reply, err_access}
use seesaw.Engine.Ipc.Handlers.{OverrideArgs, SourceName, get_backends}
use seesaw.Engine.Ipc.Calls as Calls
use seesaw.Engine.Ipc.Calls.{Call, serve}

-- The calls of `SeesawECU`, by their arguments.
pub data EcuCall : Type 0 where
  failover cluster_status ha_status config_status config_reload bgp_neighbors vlans vservers
        backends :
      Option Context → EcuCall
  config_source : Option (Option Context × SourceName) → EcuCall
  override_backend override_destination override_vserver : Option OverrideArgs → EcuCall

-- `err_auth`: the caller was not authenticated, or the engine was not reached. `answered`: the engine's
-- answer.
pub data EcuReply : Type 0 where
  err_args err_auth err_nil : EcuReply
  answered : Reply → EcuReply

-- `connect` is the configured authenticator together with the connection to the engine's socket: the
-- context for which a connection is made.
module _ (auth : AuthGroups) (connect : Context → Option Context) where
  unfoldable pub auth_connect : Option Context → Option Context
  auth_connect none = none
  auth_connect (some ctx) = connect ctx

  -- A call over the connection, with the context of the connection.
  unfoldable pub pass_on : (Option Context → Call) → Option Context → Server → Server × EcuReply
  unfolding auth_connect serve
  pass_on call ctx s = elim (auth_connect ctx) [
    | none ↦ (s, err_auth)
    | some c ↦ let (s', reply) = serve auth (call (some c)) s in (s', answered reply)
  ]

  -- An override, whose `present` tells whether the field that is read is not nil.
  unfoldable pub pass_override :
      (Option OverrideArgs → Call)
      → (OverrideArgs → Bool)
      → Option OverrideArgs
      → Server
      → Server × EcuReply
  unfolding auth_connect serve
  pass_override call present none s = (s, err_args)
  pass_override call present (some args) s = elim (auth_connect args.ctx) [
    | none ↦ (s, err_auth)
    | some c ↦ elim (present args) [
      | false ↦ (s, err_nil)
      | true ↦
          let (s', reply) = serve auth (call (some (record args { ctx = some c }))) s in
          (s', answered reply)
    ]
  ]

  unfoldable pub ecu_serve : EcuCall → Server → Server × EcuReply
  unfolding pass_on pass_override
  ecu_serve (failover ctx) s = pass_on Calls.failover ctx s
  ecu_serve (cluster_status ctx) s = pass_on Calls.cluster_status ctx s
  ecu_serve (ha_status ctx) s = pass_on Calls.ha_status ctx s
  ecu_serve (config_status ctx) s = pass_on Calls.config_status ctx s
  ecu_serve (config_reload ctx) s = pass_on Calls.config_reload ctx s
  ecu_serve (config_source none) s = (s, err_args)
  ecu_serve (config_source (some (ctx, name))) s =
      pass_on (λ c. Calls.config_source (some (c, name))) ctx s
  ecu_serve (bgp_neighbors ctx) s = pass_on Calls.bgp_neighbors ctx s
  ecu_serve (vlans ctx) s = pass_on Calls.vlans ctx s
  ecu_serve (vservers ctx) s = pass_on Calls.vservers ctx s
  ecu_serve (backends ctx) s = pass_on Calls.backends ctx s
  ecu_serve (override_backend args) s =
      pass_override Calls.override_backend (λ a. is_some a.backend) args s
  ecu_serve (override_destination args) s =
      pass_override Calls.override_destination (λ a. is_some a.destination) args s
  ecu_serve (override_vserver args) s =
      pass_override Calls.override_vserver (λ a. is_some a.vserver) args s

  -- Through an authenticator whose contexts have the authentication type `ATSSO`, as it is documented
  -- for all, the ECU or the engine refuses every call for the backends.
  pub ecu_serve-backends :
      ((ctx c : Context) → connect ctx ≡ some c → c.auth_type ≡ at_sso)
      → (ctx : Option Context) (s : Server)
      → (ecu_serve (backends ctx) s ≡ (s, err_auth))
        ⊎ (ecu_serve (backends ctx) s ≡ (s, answered err_access))
  unfolding ecu_serve get_backends
  ecu_serve-backends sso none s = inl refl
  ecu_serve-backends sso (some ctx) s = elim (Option-cases (connect ctx)) [
    | inl refused ↦ inl (ground arith)
    | inr (c, made) ↦ inr (let type = sso ctx c made in ground arith)
  ]
