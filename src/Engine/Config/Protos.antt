-- ===== src/Engine/Config/Protos.antt =====
-- engine/config/config.go: the protobufs of healthchecks, and the names that healthchecks are given. An
-- integer of a protobuf is its bit pattern.
use seesaw.Base.{
  ℕ, ◌+◌, ◌*◌, Bool, true, false, ◌&&◌, List, [], ◌∷◌, ◌==◌, ltb, u16, not, ◌++◌, if◌then◌else◌,
  map,
}
use seesaw.Engine.Healthchecks.Keys.{
  HealthcheckMode, HealthcheckType, Healthcheck, same_type, same_bool,
}
use seesaw.Engine.Healthchecks.Keys as Keys

-- `pb.Healthcheck_Type`; `other_type` is any other number.
pub data PbType : Type 0 where
  pb_icmp_ping pb_udp pb_tcp pb_http pb_https pb_dns pb_tcp_tls pb_radius other_type : PbType

-- `pb.Healthcheck`, by what its getters return.
pub record PbHealthcheck : Type 0 where
  pub mode : HealthcheckMode
  pub type : PbType
  pub port : ℕ
  pub interval : ℕ
  pub timeout : ℕ
  pub retries : ℕ
  pub send : ℕ
  pub receive : ℕ
  pub code : ℕ
  pub proxy : Bool
  pub method : ℕ
  pub tls_verify : Bool

-- `time.Second`
abbrev pub second : ℕ
second = 1000000000

abbrev pub hc_type : PbType → HealthcheckType
hc_type pb_icmp_ping = Keys.icmp
hc_type pb_udp = Keys.udp
hc_type pb_tcp = Keys.tcp
hc_type pb_http = Keys.http
hc_type pb_https = Keys.http
hc_type pb_dns = Keys.dns
hc_type pb_tcp_tls = Keys.tcp
hc_type pb_radius = Keys.radius
hc_type other_type = Keys.none

abbrev pub is_secure : PbType → Bool
is_secure pb_https = true
is_secure pb_tcp_tls = true
is_secure _ = false

-- `protoToHealthcheck`; a healthcheck has no name yet.
unfoldable pub proto_to_healthcheck : PbHealthcheck → ℕ → Healthcheck
proto_to_healthcheck p default_port = record {
  name = 0;
  mode = p.mode;
  type = hc_type p.type;
  port = if u16 p.port == 0 then default_port else u16 p.port;
  interval = p.interval * second;
  timeout = p.timeout * second;
  retries = p.retries;
  send = p.send;
  receive = p.receive;
  code = p.code;
  proxy = p.proxy;
  method = p.method;
  secure = is_secure p.type;
  tls_verify = p.tls_verify;
}

-- The constants are numbered in this order.
abbrev pub type_number : HealthcheckType → ℕ
type_number Keys.none = 0
type_number Keys.dns = 1
type_number Keys.http = 2
type_number Keys.icmp = 3
type_number Keys.radius = 4
type_number Keys.tcp = 5
type_number Keys.udp = 6

abbrev pub not_equal : ℕ → ℕ → Bool
not_equal a b = not (a == b)

-- `Less` of `Healthchecks`. The texts are numbered in their order.
unfoldable pub healthcheck_less : Healthcheck → Healthcheck → Bool
healthcheck_less a b =
    if not_equal (type_number a.type) (type_number b.type)
    then ltb (type_number a.type) (type_number b.type)
    else if not_equal a.port b.port
    then ltb a.port b.port
    else if not_equal a.send b.send
    then ltb a.send b.send
    else if not_equal a.receive b.receive
    then ltb a.receive b.receive
    else if not_equal a.method b.method
    then ltb a.method b.method
    else if not_equal a.code b.code
    then ltb a.code b.code
    else if same_bool a.proxy b.proxy
    then (if same_bool a.tls_verify b.tls_verify
        then (if not_equal a.interval b.interval
            then ltb a.interval b.interval
            else ltb a.timeout b.timeout)
        else b.tls_verify)
    else b.proxy

-- `name` prints a type, a port and a counter, and `sort` is `sort.Sort` with `Less`.
module _ (name : HealthcheckType → ℕ → ℕ → ℕ) where
  -- The loop that gives the names.
  unfoldable pub assign_names : HealthcheckType → ℕ → ℕ → List Healthcheck → List Healthcheck
  assign_names last_type last_port counter [] = []
  assign_names last_type last_port counter (hc ∷ checks) =
      let counter' =
        (if same_type hc.type last_type && hc.port == last_port then counter + 1 else 0) in
      record hc { name = name hc.type hc.port counter' }
      ∷ assign_names hc.type hc.port counter' checks

  -- `protosToHealthchecks`
  unfoldable pub protos_to_healthchecks :
      (List Healthcheck → List Healthcheck) → List PbHealthcheck → ℕ → List Healthcheck
  unfolding proto_to_healthcheck assign_names
  protos_to_healthchecks sort pbs default_port =
      assign_names Keys.none 0 0 (sort (map (λ p. proto_to_healthcheck p default_port) pbs))

-- `AddHealthcheck`, in a loop that logs the errors: a second one of the same name is left out.
abbrev pub has_name : ℕ → List Healthcheck → Bool
has_name n [] = false
has_name n (hc ∷ checks) = if hc.name == n then true else has_name n checks

unfoldable pub add_healthchecks : List Healthcheck → List Healthcheck → List Healthcheck
add_healthchecks known [] = known
add_healthchecks known (hc ∷ checks) =
    add_healthchecks (if has_name hc.name known then known else known ++ hc ∷ []) checks
