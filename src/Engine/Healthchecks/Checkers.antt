-- ===== src/Engine/Healthchecks/Checkers.antt =====
-- engine/healthcheck.go: `newConfig`, and the checkers of healthcheck/ that it makes.
use seesaw.Base.{ℕ, Bool, true, false, ◌||◌, Option, none, some, List, [], ◌∷◌, ◌==◌, if◌then◌else◌}
use seesaw.Engine.Healthchecks.Keys
use seesaw.Engine.Healthchecks.Keys.{
  CheckKey, Healthcheck, HealthcheckMode, HealthcheckType, plain, same_mode, MarkKey,
}
use seesaw.Engine.Healthchecks.Marks.{MarkTable, mark_backend}

-- What the code takes from its libraries: the numbers of three texts, the types that DNS names, and
-- `strings.Split(_, ":")`.
pub record Texts : Type 0 where
  pub get_method : ℕ
  pub root_path : ℕ
  pub accept : ℕ
  pub dns_type : ℕ → Option ℕ
  pub split : ℕ → List ℕ

-- `healthcheck.Target`
pub record Target : Type 0 where
  pub ip : ℕ
  pub host : ℕ
  pub mark : ℕ
  pub mode : HealthcheckMode
  pub port : ℕ

-- The checkers, by the fields besides their target; a ping has no port.
pub data Checker : Type 0 where
  dns : (name query_type answer : ℕ) → Checker
  http : (request response code : ℕ) (secure tls_verify proxy : Bool) (method : ℕ) → Checker
  ping : Checker
  radius : (username password secret response : ℕ) → Checker
  tcp : (send receive : ℕ) (secure tls_verify : Bool) → Checker
  udp : (send receive : ℕ) → Checker

-- `healthcheck.Config`
pub record Config : Type 0 where
  pub id : ℕ
  pub checker : Checker
  pub target : Target
  pub interval : ℕ
  pub timeout : ℕ
  pub retries : ℕ

abbrev pub or_default : ℕ → ℕ → ℕ
or_default text default = if text == 0 then default else text

unfoldable pub radius_checker : Texts → Healthcheck → List ℕ → Option Checker
radius_checker texts hc (username ∷ password ∷ secret ∷ []) =
    if username == 0 || (password == 0 || secret == 0)
    then none
    else some (Checker.radius username password secret (or_default hc.receive texts.accept))
radius_checker texts hc _ = none

-- The `switch` of `newConfig`; `none` is an error.
unfoldable pub new_checker :
    Texts → HealthcheckMode → Healthcheck → HealthcheckType → Option Checker
unfolding radius_checker
new_checker texts mode hc Keys.dns = elim (texts.dns_type hc.method) [
  | none ↦ none
  | some query_type ↦ some (Checker.dns hc.send query_type hc.receive)
]
new_checker texts mode hc Keys.http = some (
    Checker.http (or_default hc.send texts.root_path) hc.receive
      (if hc.code == 0 then 200 else hc.code) hc.secure (if hc.secure then hc.tls_verify else true)
      hc.proxy (or_default hc.method texts.get_method))
new_checker texts mode hc Keys.icmp = if same_mode mode plain then some ping else none
new_checker texts mode hc Keys.radius = radius_checker texts hc (texts.split hc.send)
new_checker texts mode hc Keys.tcp =
    some (Checker.tcp hc.send hc.receive hc.secure (if hc.secure then hc.tls_verify else false))
new_checker texts mode hc Keys.udp = some (Checker.udp hc.send hc.receive)
new_checker texts mode hc Keys.none = none

abbrev pub port_of : Checker → ℕ → ℕ
port_of ping port = 0
port_of _ port = port

unfoldable pub make_config : Texts → ℕ → CheckKey → Healthcheck → (ip mark : ℕ) → Option Config
unfolding new_checker
make_config texts id key hc ip mark = elim (new_checker texts key.mode hc hc.type) [
  | none ↦ none
  | some checker ↦ some (record {
    id = id;
    checker = checker;
    target = record {
      ip = ip;
      host = key.backend_ip;
      mark = mark;
      mode = hc.mode;
      port = port_of checker hc.port;
    };
    interval = hc.interval;
    timeout = hc.timeout;
    retries = hc.retries;
  })
]

abbrev pub mark_key : CheckKey → MarkKey
mark_key key = record { backend = key.backend_ip; mode = key.mode }

-- `newConfig`: the marks after it, and the configuration or its error; `none` ends the process. The
-- mark is taken before the type of the healthcheck is looked at.
unfoldable pub new_config :
    Texts → MarkTable → ℕ → CheckKey → Healthcheck → Option (MarkTable × Option Config)
unfolding make_config
new_config texts t id key hc =
    if same_mode key.mode plain
    then some (t, make_config texts id key hc key.backend_ip 0)
    else elim (mark_backend t (mark_key key)) [
      | none ↦ none
      | some (t', mark) ↦ some (t', make_config texts id key hc key.vserver_ip mark)
    ]
