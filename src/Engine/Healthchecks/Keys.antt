-- ===== src/Engine/Healthchecks/Keys.antt =====
-- engine/healthcheck.go and engine/vserver.go: the keys of checks and checkers.
use seesaw.Base.{ℕ, ◌≡◌, ◌↔◌, Bool, true, false, ◌&&◌, arith, ◌==◌, if◌then◌else◌, Eq}

pub data HealthcheckMode : Type 0 where
  plain dsr tun : HealthcheckMode

pub data HealthcheckType : Type 0 where
  none dns http icmp radius tcp udp : HealthcheckType

abbrev pub same_mode : HealthcheckMode → HealthcheckMode → Bool
same_mode plain plain = true
same_mode dsr dsr = true
same_mode tun tun = true
same_mode _ _ = false

abbrev pub same_type : HealthcheckType → HealthcheckType → Bool
same_type none none = true
same_type dns dns = true
same_type http http = true
same_type icmp icmp = true
same_type radius radius = true
same_type tcp tcp = true
same_type udp udp = true
same_type _ _ = false

abbrev pub same_bool : Bool → Bool → Bool
same_bool true b = b
same_bool false true = false
same_bool false false = true

-- `CheckKey`
pub record CheckKey : Type 0 where
  pub vserver_ip : ℕ
  pub backend_ip : ℕ
  pub service_port : ℕ
  pub service_proto : ℕ
  pub mode : HealthcheckMode
  pub type : HealthcheckType
  pub port : ℕ
  pub name : ℕ

-- `config.Healthcheck`
pub record Healthcheck : Type 0 where
  pub name : ℕ
  pub mode : HealthcheckMode
  pub type : HealthcheckType
  pub port : ℕ
  pub interval : ℕ
  pub timeout : ℕ
  pub retries : ℕ
  pub send : ℕ
  pub receive : ℕ
  pub code : ℕ
  pub proxy : Bool
  pub method : ℕ
  pub secure : Bool
  pub tls_verify : Bool

-- `checkerKey`
pub record CheckerKey : Type 0 where
  pub key : CheckKey
  pub cfg : Healthcheck

-- `markKey`
pub record MarkKey : Type 0 where
  pub backend : ℕ
  pub mode : HealthcheckMode

-- Equality of the keys of a Go map: that of all fields.
abbrev pub same_key : CheckKey → CheckKey → Bool
same_key a b =
    a.vserver_ip == b.vserver_ip
    && (a.backend_ip == b.backend_ip
        && (a.service_port == b.service_port
            && (a.service_proto == b.service_proto
                && (same_mode a.mode b.mode
                    && (same_type a.type b.type && (a.port == b.port && a.name == b.name))))))

abbrev pub same_healthcheck : Healthcheck → Healthcheck → Bool
same_healthcheck a b =
    a.name == b.name
    && (same_mode a.mode b.mode
        && (same_type a.type b.type
            && (a.port == b.port
                && (a.interval == b.interval
                    && (a.timeout == b.timeout
                        && (a.retries == b.retries
                            && (a.send == b.send
                                && (a.receive == b.receive
                                    && (a.code == b.code
                                        && (same_bool a.proxy b.proxy
                                            && (a.method == b.method
                                                && (same_bool a.secure b.secure
                                                    && same_bool a.tls_verify
                                                        b.tls_verify))))))))))))

pub same_mode_iff : (a b : HealthcheckMode) → (same_mode a b ≡ true) ↔ (a ≡ b)
same_mode_iff a b = (λ h. ground arith, λ h. ground arith)

pub same_type_iff : (a b : HealthcheckType) → (same_type a b ≡ true) ↔ (a ≡ b)
same_type_iff a b = (λ h. ground arith, λ h. ground arith)

pub same_key_iff : (a b : CheckKey) → (same_key a b ≡ true) ↔ (a ≡ b)
same_key_iff a b = (
  λ h. ground (arith, same_mode_iff a.mode b.mode, same_type_iff a.type b.type),
  λ h. ground (arith, same_mode_iff a.mode b.mode, same_type_iff a.type b.type),
)

pub same_healthcheck_iff : (a b : Healthcheck) → (same_healthcheck a b ≡ true) ↔ (a ≡ b)
same_healthcheck_iff a b = (
  λ h. ground (arith, same_mode_iff a.mode b.mode, same_type_iff a.type b.type),
  λ h. ground (arith, same_mode_iff a.mode b.mode, same_type_iff a.type b.type),
)

instance abbrev pub check_key_eq : Eq CheckKey
check_key_eq = record { beq = same_key; beq_iff = same_key_iff }

abbrev pub same_checker_key : CheckerKey → CheckerKey → Bool
same_checker_key a b = same_key a.key b.key && same_healthcheck a.cfg b.cfg

pub same_checker_key_iff : (a b : CheckerKey) → (same_checker_key a b ≡ true) ↔ (a ≡ b)
same_checker_key_iff a b = (
  λ h. ground (arith, same_key_iff a.key b.key, same_healthcheck_iff a.cfg b.cfg),
  λ h. ground (arith, same_key_iff a.key b.key, same_healthcheck_iff a.cfg b.cfg),
)

instance abbrev pub checker_key_eq : Eq CheckerKey
checker_key_eq = record { beq = same_checker_key; beq_iff = same_checker_key_iff }

abbrev pub same_mark_key : MarkKey → MarkKey → Bool
same_mark_key a b = a.backend == b.backend && same_mode a.mode b.mode

pub same_mark_key_iff : (a b : MarkKey) → (same_mark_key a b ≡ true) ↔ (a ≡ b)
same_mark_key_iff a b = (
  λ h. ground (arith, same_mode_iff a.mode b.mode),
  λ h. ground (arith, same_mode_iff a.mode b.mode),
)

instance abbrev pub mark_key_eq : Eq MarkKey
mark_key_eq = record { beq = same_mark_key; beq_iff = same_mark_key_iff }

-- `dedup`
unfoldable pub dedup : CheckKey → CheckKey
dedup key =
    if same_mode key.mode plain
    then record key { name = 0; vserver_ip = 0; service_port = 0; service_proto = 0 }
    else record key { name = 0 }
