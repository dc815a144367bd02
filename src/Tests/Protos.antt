-- ===== src/Tests/Protos.antt =====
-- engine/config/config.go: a small cluster.
use seesaw.Base.{
  ℕ, count, map, ◌+◌, ◌*◌, ◌<◌, ◌≡◌, refl, true, false, some, List, [], ◌∷◌, arith, ltb,
  if◌then◌else◌, length, Bool-cases, inl, inr,
}
use seesaw.Engine.Healthchecks.Keys as Keys
use seesaw.Engine.Healthchecks.Keys.{HealthcheckType, Healthcheck}
use seesaw.Engine.Vserver.Config.Data.{unicast_vip}
use seesaw.Engine.Config.Protos.{
  PbHealthcheck, pb_http, pb_https, type_number, healthcheck_less, proto_to_healthcheck,
  protos_to_healthchecks, add_healthchecks,
}
use seesaw.Engine.Config.Names.{
  IsSorted, IsPrinter, ArePorts, AreNamesDistinct, add_healthchecks-protos_to_healthchecks,
}
use seesaw.Ha.Node.Defs.{unknown}
use seesaw.Engine.Config.Nodes.{Node, PbHost, production, make_nodes, add_nodes}
use seesaw.Engine.Config.Priorities.{
  IsDescending, StartsAtMost, without_priority, add_nodes-IsDescending,
}
use seesaw.Engine.Config.Archive.{File, ArchiveConfig}
use seesaw.Engine.Config.Vservers.{PbEntry, pb_tcp, other_protocol, pb_wlc, pb_dsr, Library}

program : Unit {0}
unfolding add_nodes proto_to_healthcheck
program = tt

abbrev insert : Healthcheck → List Healthcheck → List Healthcheck
insert x [] = x ∷ []
insert x (y ∷ l) = if healthcheck_less x y then x ∷ (y ∷ l) else y ∷ insert x l

abbrev insertion_sort : List Healthcheck → List Healthcheck
insertion_sort [] = []
insertion_sort (x ∷ l) = insert x (insertion_sort l)

less_asym : (a b : Healthcheck) → healthcheck_less a b ≡ true → healthcheck_less b a ≡ false
unfolding healthcheck_less
less_asym a b h = ground arith

insert-IsSorted : (x : Healthcheck) (l : List Healthcheck) → IsSorted l → IsSorted (insert x l)
insert-IsSorted x [] s = tt
insert-IsSorted x (y ∷ []) s = elim (Bool-cases (healthcheck_less x y)) [
  | inl less ↦ rw (less) (less_asym x y less, tt)
  | inr more ↦ rw (more) (more, tt)
]
insert-IsSorted x (y ∷ (z ∷ l)) s = elim (Bool-cases (healthcheck_less x y)) [
  | inl less ↦ rw (less) (less_asym x y less, s)
  | inr more ↦ rw (more) (elim (Bool-cases (healthcheck_less x z)) [
    | inl first ↦ rw (first) (more, (less_asym x z first, s.1))
    | inr later ↦ rw (later) (s.0, rw (later) at (insert-IsSorted x (z ∷ l) s.1))
  ])
]

sort-IsSorted : (l : List Healthcheck) → IsSorted (insertion_sort l)
sort-IsSorted [] = tt
sort-IsSorted (x ∷ l) = insert-IsSorted x (insertion_sort l) (sort-IsSorted l)

insert-ArePorts :
    (x : Healthcheck) (l : List Healthcheck) → x.port < 65536 → ArePorts l → ArePorts (insert x l)
insert-ArePorts x [] p ps = (p, tt)
insert-ArePorts x (y ∷ l) p ps = elim (Bool-cases (healthcheck_less x y)) [
  | inl less ↦ rw (less) (p, ps)
  | inr more ↦ rw (more) (ps.0, insert-ArePorts x l p ps.1)
]

sort-ArePorts : (l : List Healthcheck) → ArePorts l → ArePorts (insertion_sort l)
sort-ArePorts [] ps = tt
sort-ArePorts (x ∷ l) ps = insert-ArePorts x (insertion_sort l) ps.0 (sort-ArePorts l ps.1)

abbrev printed : HealthcheckType → ℕ → ℕ → ℕ
printed type port number = (number * 65536 + port) * 7 + type_number type

type_number_small : (t : HealthcheckType) → type_number t < 7
type_number_small t = ground arith

type_number_injective : (s t : HealthcheckType) → type_number s ≡ type_number t → s ≡ t
type_number_injective Keys.none t e = ground arith
type_number_injective Keys.dns t e = ground arith
type_number_injective Keys.http t e = ground arith
type_number_injective Keys.icmp t e = ground arith
type_number_injective Keys.radius t e = ground arith
type_number_injective Keys.tcp t e = ground arith
type_number_injective Keys.udp t e = ground arith

printed-IsPrinter : IsPrinter printed
printed-IsPrinter s t p q a b sp sq e =
    let small = type_number_small s in
    let small' = type_number_small t in
    (type_number_injective s t (omega arith), omega arith, omega arith)

abbrev web : PbHealthcheck
web = record {
  mode = Keys.plain;
  type = pb_http;
  port = 80;
  interval = 10;
  timeout = 5;
  retries = 2;
  send = 1;
  receive = 2;
  code = 200;
  proxy = false;
  method = 3;
  tls_verify = false;
}

abbrev checks : List PbHealthcheck
checks = record web { type = pb_https; port = 443 } ∷ (web ∷ (record web { send = 4 } ∷ []))

add_healthchecks-protos_to_healthchecks_example :
    (add_healthchecks [] (protos_to_healthchecks printed insertion_sort checks 80)
      ≡ protos_to_healthchecks printed insertion_sort checks 80)
    × AreNamesDistinct (protos_to_healthchecks printed insertion_sort checks 80)
add_healthchecks-protos_to_healthchecks_example =
    add_healthchecks-protos_to_healthchecks printed insertion_sort checks 80 printed-IsPrinter
      sort-IsSorted sort-ArePorts (omega arith)

abbrev host : ℕ → PbHost
host n = record { fqdn = n; ipv4 = n; ipv6 = 0; status = production }

abbrev in_order : List Node → List Node
in_order l = l

abbrev node : ℕ → ℕ → Node
node n priority = record {
  hostname = n;
  ipv4_addr = some n;
  ipv6_addr = some 0;
  state = unknown;
  priority = priority;
  anycast_enabled = true;
  bgp_enabled = true;
  vservers_enabled = true;
}

add_nodes-IsDescending_example :
    IsDescending (node 1 255 ∷ (node 2 1 ∷ []))
    × (length (node 1 255 ∷ (node 2 1 ∷ [])) ≡ length (host 1 ∷ (host 2 ∷ [])))
    × StartsAtMost (node 1 255 ∷ (node 2 1 ∷ []))
    × ((made : List Node) × (make_nodes
            (λ text. some text)
            in_order
            production
            []
            (host 1 ∷ (host 2 ∷ []))
          ≡ some made)
        × (map without_priority (node 1 255 ∷ (node 2 1 ∷ []))
            ≡ map without_priority (in_order made)))
unfolding program
add_nodes-IsDescending_example =
    add_nodes-IsDescending (λ text. some text) in_order production (host 1 ∷ (host 2 ∷ []))
      (node 1 255 ∷ (node 2 1 ∷ [])) (λ l. refl) (omega arith) refl

abbrev limits : ArchiveConfig
limits = record { age = 100; bytes = 50; count = 2 }

abbrev files : List File
files =
    record { age = 1; size = 20 }
    ∷ (record { age = 2; size = 20 } ∷ (record { age = 3; size = 1 } ∷ []))

abbrev library : Library
library = record {
  sort = insertion_sort;
  name = printed;
  entry_key = λ port proto. port * 256 + proto;
  grant_key = λ group name. name;
  float_less = ltb;
  parse = λ text. some text;
  vip_type = λ ip. unicast_vip;
}

abbrev http_entry : PbEntry
http_entry = record {
  protocol = pb_tcp;
  scheduler = pb_wlc;
  mode = pb_dsr;
  port = 80;
  persistence = 0;
  one_packet = false;
  high_watermark = 1;
  low_watermark = 2;
  lthreshold = 0;
  uthreshold = 0;
  healthchecks = checks;
}

abbrev entries : List PbEntry
entries = record http_entry { protocol = other_protocol } ∷ (http_entry ∷ [])
