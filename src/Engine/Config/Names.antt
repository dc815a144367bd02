-- ===== src/Engine/Config/Names.antt =====
-- engine/config/config.go: the names that healthchecks are given are distinct.
use seesaw.Base.{
  ℕ, ◌+◌, ◌*◌, ◌≤◌, ◌<◌, ◌≡◌, ◌≢◌, refl, ap, ◌∙◌, sym, false, ◌&&◌, ◌⊎◌, List, [], ◌∷◌, ◌++◌, arith,
  All, All-imp, All-both, append_assoc, append-nil, ◌==◌, if◌then◌else◌, map,
}
use seesaw.Engine.Healthchecks.Keys as Keys
use seesaw.Engine.Healthchecks.Keys.{HealthcheckType, Healthcheck, same_type}
use seesaw.Engine.Config.Protos.{
  PbHealthcheck, type_number, healthcheck_less, assign_names, has_name, add_healthchecks,
  proto_to_healthcheck, protos_to_healthchecks,
}

-- No healthcheck is less than the one before it.
abbrev pub IsSorted : List Healthcheck → Type 0
IsSorted [] = Unit
IsSorted (a ∷ []) = Unit
IsSorted (a ∷ (b ∷ l)) = (healthcheck_less b a ≡ false) × IsSorted (b ∷ l)

-- The type and the port as one number.
abbrev place : HealthcheckType → ℕ → ℕ
place type port = type_number type * 65536 + port

abbrev IsPort : Healthcheck → Type 0
IsPort hc = hc.port < 65536

place-le :
    (a b : Healthcheck)
    → IsPort a
    → IsPort b
    → healthcheck_less b a ≡ false
    → place a.type a.port ≤ place b.type b.port
unfolding healthcheck_less
place-le a b pa pb h = ground arith

same_type_number : (s t : HealthcheckType) → same_type s t ≡ (type_number s == type_number t)
same_type_number Keys.none t = ground arith
same_type_number Keys.dns t = ground arith
same_type_number Keys.http t = ground arith
same_type_number Keys.icmp t = ground arith
same_type_number Keys.radius t = ground arith
same_type_number Keys.tcp t = ground arith
same_type_number Keys.udp t = ground arith

abbrev pub AreNamesDistinct : List Healthcheck → Type 0
AreNamesDistinct [] = Unit
AreNamesDistinct (hc ∷ checks) =
    All (λ (k : Healthcheck). hc.name ≢ k.name) checks × AreNamesDistinct checks

abbrev pub ArePorts : List Healthcheck → Type 0
ArePorts checks = All IsPort checks

-- Names tell what they are printed from.
abbrev pub IsPrinter : (HealthcheckType → ℕ → ℕ → ℕ) → Type 0
IsPrinter name =
    (s t : HealthcheckType) (p q a b : ℕ)
    → p < 65536
    → q < 65536
    → name s p a ≡ name t q b
    → (s ≡ t) × (p ≡ q) × (a ≡ b)

map-ArePorts :
    (pbs : List PbHealthcheck) (default_port : ℕ)
    → default_port < 65536
    → ArePorts (map (λ p. proto_to_healthcheck p default_port) pbs)
unfolding proto_to_healthcheck
map-ArePorts [] default_port small = tt
map-ArePorts (p ∷ pbs) default_port small = (ground arith, map-ArePorts pbs default_port small)

nothing :
    (name : HealthcheckType → ℕ → ℕ → ℕ) → AreNamesDistinct (assign_names name Keys.none 0 0 [])
unfolding assign_names
nothing name = tt

module _ (name : HealthcheckType → ℕ → ℕ → ℕ) (printer : IsPrinter name) where
  -- Printed for a later place, or for the same one with a higher counter.
  record Later (at counter n : ℕ) : Type 0 where
    type : HealthcheckType
    port : ℕ
    number : ℕ
    small : port < 65536
    printed : n ≡ name type port number
    later : (at < place type port) ⊎ ((at ≡ place type port) × (counter < number))

  Later-trans :
      (at counter at' counter' n : ℕ)
      → (at < at') ⊎ ((at ≡ at') × (counter < counter'))
      → Later at' counter' n
      → Later at counter n
  Later-trans at counter at' counter' n step l = record {
    type = l.type;
    port = l.port;
    number = l.number;
    small = l.small;
    printed = l.printed;
    later = ground (arith, step, l.later);
  }

  Later-ne :
      (type : HealthcheckType) (port counter n : ℕ)
      → port < 65536
      → Later (place type port) counter n
      → name type port counter ≢ n
  Later-ne type port counter n small l same =
      let (s, p, c) =
        printer type l.type port l.port counter l.number small l.small (same ∙ l.printed) in
      let at : place type port ≡ place l.type l.port = ground (arith, ap type_number s) in
      absurd (ground (arith, l.later))

  advance :
      (last_type : HealthcheckType) (last_port counter : ℕ) (first : Healthcheck)
      → last_port < 65536
      → IsPort first
      → place last_type last_port ≤ place first.type first.port
      → (place last_type last_port < place first.type first.port)
        ⊎ ((place last_type last_port ≡ place first.type first.port)
            × (counter < (
                if same_type first.type last_type && first.port == last_port
                then counter + 1
                else 0)))
  advance last_type last_port counter first small port le =
      ground (arith, same_type_number first.type last_type)

  assign_names-Later :
      (last_type : HealthcheckType) (last_port counter : ℕ) (first : Healthcheck)
      (checks : List Healthcheck)
      → last_port < 65536
      → ArePorts (first ∷ checks)
      → place last_type last_port ≤ place first.type first.port
      → IsSorted (first ∷ checks)
      → All
          (λ (hc : Healthcheck). Later (place last_type last_port) counter hc.name)
          (assign_names name last_type last_port counter (first ∷ checks))
        × AreNamesDistinct (assign_names name last_type last_port counter (first ∷ checks))
  unfolding assign_names
  assign_names-Later last_type last_port counter first [] small ports le sorted =
      let number =
        (if same_type first.type last_type && first.port == last_port then counter + 1 else 0) in
      (
        (
          record {
            type = first.type;
            port = first.port;
            number = number;
            small = ports.0;
            printed = refl;
            later = advance last_type last_port counter first small ports.0 le;
          },
          tt,
        ),
        (tt, tt),
      )
  assign_names-Later last_type last_port counter first (b ∷ checks) small ports le sorted =
      let number =
        (if same_type first.type last_type && first.port == last_port then counter + 1 else 0) in
      let step = advance last_type last_port counter first small ports.0 le in
      let (after, distinct) =
        assign_names-Later first.type first.port number b checks ports.0 ports.1
          (place-le first b ports.0 ports.1.0 sorted.0) sorted.1 in
      let rest = assign_names name first.type first.port number (b ∷ checks) in
      (
        (
          record {
            type = first.type;
            port = first.port;
            number = number;
            small = ports.0;
            printed = refl;
            later = step;
          },
          All-imp
              (λ hc l.
                Later-trans (place last_type last_port) counter (place first.type first.port) number
                  hc.name step l)
              rest after,
        ),
        (
          All-imp (λ hc l. Later-ne first.type first.port number hc.name ports.0 l) rest after,
          distinct,
        ),
      )

  assign_names-distinct :
      (checks : List Healthcheck)
      → ArePorts checks
      → IsSorted checks
      → AreNamesDistinct (assign_names name Keys.none 0 0 checks)
  assign_names-distinct [] ports sorted = nothing name
  assign_names-distinct (hc ∷ checks) ports sorted =
      (assign_names-Later Keys.none 0 0 hc checks (omega arith) ports (omega arith) sorted).1

has_name-append :
    (n : ℕ) (known : List Healthcheck) (hc : Healthcheck)
    → has_name n known ≡ false
    → hc.name ≢ n
    → has_name n (known ++ hc ∷ []) ≡ false
has_name-append n [] hc h ne = ground arith
has_name-append n (k ∷ known) hc h ne = ground (arith, has_name-append n known hc)

none_known :
    (checks : List Healthcheck) → All (λ (hc : Healthcheck). has_name hc.name [] ≡ false) checks
none_known [] = tt
none_known (hc ∷ checks) = (refl, none_known checks)

add_healthchecks_complete :
    (known checks : List Healthcheck)
    → All (λ (hc : Healthcheck). has_name hc.name known ≡ false) checks
    → AreNamesDistinct checks
    → add_healthchecks known checks ≡ known ++ checks
unfolding add_healthchecks
add_healthchecks_complete known [] fresh distinct = sym (append-nil known)
add_healthchecks_complete known (hc ∷ checks) fresh distinct = rw (fresh.0) (
    add_healthchecks_complete (known ++ hc ∷ []) checks
      (All-imp
        (λ (k : Healthcheck) (p : (has_name k.name known ≡ false) × (hc.name ≢ k.name)).
          has_name-append k.name known hc p.0 p.1)
        checks
        (All-both (λ (k : Healthcheck). has_name k.name known ≡ false) (λ k. hc.name ≢ k.name)
          checks fresh.1 distinct.0))
      distinct.1
    ∙ append_assoc known (hc ∷ []) checks)

-- All healthchecks of a protobuf get names that differ, so that none of them is left out when they are
-- added, however many have one type and one port. The sorting leaves no healthcheck less than the one
-- before it and changes no port to one that is not a `uint16`, and the default port is one.
pub add_healthchecks-protos_to_healthchecks :
    (name : HealthcheckType → ℕ → ℕ → ℕ) (sort : List Healthcheck → List Healthcheck)
    (pbs : List PbHealthcheck) (default_port : ℕ)
    → IsPrinter name
    → ((checks : List Healthcheck) → IsSorted (sort checks))
    → ((checks : List Healthcheck) → ArePorts checks → ArePorts (sort checks))
    → default_port < 65536
    → (add_healthchecks [] (protos_to_healthchecks name sort pbs default_port)
        ≡ protos_to_healthchecks name sort pbs default_port)
      × AreNamesDistinct (protos_to_healthchecks name sort pbs default_port)
unfolding protos_to_healthchecks
add_healthchecks-protos_to_healthchecks name sort pbs default_port printer sorts ports small =
    let made = map (λ p. proto_to_healthcheck p default_port) pbs in
    let distinct =
      assign_names-distinct name printer (sort made)
        (ports made (map-ArePorts pbs default_port small)) (sorts made) in
    let checks = protos_to_healthchecks name sort pbs default_port in
    (add_healthchecks_complete [] checks (none_known checks) distinct, distinct)
