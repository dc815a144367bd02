-- ===== src/Healthcheck/Ping/Exchange.antt =====
-- healthcheck/ping.go: `Check` of `PingChecker`, and the datagrams that it reads.
use seesaw.Base.{ℕ, ◌+◌, Bool, not, ◌&&◌, ◌||◌, List, [], ◌∷◌, replicate, ◌==◌, if◌then◌else◌, u16}
use seesaw.Healthcheck.Ping.Echo.{
  IpProto, icmp, icmpv6, icmp4_echo_reply, icmp6_echo_reply, icmp_checksum, new_icmp_echo_request,
  parse_icmp_echo_reply,
}

-- A datagram that `ReadFrom` returns: whether it is from the target, and its bytes.
pub record Datagram : Type 0 where
  pub from_target : Bool
  pub bytes : List ℕ

-- What becomes of the socket: the datagrams come until `ReadFrom` fails, at the deadline at last.
pub data Network : Type 0 where
  listen_fails write_fails : Network
  receives : List Datagram → Network

pub data Outcome : Type 0 where
  success listen_failed write_failed read_failed bad_checksum : Outcome

abbrev pub type_of : List ℕ → ℕ
type_of [] = 0
type_of (t ∷ msg) = t

-- The tests of `exchangeICMPEcho` up to that of the checksum.
unfoldable pub is_reply : List ℕ → Bool → List ℕ → Bool
is_reply echo from_target reply =
    let x = parse_icmp_echo_reply echo in
    let r = parse_icmp_echo_reply reply in
    from_target
    && ((type_of reply == icmp4_echo_reply || type_of reply == icmp6_echo_reply)
        && (r.id == x.id && r.seqnum == x.seqnum))

abbrev pub verdict : List ℕ → Outcome
unfolding icmp_checksum
verdict reply =
    if type_of reply == icmp4_echo_reply && not (icmp_checksum reply == 0)
    then bad_checksum
    else success

pub record PingChecker : Type 0 where
  pub proto : IpProto
  pub id : ℕ
  pub seqnum : ℕ

-- `NewPingChecker`, with `nextPingCheckerID` before and after.
abbrev pub new_ping_checker : Bool → ℕ → PingChecker × ℕ
new_ping_checker is_ip4 next =
    (record { proto = if is_ip4 then icmp else icmpv6; id = next; seqnum = 0 }, u16 (next + 1))

-- "Healthcheck"
abbrev pub filler : List ℕ
filler = 72 ∷ 101 ∷ 97 ∷ 108 ∷ 116 ∷ 104 ∷ 99 ∷ 104 ∷ 101 ∷ 99 ∷ 107 ∷ []

-- `read_from` is what `ReadFrom` of a packet connection makes of a buffer, for a datagram's payload.
module _ (read_from : List ℕ → List ℕ → List ℕ) where
  -- The loop of `exchangeICMPEcho`, with the buffer that every read goes to.
  unfoldable pub read_replies : List ℕ → List ℕ → List Datagram → Outcome
  unfolding is_reply
  read_replies echo buffer [] = read_failed
  read_replies echo buffer (d ∷ datagrams) =
      let reply = read_from d.bytes buffer in
      let rest = read_replies echo reply datagrams in
      if is_reply echo d.from_target reply then verdict reply else rest

  unfoldable pub exchange_icmp_echo : List ℕ → Network → Outcome
  unfolding read_replies
  exchange_icmp_echo echo listen_fails = listen_failed
  exchange_icmp_echo echo write_fails = write_failed
  exchange_icmp_echo echo (receives datagrams) = read_replies echo (replicate 256 0) datagrams

  unfoldable pub check : PingChecker → Network → PingChecker × Outcome
  unfolding new_icmp_echo_request exchange_icmp_echo
  check hc network = (
    record hc { seqnum = u16 (hc.seqnum + 1) },
    exchange_icmp_echo (new_icmp_echo_request hc.proto hc.id hc.seqnum 64 filler) network,
  )
