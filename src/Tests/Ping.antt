-- ===== src/Tests/Ping.antt =====
-- healthcheck/ping.go: a ping with identifier 258 and sequence number 7.
use seesaw.Base.{◌≡◌, refl, true, false, [], ◌∷◌, arith}
use seesaw.Healthcheck.Ping.Echo.{
  copy, icmp, icmp_checksum, new_icmp_echo_request, parse_icmp_echo_reply,
}
use seesaw.Healthcheck.Ping.Exchange.{Datagram, receives, success, PingChecker, filler, check}
use seesaw.Healthcheck.Ping.Buffer.{copy-Reads}
use seesaw.Healthcheck.Ping.Replies.{echo_reply, check-accepts}
use seesaw.Healthcheck.Ping.Requests.{icmp_checksum-new_icmp_echo_request}

abbrev checker : PingChecker
checker = record { proto = icmp; id = 258; seqnum = 7 }

abbrev stray : Datagram
stray = record { from_target = false; bytes = 8 ∷ 0 ∷ 5 ∷ [] }

abbrev answer : Datagram
answer = record { from_target = true; bytes = echo_reply 258 7 0 254 246 [] }

check-accepts_example : (check copy checker (receives (stray ∷ (answer ∷ [])))).1 ≡ success
unfolding icmp_checksum
check-accepts_example =
    check-accepts copy copy-Reads checker 0 254 246 [] (stray ∷ []) [] refl refl (omega arith)
      ((refl, omega arith), tt)

icmp_checksum-new_icmp_echo_request_example :
    (icmp_checksum (new_icmp_echo_request icmp 258 7 64 filler) ≡ 0)
    × ((parse_icmp_echo_reply (new_icmp_echo_request icmp 258 7 64 filler)).id ≡ 258)
    × ((parse_icmp_echo_reply (new_icmp_echo_request icmp 258 7 64 filler)).seqnum ≡ 7)
icmp_checksum-new_icmp_echo_request_example =
    icmp_checksum-new_icmp_echo_request 258 7 (omega arith) (omega arith)
