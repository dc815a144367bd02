-- ===== src/Healthcheck/Ping/Echo.antt =====
-- healthcheck/ping.go: the echo request that a ping sends, and the fields and checksum of a message.
use seesaw.Base.{
  ℕ, zero, suc, ◌+◌, ◌-◌, ◌*◌, ◌/◌, ◌%◌, List, [], ◌∷◌, ◌++◌, replicate, length, u8, u16, u32,
}
use Prim.Native.Nat.{bit_xor}

-- The protocols of a ping: `seesaw.IPProtoICMP` and `seesaw.IPProtoICMPv6`.
pub data IpProto : Type 0 where
  icmp icmpv6 : IpProto

abbrev pub icmp4_echo_request : ℕ
icmp4_echo_request = 8

abbrev pub icmp4_echo_reply : ℕ
icmp4_echo_reply = 0

abbrev pub icmp6_echo_request : ℕ
icmp6_echo_request = 128

abbrev pub icmp6_echo_reply : ℕ
icmp6_echo_reply = 129

-- `bytes.Repeat`
abbrev pub repeat : List ℕ → ℕ → List ℕ
repeat bytes zero = []
repeat bytes (suc n) = bytes ++ repeat bytes n

-- `copy`, into a buffer.
abbrev pub copy : List ℕ → List ℕ → List ℕ
copy [] buffer = buffer
copy (b ∷ bytes) [] = []
copy (b ∷ bytes) (old ∷ buffer) = b ∷ copy bytes buffer

-- The loop of `icmpChecksum`, with the byte that an odd length leaves.
abbrev pub icmp_sum : ℕ → List ℕ → ℕ
icmp_sum s [] = s
icmp_sum s (a ∷ []) = u32 (s + a)
icmp_sum s (a ∷ (b ∷ msg)) = icmp_sum (u32 (s + (256 * b + a))) msg

-- The two foldings, and `uint16(^s)`.
abbrev pub fold : ℕ → ℕ
fold s = s / 65536 + s % 65536

abbrev pub folded : ℕ → ℕ
folded s = 65535 - u16 (u32 (fold s + fold s / 65536))

unfoldable pub icmp_checksum : List ℕ → ℕ
icmp_checksum msg = folded (icmp_sum 0 msg)

-- `newICMPInfoMessage`, on a length of 8 at least.
unfoldable pub new_icmp_info_message : ℕ → ℕ → ℕ → List ℕ → List ℕ
new_icmp_info_message id seqnum msglen filler =
    0
    ∷ 0
    ∷ 0
    ∷ 0
    ∷ u8 (id / 256)
    ∷ u8 id
    ∷ u8 (seqnum / 256)
    ∷ u8 seqnum
    ∷ copy (repeat filler ((msglen - 8) / (length filler + 1))) (replicate (msglen - 8) 0)

-- `msg[0] = t`, and `msg[2] ^= low`, `msg[3] ^= high`.
abbrev pub set_type : ℕ → List ℕ → List ℕ
set_type t [] = []
set_type t (b ∷ msg) = t ∷ msg

abbrev pub place_checksum : ℕ → ℕ → List ℕ → List ℕ
place_checksum low high (t ∷ c ∷ k1 ∷ k0 ∷ msg) = t ∷ c ∷ bit_xor k1 low ∷ bit_xor k0 high ∷ msg
place_checksum low high msg = msg

unfoldable pub new_icmpv4_echo_request : ℕ → ℕ → ℕ → List ℕ → List ℕ
unfolding new_icmp_info_message icmp_checksum
new_icmpv4_echo_request id seqnum msglen filler =
    let msg = set_type icmp4_echo_request (new_icmp_info_message id seqnum msglen filler) in
    let cs = icmp_checksum msg in place_checksum (u8 cs) (u8 (cs / 256)) msg

unfoldable pub new_icmpv6_echo_request : ℕ → ℕ → ℕ → List ℕ → List ℕ
unfolding new_icmp_info_message
new_icmpv6_echo_request id seqnum msglen filler =
    set_type icmp6_echo_request (new_icmp_info_message id seqnum msglen filler)

unfoldable pub new_icmp_echo_request : IpProto → ℕ → ℕ → ℕ → List ℕ → List ℕ
unfolding new_icmpv4_echo_request new_icmpv6_echo_request
new_icmp_echo_request icmp id seqnum msglen filler = new_icmpv4_echo_request id seqnum msglen filler
new_icmp_echo_request icmpv6 id seqnum msglen filler =
    new_icmpv6_echo_request id seqnum msglen filler

-- `parseICMPEchoReply`, on a message of 8 bytes at least.
pub record EchoReply : Type 0 where
  pub id : ℕ
  pub seqnum : ℕ
  pub chksum : ℕ

abbrev pub parse_icmp_echo_reply : List ℕ → EchoReply
parse_icmp_echo_reply (t ∷ c ∷ k1 ∷ k0 ∷ i1 ∷ i0 ∷ s1 ∷ s0 ∷ msg) = record {
  id = 256 * i1 + i0;
  seqnum = 256 * s1 + s0;
  chksum = 256 * k1 + k0;
}
parse_icmp_echo_reply msg = record { id = 0; seqnum = 0; chksum = 0 }
