-- ===== src/Healthcheck/Ping/Replies.antt =====
-- healthcheck/ping.go: which replies make a ping succeed.
use seesaw.Base.{
  ℕ, ◌/◌, ◌≤◌, ◌≡◌, refl, ap, ◌∙◌, subst, Bool, true, false, not, List, [], ◌∷◌, ◌++◌, arith, All,
  length, replicate, u8, ◌==◌, if◌then◌else◌,
}
use seesaw.Healthcheck.Radius.Checker.{drop}
use seesaw.Healthcheck.Ping.Echo.{
  icmp, folded, icmp_checksum, new_icmp_info_message, new_icmpv4_echo_request,
  new_icmp_echo_request,
}
use seesaw.Healthcheck.Ping.Exchange.{
  Datagram, receives, success, bad_checksum, is_reply, verdict, read_replies, exchange_icmp_echo,
  PingChecker, filler, check,
}
use seesaw.Healthcheck.Ping.Buffer.{IsZero, drop-IsZero, drop-append, icmp_sum-append_zeros, Reads}

-- The echo reply to a checker's request, with any code, checksum and data.
abbrev pub echo_reply : ℕ → ℕ → ℕ → ℕ → ℕ → List ℕ → List ℕ
echo_reply id seqnum code k1 k0 rest =
    0 ∷ code ∷ k1 ∷ k0 ∷ u8 (id / 256) ∷ u8 id ∷ u8 (seqnum / 256) ∷ u8 seqnum ∷ rest

abbrev pub request : ℕ → ℕ → List ℕ
unfolding new_icmp_echo_request
request id seqnum = new_icmp_echo_request icmp id seqnum 64 filler

is_reply-append :
    (id seqnum code k1 k0 : ℕ) (rest tail : List ℕ)
    → is_reply (request id seqnum) true (echo_reply id seqnum code k1 k0 rest ++ tail) ≡ true
unfolding is_reply new_icmp_echo_request new_icmpv4_echo_request new_icmp_info_message
is_reply-append id seqnum code k1 k0 rest tail = ground arith

is_reply-other :
    (id seqnum : ℕ) (from_target : Bool) (reply : List ℕ)
    → from_target ≡ false
    → is_reply (request id seqnum) from_target reply ≡ false
unfolding is_reply
is_reply-other id seqnum from_target reply h = ground (arith, h)

-- A datagram of another host, no longer than so many bytes.
abbrev pub IsStray : ℕ → Datagram → Type 0
IsStray n d = (d.from_target ≡ false) × (length d.bytes ≤ n)

verdict-zeros :
    (id seqnum code k1 k0 : ℕ) (rest tail : List ℕ)
    → icmp_checksum (echo_reply id seqnum code k1 k0 rest) ≡ 0
    → All IsZero tail
    → verdict (echo_reply id seqnum code k1 k0 rest ++ tail) ≡ success
unfolding icmp_checksum
verdict-zeros id seqnum code k1 k0 rest tail c z =
    let reply = echo_reply id seqnum code k1 k0 rest in
    let same : icmp_checksum (reply ++ tail) ≡ 0 =
      ap (λ s. folded s) (icmp_sum-append_zeros 0 reply tail (omega arith) z) ∙ c in
    ap (λ cs. if not (cs == 0) then bad_checksum else success) same

module _ (read_from : List ℕ → List ℕ → List ℕ) (r : Reads read_from) where
  reads :
      (id seqnum code k1 k0 : ℕ) (rest buffer tail : List ℕ) (others : List Datagram)
      → read_from (echo_reply id seqnum code k1 k0 rest) buffer
        ≡ echo_reply id seqnum code k1 k0 rest ++ tail
      → read_replies read_from
          (request id seqnum)
          buffer
          (record { from_target = true; bytes = echo_reply id seqnum code k1 k0 rest } ∷ others)
        ≡ verdict (echo_reply id seqnum code k1 k0 rest ++ tail)
  unfolding read_replies
  reads id seqnum code k1 k0 rest buffer tail others made =
      let reply = echo_reply id seqnum code k1 k0 rest in
      ap
        (λ now.
          if is_reply (request id seqnum) true now
          then verdict now
          else read_replies read_from (request id seqnum) now others)
        made
      ∙ ap
          (λ it_is.
            if it_is
            then verdict (reply ++ tail)
            else read_replies read_from (request id seqnum) (reply ++ tail) others)
          (is_reply-append id seqnum code k1 k0 rest tail)

  accepts :
      (id seqnum code k1 k0 : ℕ) (rest buffer : List ℕ) (strays others : List Datagram)
      → icmp_checksum (echo_reply id seqnum code k1 k0 rest) ≡ 0
      → length (echo_reply id seqnum code k1 k0 rest) ≤ 216
      → length buffer ≡ 256
      → All IsZero (drop (length (echo_reply id seqnum code k1 k0 rest)) buffer)
      → All (IsStray (length (echo_reply id seqnum code k1 k0 rest))) strays
      → read_replies read_from (request id seqnum) buffer (
          strays
          ++ record { from_target = true; bytes = echo_reply id seqnum code k1 k0 rest } ∷ others)
        ≡ success
  unfolding read_replies
  accepts id seqnum code k1 k0 rest buffer [] others c small size z h =
      let reply = echo_reply id seqnum code k1 k0 rest in
      let (tail, made) = r.front reply buffer small size in
      let zeros : All IsZero tail =
        subst (λ l. All IsZero l) (ap (drop (length reply)) made ∙ drop-append reply tail)
          (r.rest (length reply) reply buffer (omega arith) small size z) in
      reads id seqnum code k1 k0 rest buffer tail others made
      ∙ verdict-zeros id seqnum code k1 k0 rest tail c zeros
  accepts id seqnum code k1 k0 rest buffer (d ∷ strays) others c small size z h =
      let reply = echo_reply id seqnum code k1 k0 rest in
      let now = read_from d.bytes buffer in
      let after =
        read_replies read_from (request id seqnum) now
          (strays ++ record { from_target = true; bytes = reply } ∷ others) in
      ap (λ it_is. if it_is then verdict now else after)
        (is_reply-other id seqnum d.from_target now h.0.0)
      ∙ accepts id seqnum code k1 k0 rest now strays others c small (r.sized d.bytes buffer ∙ size)
          (r.rest (length reply) d.bytes buffer h.0.1 small size z) h.1

  -- A ping of an IPv4 target succeeds on a reply of at most 216 bytes with its id, its sequence number and
  -- a checksum that is right, if no longer datagram of another host comes before it.
  -- `ReadFrom` is to leave the payload at the front of the buffer, and zeroes behind it where there were.
  pub check-accepts :
      (hc : PingChecker) (code k1 k0 : ℕ) (rest : List ℕ) (strays others : List Datagram)
      → hc.proto ≡ icmp
      → icmp_checksum (echo_reply hc.id hc.seqnum code k1 k0 rest) ≡ 0
      → length (echo_reply hc.id hc.seqnum code k1 k0 rest) ≤ 216
      → All (IsStray (length (echo_reply hc.id hc.seqnum code k1 k0 rest))) strays
      → (check read_from hc (
          receives (
            strays
            ++ record { from_target = true; bytes = echo_reply hc.id hc.seqnum code k1 k0 rest }
              ∷ others))).1
        ≡ success
  unfolding check exchange_icmp_echo
  check-accepts hc code k1 k0 rest strays others proto c small h =
      let reply = echo_reply hc.id hc.seqnum code k1 k0 rest in
      ap
        (λ p.
          exchange_icmp_echo read_from (new_icmp_echo_request p hc.id hc.seqnum 64 filler)
            (receives (strays ++ record { from_target = true; bytes = reply } ∷ others)))
        proto
      ∙ accepts hc.id hc.seqnum code k1 k0 rest (replicate 256 0) strays others c small refl
          (drop-IsZero (length reply) 256) h
