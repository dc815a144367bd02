-- ===== src/Engine/Config/Entries.antt =====
-- engine/config/config.go: the entries that a vserver gets from its protobuf.
use seesaw.Base.{ℕ, u16, ◌≡◌, List, [], ◌∷◌, ◌==◌, if◌then◌else◌}
use seesaw.Engine.Vserver.Data.{
  VserverEntry, LbMode, lb_none, dsr, nat, tun, LbScheduler, none_scheduler, rr, wrr, lc, wlc, sh,
  mh,
}
use seesaw.Engine.Config.Vservers.{
  PbEntry, Warning, Translated, entry, warned, Library, translate_entry, key_of, PbProtocol, pb_tcp,
  pb_udp, other_protocol, PbScheduler, pb_rr, pb_wrr, pb_lc, pb_wlc, pb_sh, pb_mh, other_scheduler,
  PbMode, pb_dsr, pb_nat, pb_tun, other_mode, unsupported_protocol, unsupported_scheduler,
  unsupported_mode,
}

module _ (lib : Library) where
  -- The entries of which everything is supported, under their keys, and the warnings of the others.
  abbrev pub supported : List PbEntry → List (ℕ × VserverEntry)
  supported [] = []
  supported (ve ∷ ves) = elim (translate_entry lib ve) [
    | warned w ↦ supported ves
    | entry e ↦ (key_of lib e, e) ∷ supported ves
  ]

  abbrev pub warnings_of : List PbEntry → List Warning
  warnings_of [] = []
  warnings_of (ve ∷ ves) = elim (translate_entry lib ve) [
    | warned w ↦ w ∷ warnings_of ves
    | entry e ↦ warnings_of ves
  ]

  -- The numbers and kinds of an entry, in the words of the protobuf.
  abbrev pub protocol_named : ℕ → PbProtocol
  protocol_named n = if n == 6 then pb_tcp else if n == 17 then pb_udp else other_protocol

  abbrev pub scheduler_named : LbScheduler → PbScheduler
  scheduler_named rr = pb_rr
  scheduler_named wrr = pb_wrr
  scheduler_named lc = pb_lc
  scheduler_named wlc = pb_wlc
  scheduler_named sh = pb_sh
  scheduler_named mh = pb_mh
  scheduler_named none_scheduler = other_scheduler

  abbrev pub mode_named : LbMode → PbMode
  mode_named dsr = pb_dsr
  mode_named nat = pb_nat
  mode_named tun = pb_tun
  mode_named lb_none = other_mode

  -- The entry is the one of the protobuf, or the warning names what is not supported of it.
  abbrev pub IsFaithful : PbEntry → Translated → Type 0
  IsFaithful ve (entry e) =
      (protocol_named e.proto ≡ ve.protocol)
      × (scheduler_named e.scheduler ≡ ve.scheduler)
      × (mode_named e.mode ≡ ve.mode)
      × (e.port ≡ u16 ve.port)
      × (e.persistence ≡ ve.persistence)
      × (e.one_packet ≡ ve.one_packet)
      × (e.lower_threshold ≡ ve.lthreshold)
      × (e.upper_threshold ≡ ve.uthreshold)
  IsFaithful ve (warned unsupported_protocol) = ve.protocol ≡ other_protocol
  IsFaithful ve (warned unsupported_scheduler) = ve.scheduler ≡ other_scheduler
  IsFaithful ve (warned unsupported_mode) = ve.mode ≡ other_mode
