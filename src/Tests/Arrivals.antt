-- ===== src/Tests/Arrivals.antt =====
-- Frames for `doEtcpNetRx`: src/etcp.c.
use etcp.Base.{ℕ, ◌≡◌, refl, none, zero, suc, ℤ, pos, arith}
use etcp.Packet.{rdy}
use etcp.NetRx.{EthFrame, eth_p_ectp, do_etcp_net_rx}
use etcp.NetRx.Null.{do_etcp_net_rx-null}
use etcp.Tests.Transport.{packet, whole_packets}
use etcp.Tests.Sockets.{hash_zero, granted, one_mapping}

-- A frame of one data packet with 10 bytes, and a card that has as many of them as its state says.
abbrev pub frame : EthFrame
frame = record {
  h_dest = 20;
  h_source = 10;
  h_proto = eth_p_ectp;
  packet_at = λ at. packet rdy 0;
  dat_hdr_at = λ at. (packet rdy 0).etcp_dat_hdr;
}

abbrev pub frames : ℕ → ℤ × EthFrame × ℕ × ℕ
frames zero = (pos 0, frame, 0, 0)
frames (suc n) = (pos 200, frame, 7, n)

abbrev pub still : ℕ → ℕ × ℕ
still n = (0, n)

-- The one frame is a data packet for a known destination.
do_etcp_net_rx-null_example :
    do_etcp_net_rx ⦃b = whole_packets⦄
      (λ hdr. packet rdy 0)
      hash_zero
      granted
      (packet rdy 0)
      still
      frames
      3
      3
      one_mapping
      1
    ≡ none
do_etcp_net_rx-null_example =
    do_etcp_net_rx-null ⦃b = whole_packets⦄ (λ hdr. packet rdy 0) hash_zero granted (packet rdy 0)
      still frames 3 3 one_mapping 1 0 frame 200 7 refl refl (omega arith) refl
