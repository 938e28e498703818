-- ===== src/Tests/Clients.antt =====
-- The client of src/test.c sends a message over a card that receives nothing.
use etcp.Base.{ℕ, ◌≡◌, refl, some, ◌+ℤ◌, ◌-ℤ◌}
use etcp.CircularQueue
use etcp.CircularQueue.{adv_wr_seq, scan_wr, adv_rd_seq, scan_rd}
use etcp.CircularQueue.Slots.{commit_slot, release_slot, get_rd, get_next_wr}
use etcp.LinkedList
use etcp.HashTable
use etcp.HashTable.{add_new, add_chain, add_loop, get_chain, get_loop, get_idx}
use etcp.Conn.{conn_new}
use etcp.State.{Store, srcs_map_new, conn_alloc, conn_delete}
use etcp.Socket.{
  etcp_socket_new, etcp_socke_delete, source_map, place_conn, place_made, connect_in,
  add_conn_mapping, etcp_connect,
}
use etcp.NetTx.{send_out, act, turn, send_loop, do_etcp_net_tx}
use etcp.NetRx.{
  on_rx_ethernet_frame, on_rx_packet, on_rx_dat, find_dat, net_rx_loop, do_etcp_net_rx,
}
use etcp.UserTx.{mk_eth_pkt, tx_turn, tx_loop, do_etcp_user_tx}
use etcp.Api.{etcp_close}
use etcp.Api.Send.{
  rx_q_of, tx_q_of, with_queues, net_tx_conn, transmit, send_limits, send_bytes, etcp_send,
}
use etcp.Api.Recv.{triggered_rx, recv_from, etcp_recv}
use etcp.Control.{mark_acks, mark_dats, ack_limit, dat_limit, etcp_tx_tc}
use etcp.Control.Programs.{client_loop, client}
use etcp.Tests.Programs.{world, first_store}

client_runs : (r : Store × ℕ) × (client world 1 140 first_store 0 ≡ some r)
unfolding ◌+ℤ◌ ◌-ℤ◌ CircularQueue.get CircularQueue.new adv_wr_seq scan_wr adv_rd_seq scan_rd
    commit_slot release_slot get_rd get_next_wr LinkedList.new HashTable.new HashTable.get add_new
    add_chain add_loop get_chain get_loop get_idx conn_new srcs_map_new conn_alloc conn_delete
    etcp_socket_new etcp_socke_delete source_map place_conn place_made connect_in add_conn_mapping
    etcp_connect send_out act turn send_loop do_etcp_net_tx on_rx_ethernet_frame on_rx_packet
    on_rx_dat find_dat net_rx_loop do_etcp_net_rx mk_eth_pkt tx_turn tx_loop do_etcp_user_tx
    etcp_close rx_q_of tx_q_of with_queues net_tx_conn transmit send_limits send_bytes etcp_send
    triggered_rx recv_from etcp_recv mark_acks mark_dats ack_limit dat_limit etcp_tx_tc client_loop
    client
client_runs = (_, refl)
