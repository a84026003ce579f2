-- ===== src/Controller/Lengths.antt =====
-- The lengths in the packet of a drop report (trans_sec/controller/ddos_sdn_controller.py) and the
-- headers of trans_sec/packet/inspect_layer.py.
use transparent_security.Prelude.{ℕ, ◌+◌, ◌*◌, ◌≡◌, refl, String}
use transparent_security.Prelude.Lists.{length}
use transparent_security.Packet.{bits, udp_int, drop_report}
use transparent_security.Convert.{ℤ}
use transparent_security.AttackHash.{codes}
use transparent_security.Controller.DropReports.{drop_pkt}

-- In every drop report, the UDP length in the inner header is that of the header and the text, the
-- outer UDP length adds the UdpInt header and the DropReport header as their fields make them, and
-- the IP length adds an IPv4 header of 20 bytes.
pub drop_pkt-lengths :
    (ae_ip sdn_ip : String) (node_id timestamp attack_key : ℕ) (rpt_count : ℤ)
    → let p = drop_pkt ae_ip sdn_ip node_id timestamp attack_key rpt_count in
      (p.len ≡ 8 + length (codes p.payload))
      × (p.int_len * 8 ≡ bits udp_int + bits drop_report + p.len * 8)
      × (p.ip_len ≡ 20 + p.int_len)
unfolding udp_int drop_report
drop_pkt-lengths ae_ip sdn_ip node_id timestamp attack_key rpt_count = (refl, refl, refl)
