-- ===== src/Lib.antt =====
-- Transparent security finds and stops DDoS attacks in a network of P4 switches. The switches add
-- in-band telemetry (INT) to packets; the analytics engine reads the telemetry, counts packets and
-- bytes by attack, and asks the SDN controller over HTTP to drop an attack's packets; the
-- controller tells the switches, and reports the dropped packets back to the engine, which asks to
-- stop once the drops have stopped.
--
-- * Analytics/SimpleAe.antt and its children model `SimpleAE` of trans_sec/analytics/oinc.py. The
--   record SimpleAe is the object with its four maps, by the attack's hash, and the requests it has
--   sent; process_packet and process_drop_rpt are its methods, process_key and report_key what they
--   do once the key is known. Window.antt is the loop over the samples of a key.
--   Analytics/Oinc.antt models `Oinc` and the two engines that log, over the record AnyTree of what
--   anytree does.
-- * Analytics/Extract.antt models extract_int_data, extract_trpt_data, extract_drop_rpt and
--   parse_ip_pkt of the same file, and Packet.antt the header layouts of
--   trans_sec/packet/inspect_layer.py.
-- * AttackHash.antt models create_attack_hash of trans_sec/utils/tps_utils.py, which gives the key.
-- * Convert.antt and its children model trans_sec/utils/convert.py, by which values become the
--   bytes of P4 table entries.
-- * ShortestPath.antt and its children model trans_sec/controller/shortest_path.py, with which a
--   controller finds the ports toward a switch.
-- * Controller/DropReports.antt models the drop reports of
--   trans_sec/controller/ddos_sdn_controller.py, and Controller/Dispatch.antt its requests, with
--   what aggregate_controller.py, core_controller.py and gateway_controller.py of the same
--   directory do of them; Controller/Switches.antt has their loops over switches, whose classes are
--   a record of operations.
-- * P4Switch.antt and its children model the attack tables of
--   trans_sec/p4runtime_lib/gateway_switch.py and aggregate_switch.py, and the latter's inspection
--   table, on trans_sec/p4runtime_lib/p4rt_switch.py.
-- * ControlLoop.antt and its children put the controller's drop reports and the engine together,
--   period by period. The children Listing and Keys follow the number of an attack from the engine
--   to the drop table of the aggregate switch and back; what the client library makes of the
--   addresses when it lists the table is a parameter.
-- * P4Info.antt and its children model trans_sec/p4runtime_lib/helper.py: look-ups in the
--   description of a P4 program, and the entries that are built from it.
-- * P4Runtime.antt and its children model what trans_sec/p4runtime_lib/p4rt_switch.py,
--   core_switch.py, aggregate_switch.py and gateway_switch.py write to a device and read back from
--   it, the attack tables apart: forwarding entries, learned addresses, inspection, multicast, and
--   the gateway's translation of ports. The gRPC stub is the record Device.
-- * Barefoot.antt and its children model trans_sec/bfruntime_lib/bfrt_switch.py,
--   aggregate_switch.py and core_switch.py of the same directory, over the record Server of what
--   the client library does.
-- * Traffic.antt's children model trans_sec/device_software. Sending.antt and Bursts.antt are
--   send_packets.py: a packet is a list of Part, the headers as they are given to scapy.
--   Receiving.antt and Reports.antt are receive_packets.py, whose global variables are the record
--   Globals. Wire.antt says what is asked of scapy where a packet that was sent is read; the other
--   files compose the scripts with each other and with the engine.
-- * Mininet.antt and its children model `ExerciseTopo` of trans_sec/mininet/exercise.py: what
--   mininet is told is the list of calls in the record ExerciseTopo.
-- * HttpSession.antt models trans_sec/utils/http_session.py, over the record Requests of what the
--   requests library gives; HttpSession/Lost.antt puts it under the engine.
-- * Telemetry.antt models trans_sec/packet/packet_telemetry.py.
-- * Http.antt models the resources of trans_sec/controller/http_server_flask.py that are
--   registered, behind the parsing of the arguments.
-- * Consts.antt is trans_sec/consts.py. External.antt holds what libraries give, as records of
--   operations. Examples.antt and its children run the code at concrete inputs.
--
-- Methods that change an object and may raise are functions from the object to a result and the
-- object, so that what was written before an exception stays written (Prelude/Exec.antt). A dict is
-- an association list in insertion order (Prelude/Dict.antt); a dict that may hold None has options
-- as values. Times are in microseconds, and the answers of clocks and of HTTP requests are
-- arguments.
--
-- Fuel: the recursion for a shortest path is on fuel, one more than the number of nodes, since each
-- call visits another node; the digits of a number n have the fuel n + 1, and the loop over the
-- samples one more than their number.
--
-- Not modelled are logging and threads, and the libraries: scapy, ipaddress, hashlib, socket,
-- requests, anytree, getmac, mininet, the protobuf library's conversions, the gRPC stub and the
-- Barefoot client library are parameters, and so are the methods of the switches for the
-- controllers, and for the attack tables the building and the sending of an update. The start of a
-- switch and the set-up of the network are left out.
pub mod Prelude
pub mod Consts
pub mod Packet
pub mod External
pub mod Convert
pub mod AttackHash
pub mod Analytics
pub mod ShortestPath
pub mod Controller
pub mod P4Info
pub mod P4Switch
pub mod ControlLoop
pub mod P4Runtime
pub mod Barefoot
pub mod Traffic
pub mod Mininet
pub mod Telemetry
pub mod HttpSession
pub mod Http
pub mod Examples
