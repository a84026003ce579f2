-- ===== src/Analytics/Oinc.antt =====
-- The other engines of trans_sec/analytics/oinc.py: `Oinc`, which looks a packet up in a tree, and the
-- two that only log. Times are in microseconds, and the clock does not go back.
pub mod Idle
use transparent_security.Prelude.{
  ℕ, suc, ◌+◌, ◌-◌, ◌*◌, String, Bool, true, false, not, ◌&&◌, Option, none, some, List, [], ◌∷◌,
  ◌++◌, ltb, if◌then◌else◌,
}
use transparent_security.Prelude.Equality.{◌==◌, nat_eq, string_eq}
use transparent_security.Prelude.Result.{
  Exception, Result, ok, err, error, type_error, attribute_error, index_error,
}
use transparent_security.Prelude.Exec.{Exec, pure, raise, lift, gets, modify, catch, ◌>>=◌, ◌>>◌}
use transparent_security.External.{Scapy, Frame}
use transparent_security.Analytics.Extract.{IntData, extract_int_data}

-- A name in the tree, and a value in the dict of a packet.
pub data Name : Type 0 where
  text : String → Name
  number : ℕ → Name

-- `info.get(key)`, over the keys of the dict that `extract_int_data` makes.
unfoldable pub info_get : String → IntData → Option Name
info_get key info =
    if key == "devMac"
    then some (text info.dev_mac)
    else if key == "devAddr"
    then some (text info.dev_addr)
    else if key == "dstAddr"
    then some (text info.dst_addr)
    else if key == "dstPort"
    then some (number info.dst_port)
    else if key == "protocol"
    then some (number info.protocol)
    else if key == "packetLen"
    then some (number info.packet_len)
    else none

-- The attributes of a node that counts packets; `pps`, which is only logged, follows from them.
pub record Count : Type 0 where
  pub value : ℕ
  pub time : ℕ
  pub attack : Bool

-- anytree: a tree with its root, the nodes below a node at most one level deep, itself included, that
-- have a name, or CountError where they are more than one, and the attributes of a node.
pub record AnyTree : Type 1 where
  pub Tree : Type 0
  pub Node : Type 0
  pub root : Tree → Node
  pub findall_by_attr : Tree → Node → Option Name → Result (List Node)
  pub children : Tree → Node → List Node
  pub name : Tree → Node → Option Name
  pub count_of : Tree → Node → Result Count
  pub set_count : Node → Count → Tree → Tree

-- The dict that is sent with a request.
pub record OincAttack : Type 0 where
  pub src_mac : Option Name
  pub dst_ip : Option Name
  pub dst_port : Option Name

-- The current time, and the outcome of the HTTP request.
pub record Now : Type 0 where
  pub today : ℕ
  pub reply : Result (Unit {0})

module _ (anytree : AnyTree) where
  open anytree use {Tree, Node, root, findall_by_attr, children, name, count_of, set_count}

  pub record Oinc : Type 0 where
    pub tree : Tree
    pub requests : List OincAttack

  -- `mac, src_ip, dst_ip, dst_port, packet_size`, as far as they were found.
  pub record Found : Type 0 where
    pub mac : Option Node
    pub src_ip : Option Node
    pub dst_ip : Option Node
    pub dst_port : Option Node
    pub packet_size : Option Node

  abbrev nothing : Found
  nothing = record { mac = none; src_ip = none; dst_ip = none; dst_port = none; packet_size = none }

  -- The first node below `parent` with the name that the packet has under `key`.
  unfoldable pub find : Tree → IntData → String → Node → Result (Option Node)
  unfolding info_get
  find tree info key parent = elim (findall_by_attr tree parent (info_get key info)) [
    | err e ↦ err e
    | ok [] ↦ ok none
    | ok (node ∷ nodes) ↦ ok (some node)
  ]

  -- One level of the search: where a node is found, the search goes on below it.
  abbrev descend : Result (Option Node) → Found → (Node → Result Found) → Result Found
  descend (err e) found next = err e
  descend (ok none) found next = ok found
  descend (ok (some node)) found next = next node

  unfoldable pub search_tree : Tree → IntData → Result Found
  unfolding find
  search_tree tree info = descend (find tree info "srcMac" (root tree)) nothing λ mac.
      let found : Found = record nothing { mac = some mac } in
      descend (find tree info "srcIP" mac) found λ src_ip.
        let found : Found = record found { src_ip = some src_ip } in
        descend (find tree info "dstIP" src_ip) found λ dst_ip.
          let found : Found = record found { dst_ip = some dst_ip } in
          descend (find tree info "dstPort" dst_ip) found λ dst_port.
            let found : Found = record found { dst_port = some dst_port } in
            descend (find tree info "packet_size" dst_port) found
              λ packet_size. ok (record found { packet_size = some packet_size })

  -- `extract_int_data` may give None, which has no `get`.
  abbrev search_info : Tree → Option IntData → Result Found
  search_info tree none = err attribute_error
  search_info tree (some info) = search_tree tree info

  abbrev first_child : Tree → Node → Result Node
  first_child tree node = elim (children tree node) [
    | [] ↦ err index_error
    | child ∷ others ↦ ok child
  ]

  abbrev put_count : Node → Count → Exec Oinc (Unit {0})
  put_count node c = modify (λ o. record o { tree = set_count node c o.tree })

  abbrev send : OincAttack → Now → Exec Oinc (Unit {0})
  send attack now =
      modify (λ o. record o { requests = o.requests ++ attack ∷ [] }) >> lift now.reply

  abbrev attack_at : Tree → Node → Node → Node → OincAttack
  attack_at tree mac dst_ip dst_port = record {
    src_mac = name tree mac;
    dst_ip = name tree dst_ip;
    dst_port = name tree dst_port;
  }

  -- More than 3 packets, at more than 100 a second, and no attack yet.
  abbrev is_flood : Count → ℕ → Bool
  is_flood c delta = ltb 3 c.value && ltb (100 * delta) (c.value * 1_000_000) && not c.attack

  abbrev reset_after : ℕ → ℕ → Count → Count
  reset_after delta today c =
      if ltb 60_000_000 delta then record c { time = today; value = 1 } else c

  -- Behind the division by the time that has passed.
  abbrev judge : OincAttack → Node → Count → ℕ → Now → Exec Oinc (Unit {0})
  judge attack node c delta now =
      if is_flood c delta
      then (put_count node (record c { attack = true })
          >> (λ o. catch (send attack now o) (λ e. pure tt))
          >> put_count node (reset_after delta now.today (record c { attack = true })))
      else put_count node (reset_after delta now.today c)

  unfoldable pub packet_with_mac : Node → Node → Node → Node → Now → Exec Oinc (Unit {0})
  packet_with_mac mac dst_ip dst_port packet_size now = do
    tree ← gets (λ o. o.tree)
    node ← lift (first_child tree packet_size)
    old ← lift (count_of tree node)
    let c = record old { value = old.value + 1 }
    put_count node c
    let delta = now.today - c.time
    if delta == 0
        then raise (error "division by zero")
        else judge (attack_at tree mac dst_ip dst_port) node c delta now

  abbrev act : Found → Now → Exec Oinc (Unit {0})
  act found now = elim found.mac [
    | none ↦ pure tt
    | some mac ↦ elim found.src_ip [
      | none ↦ pure tt
      | some src_ip ↦ elim found.dst_ip [
        | none ↦ pure tt
        | some dst_ip ↦ elim found.dst_port [
          | none ↦ pure tt
          | some dst_port ↦ elim found.packet_size [
            | none ↦ pure tt
            | some packet_size ↦ packet_with_mac mac dst_ip dst_port packet_size now
          ]
        ]
      ]
    ]
  ]

  module _ (scapy : Scapy) where
    open scapy use {Packet, ether}

    unfoldable pub parse_tree : Packet → Tree → Result Found
    unfolding search_tree extract_int_data
    parse_tree packet tree = elim (ether packet) [
      | err e ↦ err e
      | ok ether_pkt ↦ elim (extract_int_data scapy ether_pkt) [
        | err e ↦ err e
        | ok info ↦ search_info tree info
      ]
    ]

    -- What `__manage_tree` does is to log the tree.
    unfoldable pub process_packet : Packet → Now → Exec Oinc (Unit {0})
    unfolding parse_tree packet_with_mac
    process_packet packet now = do
      tree ← gets (λ o. o.tree)
      found ← lift (parse_tree packet tree)
      act found now

    -- `sniff_int`: the packets in turn, the sniffing being started again after an exception.
    unfoldable pub sniff_int : List (Packet × Now) → Oinc → Oinc
    unfolding process_packet
    sniff_int [] o = o
    sniff_int ((packet, now) ∷ packets) o = sniff_int packets (process_packet packet now o).1

    unfoldable pub process_drop_rpt : Packet → Exec Oinc (Unit {0})
    process_drop_rpt packet = pure tt

-- `IntLoggerAE.process_packet`, and `handle_packet` and `process_packet` of `LoggerAE`: what is raised
-- is `NotImplemented`, which is no exception.
module _ (scapy : Scapy) where
  open scapy use {Packet, ether}

  unfoldable pub log_int_data : Packet → Result Bool
  unfolding extract_int_data
  log_int_data packet = elim (ether packet) [
    | err e ↦ err e
    | ok ether_pkt ↦ elim (extract_int_data scapy ether_pkt) [ err e ↦ err e | ok info ↦ ok false ]
  ]

  unfoldable pub log_summary : Packet → Result Bool
  log_summary packet = ok false

  unfoldable pub not_implemented : Packet → Result Bool
  not_implemented packet = err type_error
