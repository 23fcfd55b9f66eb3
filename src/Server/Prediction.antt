-- ===== src/Server/Prediction.antt =====
-- The handler of `ps_bind_request` in udp_p2p_server.h: it collects two addresses of each of two
-- clients, and then tells each client those of the other.
pub mod Machine
pub mod Invariant
pub mod Phases
pub mod Clock
use p2p_ps_stun.Prelude.{
  ℕ, ◌+◌, ◌%◌, ◌^◌, Bool, not, ◌&&◌, Option, none, some, List, [], ◌∷◌, Map, find, insert, set,
  erase, ltb, ◌==◌, if◌then◌else◌,
}
use p2p_ps_stun.Wire.{SockaddrIn, Message, ntohl, transaction_id}
use p2p_ps_stun.Wire.MessageType
use p2p_ps_stun.Server.Types.{PsTransaction, new_transaction, Server, socket_0, Sent, Datagram}
use p2p_ps_stun.Server.Relay.{ack_message}

abbrev pub expiry : ℕ
expiry = 30000

-- The test `cl1_ts1 + 30000 < get_time_in_ms()`, in 64 bits.
unfoldable pub is_expired : PsTransaction → ℕ → Bool
is_expired tr now = ltb ((tr.cl1_ts1 + expiry) % 2 ^ 64) now

-- A packet from a host that is not the first client's.
unfoldable pub join_second : PsTransaction → SockaddrIn → ℕ → PsTransaction
join_second tr peer_addr now =
    if tr.cl2_sk1.addr == 0
    then record tr { cl2_ts1 = now; cl2_sk1 = peer_addr }
    else if tr.cl2_sk1.addr == peer_addr.addr
    then record tr { cl2_ts2 = now; cl2_sk2 = peer_addr }
    else tr

unfoldable pub is_ready : PsTransaction → Bool
is_ready tr = not (tr.cl2_sk2.addr == 0) && not (tr.cl1_sk2.addr == 0)

-- Whether the handler leaves the transaction or replies and erases it.
pub data Update : Type 0 where
  waiting : PsTransaction → Update
  complete : PsTransaction → Update

unfoldable pub update : PsTransaction → SockaddrIn → ℕ → ℕ → Update
unfolding is_expired join_second is_ready new_transaction
update tr peer_addr check_time stamp_time =
    if is_expired tr check_time
    then waiting (new_transaction peer_addr stamp_time)
    else if tr.cl1_sk1.addr == peer_addr.addr
    then waiting (record tr { cl1_ts2 = stamp_time; cl1_sk2 = peer_addr })
    else let tr' = join_second tr peer_addr stamp_time in
      if is_ready tr' then complete tr' else waiting tr'

-- The two replies, both through the first socket and to the clients' first addresses.
abbrev pub ps_replies : PsTransaction → List Sent
ps_replies tr =
    record {
      via = socket_0;
      msg = record {
        type = MessageType.ps_bind_reply;
        message = record {
          addr_one = tr.cl2_sk1;
          addr_two = tr.cl2_sk2;
          t1 = tr.cl2_ts1;
          t2 = tr.cl2_ts2;
        };
      };
      to = tr.cl1_sk1;
    }
    ∷ record {
      via = socket_0;
      msg = record {
        type = MessageType.ps_bind_reply;
        message = record {
          addr_one = tr.cl1_sk1;
          addr_two = tr.cl1_sk2;
          t1 = tr.cl1_ts1;
          t2 = tr.cl1_ts2;
        };
      };
      to = tr.cl2_sk1;
    }
    ∷ []

-- The id of the request, which is copied before the `memset`.
unfoldable pub ps_request_id : Message → ℕ
ps_request_id msg = ntohl (transaction_id msg.message)

unfoldable pub after_update : ℕ → Map PsTransaction → Update → Map PsTransaction × List Sent
after_update id m (waiting tr) = (set id tr m, [])
after_update id m (complete tr) = (erase id m, ps_replies tr)

unfoldable pub on_transaction :
    ℕ → Option PsTransaction → Map PsTransaction → Datagram → Map PsTransaction × List Sent
unfolding after_update update new_transaction
on_transaction id none m d = (insert id (new_transaction d.peer_addr d.check_time) m, [])
on_transaction id (some tr) m d =
    after_update id m (update tr d.peer_addr d.check_time d.stamp_time)

unfoldable pub on_ps_bind_request : Server → Datagram → Server × List Sent
unfolding on_transaction
on_ps_bind_request s d =
    let id = ps_request_id d.msg in
    let (m, replies) =
      on_transaction id (find id s.ps_transaction_client_map) s.ps_transaction_client_map d in
    (
      record s { ps_transaction_client_map = m },
      record { via = d.handle; msg = ack_message; to = d.peer_addr } ∷ replies,
    )
