-- ===== src/Wire/Addressing.antt =====
-- What the wire format preserves: byte order and the views of the union of messages.h.
use p2p_ps_stun.Prelude.{ℕ, ◌^◌, ◌<◌, ◌≡◌, ◌≢◌, ◌∙◌, ap, arith}
use p2p_ps_stun.Wire.{Payload, htons, ntohs, htonl, ntohl, transaction_id, set_transaction_id}

ntohs-htons : (x : ℕ) → x < 2 ^ 16 → ntohs (htons x) ≡ x
unfolding htons
ntohs-htons x h = omega arith

-- The other way round, for a port in network order.
pub htons-ntohs : (x : ℕ) → x < 2 ^ 16 → htons (ntohs x) ≡ x
unfolding htons
htons-ntohs x h = omega arith

pub ntohs-known : (x : ℕ) → x < 2 ^ 16 → x ≢ 0 → ntohs x ≢ 0
unfolding htons
ntohs-known x h n = omega arith

htons-lt : (x : ℕ) → htons x < 2 ^ 16
unfolding htons
htons-lt x = omega arith

pub htonl-lt : (x : ℕ) → htonl x < 2 ^ 32
unfolding htonl
htonl-lt x = omega arith

ntohl-htonl : (x : ℕ) → x < 2 ^ 32 → ntohl (htonl x) ≡ x
unfolding htonl
ntohl-htonl x h = omega arith

transaction_id-set : (x : ℕ) (u : Payload) → transaction_id (set_transaction_id x u) ≡ x
unfolding transaction_id set_transaction_id
transaction_id-set x u = omega arith

-- A transaction id below 2^32 that a client writes into a message with htonl, whatever the rest of
-- the message holds, is the id that ntohl reads from it at the other side.
pub id_round_trip :
    (id : ℕ) (u : Payload)
    → id < 2 ^ 32
    → ntohl (transaction_id (set_transaction_id (htonl id) u)) ≡ id
id_round_trip id u h = ap ntohl (transaction_id-set (htonl id) u) ∙ ntohl-htonl id h
