-- ===== src/Packet/Loop/Pair.antt =====
-- A call and its reply, each in a datagram of its own, through the whole of `processPacket`.
