-- ===== src/SocketServer/Connection/Drain.antt =====
-- The work of a connection comes to an end.
use cpp_sk.SocketServer.Connection.{Connection}
