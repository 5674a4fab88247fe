-- ===== src/Examples.antt =====
-- Each theorem of the header at one concrete input: the packets and states of Data, and an
-- application for each theorem.
pub mod Data
pub mod Numbers
pub mod Requests
pub mod Parsers
pub mod Responses
pub mod Http
pub mod Queue
pub mod Sockets
pub mod Rpc
pub mod Grpc
pub mod Amqp
pub mod Kernel
