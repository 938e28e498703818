-- ===== src/Tests.antt =====
-- Runs of the model on small queues, tables and packets, and the theorems at those inputs.
mod Queue
mod Table
mod Ordered
mod Transport
mod Sockets
mod Acks
mod Arrivals
mod Sent
mod Programs
mod Clients
mod Accepted
