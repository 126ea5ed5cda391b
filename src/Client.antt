-- ===== src/Client.antt =====
-- include/client.h and src/client.c: what a client thread does with one connection. It reads a line,
-- makes a task of it, pushes the task, waits for a response, and writes the response to the socket.
pub mod Line
pub mod Command
pub mod Wait
pub mod Thread
pub mod Session
mod Tests
