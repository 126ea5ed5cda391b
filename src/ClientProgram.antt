-- ===== src/ClientProgram.antt =====
-- src/client_program.c: the program that a user runs, which sends the commands to the server.
pub mod Commands
pub mod Connection
pub mod Download
pub mod Upload
pub mod Interactive
pub mod Program
mod Tests
