-- ===== src/Ports.antt =====
-- core/ports.py: what the core sees of the shell, the files, the processes and the network. The
-- adapters behind the ports, and the system behind those, are an environment: a function from
-- everything done so far to the next answer.
pub mod Command
pub mod Effect
pub mod Json
pub mod Env
