-- ===== src/Tests.antt =====
-- The theorems at inputs that can be followed in the source.
pub mod Notation
pub mod Calculator
pub mod Server
pub mod Queues
pub mod Web
pub mod Pages
pub mod Epoll
pub mod Poll
pub mod Chat
pub mod Pools
pub mod Shell
pub mod Chain
pub mod Commands
pub mod Log
pub mod Service
pub mod StopPool
pub mod Thread
pub mod Semaphore
pub mod MsgQueue
pub mod EarlyShell
pub mod Threads
pub mod Session
