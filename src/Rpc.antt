-- ===== src/Rpc.antt =====
-- derecho_caller.h: remote invocation. The templates over the functions of an object become one
-- function of the tag; serialisation and the objects themselves are parameters.
pub mod Pending
pub mod Query
pub mod Wire
pub mod Invocable
pub mod Dispatcher
pub mod Call
pub mod Objects
