-- ===== src/Callback.antt =====
-- The waitForCallback gate: the token, the HTTP endpoint that receives a callback, and the step's
-- executor that arms the gate and consumes the callback.
pub mod Token
pub mod Schema
pub mod Server
pub mod Wait
pub mod Samples
