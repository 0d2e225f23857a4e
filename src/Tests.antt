-- ===== src/Tests.antt =====
-- Runs of the models on concrete inputs, and the theorems at inputs that meet their hypotheses. The
-- third-party interfaces take the values of External/ByteOrder/Model and Entity/MsgType/Numbers.
mod Entity
mod Seqnum
mod Scheduler
mod Message
mod Net
mod Request
mod Wrapper
mod Calls
mod Api
