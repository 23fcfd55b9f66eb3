-- ===== src/Tests.antt =====
-- Concrete inputs to the model of the server and the clients, and the theorems at these inputs.
mod Packets
mod Number
mod Meetings
mod Serving
mod Porting
mod Basics
mod Predictions
mod Predicting
mod Talks
mod Starting
mod Logging
mod Threads
mod Networking
mod Chatting
mod Aiming
