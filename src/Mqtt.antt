-- ===== src/Mqtt.antt =====
-- `sc_mqtt`: the connection to the platform and the routing of its messages (src/sc_mqtt.cpp).
pub mod Data
pub mod Publish
pub mod Events
