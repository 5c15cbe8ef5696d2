-- ===== src/Json/Shows.antt =====
-- The refinement of the page by the writer of src/sc_json.cpp.
pub mod Put
pub mod Calls
pub mod Contract
pub mod Null
