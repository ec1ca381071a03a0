-- ===== src/Array.antt =====
-- Arrays: the SlpObjArray of include/slp_value.h and its functions in src/slp_value.c.

pub mod Store
pub mod Shifts
pub mod Views
pub mod Removal
pub mod Validity
pub mod Assignment
mod Tests
