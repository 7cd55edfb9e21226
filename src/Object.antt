-- ===== src/Object.antt =====
-- quuz-object.c and the object types of quuz.h.
pub mod PointerTag
pub mod CellType
pub mod Color
pub mod Tag
pub mod Info
