-- ===== src/Config.antt =====
-- tool/gen_config_sm90.py: the rows of a CUTLASS profile that are kept, and the layout of the tiles
-- of a measured run.
pub mod Rows
pub mod Grid
