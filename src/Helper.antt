-- ===== src/Helper.antt =====
-- lib/oauth/helper.rb, one module for each family of methods.
pub mod Escape
pub mod Normalize
pub mod Header
