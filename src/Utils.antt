-- ===== src/Utils.antt =====
-- The package utils (utils/utils.go, utils/unquote.go): helpers on texts and dynamic values.
pub mod Unquote
pub mod Ident
