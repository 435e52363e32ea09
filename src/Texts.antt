-- ===== src/Texts.antt =====
-- The textual forms that Control reads back: edge references and authorizations.
pub mod EdgeRef
pub mod Authorization
