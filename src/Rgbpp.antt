-- ===== src/Rgbpp.antt =====
-- packages/rgbpp/src: the parts of the transfer of all of a token.
pub mod Groups
pub mod Summary
mod Tests
