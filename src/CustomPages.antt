-- ===== src/CustomPages.antt =====
-- frontend/src/components/custom-pages/lib.ts: sizes, the image tag, and in the children the image
-- round trip of the assistant.
mod Tests
pub mod Uris
pub mod Images
pub mod Agreement
pub mod Reading
pub mod Crossing
pub mod Printing
pub mod Pieces
pub mod Numbering
pub mod RoundTrip
pub mod Sizes
pub mod Tag
pub mod Scripts
pub mod Reports
pub mod Caps
