-- ===== src/Dict.antt =====
-- Python's `dict`: an association list in insertion order. Assigning to a present key keeps its
-- place; deleting a key and assigning it again moves it to the end.
mod Defs
mod Laws
unfoldable pub use Defs.{get, put, remove}
pub use Defs.{Dict, keys, has}
pub use Laws.*
