-- ===== src/Contracts.antt =====
-- cultureshift/contracts.py: the public data contracts and their validators. A model is the value
-- after pydantic's own coercions (stripped texts, UTC timestamps as microseconds).
mod Texts
mod Brand
mod Critiques
mod Compositions
mod Runs
mod Responses
unfoldable pub use Texts.*
unfoldable pub use Brand.*
unfoldable pub use Critiques.*
unfoldable pub use Compositions.*
unfoldable pub use Runs.*
unfoldable pub use Responses.*
