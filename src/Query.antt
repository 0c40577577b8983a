-- ===== src/Query.antt =====
-- What a page shows while the data of the server comes: the four cases that the pages of frontend/src/pages tell
-- apart.
use vpnshiki.Prelude.{String}

-- `isLoading`, `isError`, `data`
pub data Query {ℓ} (A : Type ℓ) : Type ℓ where
  loading failed : Query A
  loaded : A → Query A

pub data QueryView {ℓ} (A : Type ℓ) : Type ℓ where
  waits : (label : String) → QueryView A
  offers_retry : (message : String) → QueryView A
  says_empty : (message : String) → QueryView A
  shows : A → QueryView A
