-- ===== src/Registry/Restoring.antt =====
-- What becomes of an entry that a forced upload replaced, when the job of the upload does not succeed.
use rag_pipeline_windows.Base.{String, some, ◌≡◌, ◌⊎◌}
use rag_pipeline_windows.Base.Dict.{Dict, lookup}
use rag_pipeline_windows.Registry.{Entry, superseded}
use rag_pipeline_windows.Registry.Pending.{Pending}

-- The entry is `r`, or `r` as superseded by the document that has its path now.
abbrev pub GivesBack : String → String → Entry → Dict Entry → Type 0
GivesBack now h r m = (lookup h m ≡ some r) ⊎ (lookup h m ≡ some (superseded now r))
