-- ===== src/JobQueue/Recovery/Names.antt =====
-- The name of a recovered job whose entry in the PDF registry names none.
use Prim.Native.String.{String, ◌++◌}

-- `f"recovered-{source_hash}"`
abbrev pub recovered_id : String → String
recovered_id source_hash = "recovered-" ++ source_hash
