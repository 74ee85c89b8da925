-- ===== src/Citations.antt =====
-- src/local_rag_classes/citation_registry.py: `CitationRegistry`, which gives each cited record and web result one
-- label. A source is its number and the record it stands for: `[S3]` is the local source of number 3, `[W3]` the web
-- source, and the other fields are read off the record. The id of a record and the url of a result are
-- its key.
pub mod Labels
mod Tests
use rag_pipeline_windows.Base.{ℕ, ◌+◌, String, Option, none, some, List, [], ◌∷◌, ◌++◌, length}
use rag_pipeline_windows.Base.Dict.{Dict, lookup, insert, keys}
use rag_pipeline_windows.Jobs.{Json}

-- A record or a result: its key and all its fields
pub record Cited : Type 0 where
  pub key : String
  pub fields : Dict Json

pub record Source : Type 0 where
  pub number : ℕ
  pub cited : Cited

-- `_local_by_record_id` with `_local_sources`, or `_web_by_url` with `_web_sources`
pub record Shelf : Type 0 where
  pub by_key : Dict Source
  pub sources : List Source

pub record CitationRegistry : Type 0 where
  pub local : Shelf
  pub web : Shelf

abbrev pub empty_shelf : Shelf
empty_shelf = record { by_key = []; sources = [] }

-- `__init__`
abbrev pub new_registry : CitationRegistry
new_registry = record { local = empty_shelf; web = empty_shelf }

-- `_local_source` and `_web_source` at the next index
abbrev pub next_source : Cited → Shelf → Source
next_source r shelf = record { number = length shelf.sources + 1; cited = r }

unfoldable pub preview : Cited → Shelf → Source
preview r shelf = elim (lookup r.key shelf.by_key) [ some s ↦ s | none ↦ next_source r shelf ]

unfoldable pub add : Cited → Shelf → Source × Shelf
add r shelf = elim (lookup r.key shelf.by_key) [
  | some s ↦ (s, shelf)
  | none ↦ (
    next_source r shelf,
    record {
      by_key = insert r.key (next_source r shelf) shelf.by_key;
      sources = shelf.sources ++ next_source r shelf ∷ [];
    },
  )
]

abbrev pub preview_local : Cited → CitationRegistry → Source
preview_local r c = preview r c.local

abbrev pub preview_web : Cited → CitationRegistry → Source
preview_web r c = preview r c.web

unfoldable pub add_local : Cited → CitationRegistry → Source × CitationRegistry
unfolding add
add_local r c = let a = add r c.local in (a.0, record c { local = a.1 })

unfoldable pub add_web : Cited → CitationRegistry → Source × CitationRegistry
unfolding add
add_web r c = let a = add r c.web in (a.0, record c { web = a.1 })

abbrev pub local_record_ids : CitationRegistry → List String
local_record_ids c = keys c.local.by_key

-- A source with the letter of its label
pub data Labelled : Type 0 where
  local_source : Source → Labelled
  web_source : Source → Labelled

unfoldable pub labelled : (Source → Labelled) → List Source → List Labelled
labelled kind [] = []
labelled kind (x ∷ xs) = kind x ∷ labelled kind xs

-- `all_sources`
unfoldable pub all_sources : CitationRegistry → List Labelled
unfolding labelled
all_sources c = labelled local_source c.local.sources ++ labelled web_source c.web.sources
