-- ===== src/Citations/Tests.antt =====
-- The theorem on the labels at concrete citations.
use rag_pipeline_windows.Base.{String, List, [], ◌∷◌, ◌≡◌, refl}
use rag_pipeline_windows.Citations.{
  Cited, new_registry, preview_local, preview_web, add_local, add_web,
}
use rag_pipeline_windows.Citations.Labels.{
  Call, cite_local, cite_web, after, Numbered, labels_are_kept,
}

abbrev cited : String → Cited
cited key = record { key = key; fields = [] }

abbrev before : List Call
before = cite_local (cited "r1") ∷ cite_web (cited "u1") ∷ []

abbrev later : List Call
later = cite_local (cited "r3") ∷ cite_local (cited "r1") ∷ []

abbrev r2 : Cited
r2 = cited "r2"

labels_are_kept_example :
    let c = after before new_registry in
    let l = after later (add_local r2 c).1 in
    let v = after later (add_web r2 c).1 in
    Numbered l
    × Numbered v
    × (preview_local r2 c ≡ (add_local r2 c).0)
    × (add_local r2 l ≡ ((add_local r2 c).0, l))
    × (preview_web r2 c ≡ (add_web r2 c).0)
    × (add_web r2 v ≡ ((add_web r2 c).0, v))
labels_are_kept_example = labels_are_kept before later r2 r2 refl
