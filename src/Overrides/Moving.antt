-- ===== src/Overrides/Moving.antt =====
-- The overrides of a document that moves to another index.
use rag_pipeline_windows.Base.{
  ◌==◌, String, Bool, true, false, not, Option, none, some, List, [], ◌∷◌, if◌then◌else◌, contains,
  distinct, ◌≡◌, refl, ap, sym, ◌∙◌, inl, inr, arith, eq_iff, Bool-cases, Option-cases,
}
use rag_pipeline_windows.Base.Dict.{Dict, lookup, insert, has, keys, has-lookup, lookup-insert}
use rag_pipeline_windows.Base.Updates.{
  first_of, when, select, update_all, lookup-select, distinct-select, lookup-update_all,
  distinct-update_all,
}
use rag_pipeline_windows.Overrides.{
  Edit, Deletion, Payload, Disk, load_index_overrides, write_index_overrides, is_empty, normalized,
  received, left_behind, moved_edits, moved_deletions, move_entries, move_overrides_for_sources,
}
use rag_pipeline_windows.Overrides.Applying.{unique}

-- The two payloads after the move.
module _ {V : Type 0} (test : V → Bool) where
  received_lem :
      (id : String) (p t : Dict V)
      → distinct (keys p) ≡ true
      → (id == "") ≡ false
      → distinct (keys (update_all (select (λ _ v. test v) p) t)) ≡ true
      → lookup id (select (λ i _. not (i == "")) (update_all (select (λ _ v. test v) p) t))
        ≡ first_of (when test (lookup id p)) (lookup id t)
  received_lem id p t d n u = ground (
    arith,
    n,
    lookup-select id (λ i _. not (i == "")) (update_all (select (λ _ v. test v) p) t) u,
    lookup-update_all id (select (λ _ v. test v) p) t (distinct-select (λ _ v. test v) p d),
    lookup-select id (λ _ v. test v) p d,
    Option-cases (lookup id (update_all (select (λ _ v. test v) p) t)),
  )

  left_lem :
      (id : String) (p : Dict V)
      → distinct (keys p) ≡ true
      → (id == "") ≡ false
      → lookup id
          (select (λ i _. not (i == "")) (select (λ i _. not (has i (select (λ _ v. test v) p))) p))
        ≡ when (λ v. not (test v)) (lookup id p)
  left_lem id p d n = ground (
    arith,
    n,
    lookup-select id (λ i _. not (i == ""))
        (select (λ i _. not (has i (select (λ _ v. test v) p))) p)
        (distinct-select (λ i _. not (has i (select (λ _ v. test v) p))) p d),
    lookup-select id (λ i _. not (has i (select (λ _ v. test v) p))) p d,
    has-lookup id (select (λ _ v. test v) p),
    lookup-select id (λ _ v. test v) p d,
    Option-cases (lookup id p),
  )

  none_moved :
      (id : String) (p : Dict V)
      → distinct (keys p) ≡ true
      → is_empty (select (λ _ v. test v) p) ≡ true
      → when test (lookup id p) ≡ none
  none_moved id p d e =
      sym (lookup-select id (λ _ v. test v) p d) ∙ gone (select (λ _ v. test v) p) e
    where
      gone : (m : Dict V) → is_empty m ≡ true → lookup id m ≡ none
      gone [] h = unfold lookup in refl
      gone (x ∷ m) h = ground (arith, h)

  all_left : (o : Option V) → when test o ≡ none → when (λ v. not (test v)) o ≡ o
  all_left none h = refl
  all_left (some v) h = ground (arith, h, Bool-cases (test v))

-- What the two directories have under one id after a move.
pub record Carried (source target : String) (hashes : List String) (id : String)
    (before after : Disk) : Type 0 where
  pub edits_there :
      lookup id (load_index_overrides target after).edits
      ≡ first_of
          (when
            (λ e. contains e.source_hash hashes)
            (lookup id (load_index_overrides source before).edits))
          (lookup id (load_index_overrides target before).edits)
  pub edits_here :
      lookup id (load_index_overrides source after).edits
      ≡ when
          (λ e. not (contains e.source_hash hashes))
          (lookup id (load_index_overrides source before).edits)
  pub deletions_there :
      lookup id (load_index_overrides target after).deletions
      ≡ first_of
          (when
            (λ d. contains d.source_hash hashes)
            (lookup id (load_index_overrides source before).deletions))
          (lookup id (load_index_overrides target before).deletions)
  pub deletions_here :
      lookup id (load_index_overrides source after).deletions
      ≡ when
          (λ d. not (contains d.source_hash hashes))
          (lookup id (load_index_overrides source before).deletions)

module _ (source target : String) (hashes : List String) (disk : Disk) where
  two_writes :
      (v w : Payload)
      → (source == target) ≡ false
      → (load_index_overrides target (insert source w (insert target v disk)) ≡ v)
        × (load_index_overrides source (insert source w (insert target v disk)) ≡ w)
  two_writes v w n = (
    ground (
      arith,
      n,
      lookup-insert source target w (insert target v disk),
      lookup-insert target target v disk,
      eq_iff target target,
    ),
    ground (arith, lookup-insert source source w (insert target v disk), eq_iff source source),
  )

  moved_lem :
      (id : String)
      → (source == target) ≡ false
      → (id == "") ≡ false
      → unique (load_index_overrides source disk) ≡ true
      → unique (load_index_overrides target disk) ≡ true
      → Carried source target hashes id disk (move_entries source target hashes disk).1
  unfolding move_entries write_index_overrides
  moved_lem id n i u w =
      let p = load_index_overrides source disk in
      let t = load_index_overrides target disk in
      let (there, here) =
        two_writes (normalized (received hashes p t)) (normalized (left_behind hashes p)) n in
      record {
        edits_there =
            ap (λ (q : Payload). lookup id q.edits) there
            ∙ received_lem (λ (e : Edit). contains e.source_hash hashes) id p.edits t.edits
                (ground (arith, u)) i
                (distinct-update_all (moved_edits hashes p) t.edits (ground (arith, w)));
        edits_here =
            ap (λ (q : Payload). lookup id q.edits) here
            ∙ left_lem (λ (e : Edit). contains e.source_hash hashes) id p.edits (ground (arith, u))
                i;
        deletions_there =
            ap (λ (q : Payload). lookup id q.deletions) there
            ∙ received_lem (λ (d : Deletion). contains d.source_hash hashes) id p.deletions
                t.deletions (ground (arith, u)) i
                (distinct-update_all (moved_deletions hashes p) t.deletions (ground (arith, w)));
        deletions_here =
            ap (λ (q : Payload). lookup id q.deletions) here
            ∙ left_lem (λ (d : Deletion). contains d.source_hash hashes) id p.deletions
                (ground (arith, u)) i;
      }

  unmoved_lem :
      (id : String)
      → unique (load_index_overrides source disk) ≡ true
      → is_empty (moved_edits hashes (load_index_overrides source disk)) ≡ true
      → is_empty (moved_deletions hashes (load_index_overrides source disk)) ≡ true
      → Carried source target hashes id disk disk
  unmoved_lem id u a b =
      let p = load_index_overrides source disk in
      let t = load_index_overrides target disk in
      let e =
        none_moved (λ (e : Edit). contains e.source_hash hashes) id p.edits (ground (arith, u)) a in
      let d =
        none_moved (λ (d : Deletion). contains d.source_hash hashes) id p.deletions
          (ground (arith, u)) b in
      record {
        edits_there = ap (λ o. first_of o (lookup id t.edits)) (sym e);
        edits_here =
            sym (all_left (λ (e : Edit). contains e.source_hash hashes) (lookup id p.edits) e);
        deletions_there = ap (λ o. first_of o (lookup id t.deletions)) (sym d);
        deletions_here =
            sym (
              all_left (λ (d : Deletion). contains d.source_hash hashes) (lookup id p.deletions) d);
      }

  -- `move_overrides_for_sources` between two directories carries exactly the overrides of the given documents:
  -- under every id that is not empty, the target has the edit and the deletion of the source when they are of
  -- those documents, and what it had otherwise, and the source keeps what is not of those documents. No
  -- id stands twice in the payloads.
  pub move_overrides_for_sources-Carried :
      (id : String)
      → (source == target) ≡ false
      → (id == "") ≡ false
      → unique (load_index_overrides source disk) ≡ true
      → unique (load_index_overrides target disk) ≡ true
      → Carried source target hashes id disk
          (move_overrides_for_sources source target hashes disk).1
  unfolding move_overrides_for_sources
  move_overrides_for_sources-Carried id n i u w =
      elim (Bool-cases (
        if is_empty (moved_edits hashes (load_index_overrides source disk))
        then is_empty (moved_deletions hashes (load_index_overrides source disk))
        else false)) [
          | inl t ↦ rw t (unmoved_lem id u (ground (arith, t)) (ground (arith, t)))
          | inr t ↦ rw t (moved_lem id n i u w)
        ]
