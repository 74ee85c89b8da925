-- ===== src/Citations/Labels.antt =====
-- Labels are given once and kept.
use rag_pipeline_windows.Base.{
  ℕ, zero, suc, ◌+◌, String, some, List, [], ◌∷◌, ◌++◌, length, ◌≡◌, refl, ap, arith, eq_iff, inl,
  inr, Option-cases,
}
use rag_pipeline_windows.Base.Dict.{lookup, lookup-insert}
use rag_pipeline_windows.Citations.{
  Cited, Source, Shelf, CitationRegistry, new_registry, next_source, preview, add, preview_local,
  preview_web, add_local, add_web,
}

pub data Call : Type 0 where
  cite_local : Cited → Call
  cite_web : Cited → Call

-- The registry after calls of `add_local` and `add_web`.
unfoldable pub after : List Call → CitationRegistry → CitationRegistry
unfolding add_local add_web
after [] c = c
after (cite_local r ∷ calls) c = after calls (add_local r c).1
after (cite_web r ∷ calls) c = after calls (add_web r c).1

abbrev pub numbers : List Source → List ℕ
numbers [] = []
numbers (x ∷ xs) = x.number ∷ numbers xs

-- The numbers from `n + 1` on, so many of them.
abbrev pub count_from : ℕ → ℕ → List ℕ
count_from n zero = []
count_from n (suc m) = suc n ∷ count_from (suc n) m

numbers-append :
    (xs : List Source) (x : Source) (n : ℕ)
    → numbers xs ≡ count_from n (length xs)
    → x.number ≡ n + length xs + 1
    → numbers (xs ++ x ∷ []) ≡ count_from n (length (xs ++ x ∷ []))
numbers-append [] x n h e = ground (arith, e)
numbers-append (y ∷ xs) x n h e = ground (arith, h, e, numbers-append xs x (suc n))

keeps_numbers :
    (r : Cited) (shelf : Shelf)
    → numbers shelf.sources ≡ count_from 0 (length shelf.sources)
    → numbers (add r shelf).1.sources ≡ count_from 0 (length (add r shelf).1.sources)
unfolding add
keeps_numbers r shelf h = elim (Option-cases (lookup r.key shelf.by_key)) [
  | inl n ↦ rw (n, add) (numbers-append shelf.sources (next_source r shelf) 0 h (omega arith))
  | inr (x, n) ↦ rw (n, add) h
]

keeps_source :
    (r : Cited) (shelf : Shelf) (k : String) (x : Source)
    → lookup k shelf.by_key ≡ some x
    → lookup k (add r shelf).1.by_key ≡ some x
unfolding add
keeps_source r shelf k x h = elim (Option-cases (lookup r.key shelf.by_key)) [
  | inl n ↦
      rw (n, add)
        (ground
          (arith, n, h, lookup-insert r.key k (next_source r shelf) shelf.by_key, eq_iff r.key k))
  | inr (y, n) ↦ rw (n, add) h
]

added_lem : (r : Cited) (shelf : Shelf) → lookup r.key (add r shelf).1.by_key ≡ some (add r shelf).0
unfolding add
added_lem r shelf = elim (Option-cases (lookup r.key shelf.by_key)) [
  | inl n ↦
      rw (n, add)
        (ground
          (arith, lookup-insert r.key r.key (next_source r shelf) shelf.by_key, eq_iff r.key r.key))
  | inr (y, n) ↦ rw (n, add) n
]

preview-add : (r : Cited) (shelf : Shelf) → preview r shelf ≡ (add r shelf).0
unfolding preview add
preview-add r shelf = elim (Option-cases (lookup r.key shelf.by_key)) [
  | inl n ↦ rw (n, preview, add) refl
  | inr (y, n) ↦ rw (n, preview, add) refl
]

found_lem :
    (r : Cited) (shelf : Shelf) (x : Source)
    → lookup r.key shelf.by_key ≡ some x
    → add r shelf ≡ (x, shelf)
unfolding add
found_lem r shelf x n = rw (n, add) refl

local_kept :
    (calls : List Call) (c : CitationRegistry) (k : String) (x : Source)
    → lookup k c.local.by_key ≡ some x
    → lookup k (after calls c).local.by_key ≡ some x
unfolding after add_local add_web
local_kept [] c k x h = h
local_kept (cite_local r ∷ calls) c k x h = local_kept calls _ k x (keeps_source r c.local k x h)
local_kept (cite_web r ∷ calls) c k x h = local_kept calls _ k x h

web_kept :
    (calls : List Call) (c : CitationRegistry) (k : String) (x : Source)
    → lookup k c.web.by_key ≡ some x
    → lookup k (after calls c).web.by_key ≡ some x
unfolding after add_local add_web
web_kept [] c k x h = h
web_kept (cite_web r ∷ calls) c k x h = web_kept calls _ k x (keeps_source r c.web k x h)
web_kept (cite_local r ∷ calls) c k x h = web_kept calls _ k x h

abbrev pub Numbered : CitationRegistry → Type 0
Numbered c =
    (numbers c.local.sources ≡ count_from 0 (length c.local.sources))
    × (numbers c.web.sources ≡ count_from 0 (length c.web.sources))

after-Numbered : (calls : List Call) (c : CitationRegistry) → Numbered c → Numbered (after calls c)
unfolding after add_local add_web
after-Numbered [] c h = h
after-Numbered (cite_local r ∷ calls) c (l, v) =
    after-Numbered calls _ (keeps_numbers r c.local l, v)
after-Numbered (cite_web r ∷ calls) c (l, v) = after-Numbered calls _ (l, keeps_numbers r c.web v)

-- From a new registry, the local sources are numbered 1, 2, 3 in the order in which they were cited, and so are the web
-- sources, so that no label is given twice. A record that is cited keeps its label: whatever is cited before
-- and after, `preview_local` tells the source beforehand, and a later `add_local` of a record with the same id gives that
-- source and changes nothing. The same holds of web results and their urls.
pub labels_are_kept :
    (before later : List Call) (r q : Cited)
    → q.key ≡ r.key
    → let c = after before new_registry in
      let l = after later (add_local r c).1 in
      let v = after later (add_web r c).1 in
      Numbered l
      × Numbered v
      × (preview_local r c ≡ (add_local r c).0)
      × (add_local q l ≡ ((add_local r c).0, l))
      × (preview_web r c ≡ (add_web r c).0)
      × (add_web q v ≡ ((add_web r c).0, v))
unfolding add_local add_web
labels_are_kept before later r q e =
    let c = after before new_registry in
    let n = after-Numbered before new_registry (refl, refl) in
    let l = after later (add_local r c).1 in
    let v = after later (add_web r c).1 in
    let x = (add r c.local).0 in
    let y = (add r c.web).0 in
    let kept_l : lookup q.key l.local.by_key ≡ some x =
      rw e (local_kept later (add_local r c).1 r.key x (added_lem r c.local)) in
    let kept_v : lookup q.key v.web.by_key ≡ some y =
      rw e (web_kept later (add_web r c).1 r.key y (added_lem r c.web)) in
    (
      after-Numbered later (add_local r c).1 (keeps_numbers r c.local n.0, n.1),
      after-Numbered later (add_web r c).1 (n.0, keeps_numbers r c.web n.1),
      preview-add r c.local,
      ap (λ (a : Source × Shelf). (a.0, record l { local = a.1 })) (found_lem q l.local x kept_l),
      preview-add r c.web,
      ap (λ (a : Source × Shelf). (a.0, record v { web = a.1 })) (found_lem q v.web y kept_v),
    )
