-- ===== src/Caches/Bounds.antt =====
-- The size of a cache, over every sequence of calls of its methods.
use rag_pipeline_windows.Base.{
  ℕ, ◌≤◌, String, true, some, List, [], ◌∷◌, length, ◌≡◌, refl, ◌∙◌, arith, distinct,
}
use rag_pipeline_windows.Base.Dict.{insert, keys, distinct-remove, distinct-insert, length-insert}
use rag_pipeline_windows.Caches.{BoundedLru, init, get, set_item, pop, setdefault, clear}
use rag_pipeline_windows.Caches.Entries.{
  distinct-bump, length-bump, distinct-evict, length-evict, length-remove,
}

-- A call of a method.
pub data Call {ℓ} (V : Type ℓ) : Type ℓ where
  get_call : String → Call V
  set_call : String → V → Call V
  pop_call : String → Call V
  default_call : String → V → Call V
  clear_call : Call V

pub record IsValid {ℓ} {V : Type ℓ} (c : BoundedLru V) : Type 0 where
  pub positive : 1 ≤ c.maxsize
  pub within : length c.entries ≤ c.maxsize
  pub unique : distinct (keys c.entries) ≡ true

module _ {ℓ} {V : Type ℓ} where
  unfoldable pub perform : Call V → BoundedLru V → BoundedLru V
  perform (get_call k) c = (get k c).1
  perform (set_call k v) c = set_item k v c
  perform (pop_call k) c = (pop k c).1
  perform (default_call k d) c = (setdefault k d c).1
  perform clear_call c = clear c

  unfoldable pub perform_all : List (Call V) → BoundedLru V → BoundedLru V
  unfolding perform
  perform_all [] c = c
  perform_all (o ∷ os) c = perform_all os (perform o c)

  pub perform-IsValid : (o : Call V) (c : BoundedLru V) → IsValid c → IsValid (perform o c)
  unfolding perform get set_item pop setdefault clear
  perform-IsValid (get_call k) c h =
      ground (arith, distinct-bump k c.entries, length-bump k c.entries)
  perform-IsValid (set_call k v) c h = ground (
    arith,
    distinct-insert k v c.entries,
    length-insert k v c.entries,
    distinct-bump k (insert k v c.entries),
    length-bump k (insert k v c.entries),
    distinct-evict c.maxsize (insert k v c.entries),
    length-evict c.maxsize (insert k v c.entries),
  )
  perform-IsValid (pop_call k) c h =
      ground (arith, distinct-remove k c.entries, length-remove k c.entries)
  perform-IsValid (default_call k d) c h = ground (
    arith,
    distinct-insert k d c.entries,
    distinct-bump k c.entries,
    length-bump k c.entries,
    distinct-evict c.maxsize (insert k d c.entries),
    length-evict c.maxsize (insert k d c.entries),
  )
  perform-IsValid clear_call c h = ground arith

  pub perform_all-IsValid :
      (os : List (Call V)) (c : BoundedLru V) → IsValid c → IsValid (perform_all os c)
  unfolding perform_all
  perform_all-IsValid [] c h = h
  perform_all-IsValid (o ∷ os) c h = perform_all-IsValid os (perform o c) (perform-IsValid o c h)

  pub maxsize-perform : (o : Call V) (c : BoundedLru V) → (perform o c).maxsize ≡ c.maxsize
  unfolding perform get set_item pop setdefault clear
  maxsize-perform (get_call k) c = refl
  maxsize-perform (set_call k v) c = ground arith
  maxsize-perform (pop_call k) c = refl
  maxsize-perform (default_call k d) c = ground arith
  maxsize-perform clear_call c = refl

  pub maxsize-perform_all :
      (os : List (Call V)) (c : BoundedLru V) → (perform_all os c).maxsize ≡ c.maxsize
  unfolding perform_all
  maxsize-perform_all [] c = refl
  maxsize-perform_all (o ∷ os) c = maxsize-perform_all os (perform o c) ∙ maxsize-perform o c

  init-IsValid : (n : ℕ) (c : BoundedLru V) → init n ≡ some c → IsValid c × (c.maxsize ≡ n)
  unfolding init
  init-IsValid n c h = ground arith

  -- A new cache with a positive bound never holds more entries than that bound, and never one key
  -- twice, whatever sequence of calls is made on it.
  pub within_maxsize :
      (n : ℕ) (c : BoundedLru V) (os : List (Call V))
      → init n ≡ some c
      → (length (perform_all os c).entries ≤ n)
        × (distinct (keys (perform_all os c).entries) ≡ true)
  within_maxsize n c os h = ground (
    arith,
    init-IsValid n c h,
    perform_all-IsValid os c (init-IsValid n c h).0,
    maxsize-perform_all os c,
  )
