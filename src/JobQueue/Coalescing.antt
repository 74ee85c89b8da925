-- ===== src/JobQueue/Coalescing.antt =====
-- Equivalent active jobs share one entry: `_find_active_duplicate_locked` and `_enqueue`.
use rag_pipeline_windows.Base.{
  ◌==◌, String, Bool, true, false, ◌&&◌, Option, none, some, [], ◌∷◌, if◌then◌else◌, ◌≡◌, refl, sym,
  inl, inr, arith, eq_iff, distinct, Bool-cases, ◌∙◌, ap,
}
use rag_pipeline_windows.Base.Dict.{
  Dict, lookup, insert, keys, has-lookup, lookup-insert, distinct-insert,
}
use rag_pipeline_windows.Jobs.{QueueJob, is_active, is_upload}
use rag_pipeline_windows.JobQueue.State.{RagJobQueue}
use rag_pipeline_windows.JobQueue.History.Pruning.{lookup-prune_loop}
use rag_pipeline_windows.JobQueue.Enqueue.{
  IdentityPayload, identity_payload, job_identity, find_active, find_active_duplicate, enqueue,
}
use rag_pipeline_windows.JobQueue.Steps.{System, Reach, here, next}
use rag_pipeline_windows.JobQueue.Invariant.{Inv}
use rag_pipeline_windows.JobQueue.Preservation.{Reach-Inv}
use rag_pipeline_windows.JobQueue.Effects.{
  Effect, unchanged, assigned, pruned, entered, Moves, Step-Effect,
}

module _ (dumps : IdentityPayload → String) where
  pub find_active-none :
      (identity k : String) (m : Dict QueueJob) (i : QueueJob)
      → find_active dumps identity m ≡ none
      → lookup k m ≡ some i
      → is_active i ≡ true
      → (job_identity dumps i == identity) ≡ false
  unfolding find_active lookup
  find_active-none identity k [] i f e a = cc
  find_active-none identity k ((key, j) ∷ m) i f e a =
      ground (arith, find_active-none identity k m i)

  pub find_active-some :
      (identity : String) (m : Dict QueueJob) (d : QueueJob)
      → distinct (keys m) ≡ true
      → find_active dumps identity m ≡ some d
      → (k : String) × (lookup k m ≡ some d)
        × (is_active d ≡ true)
        × (job_identity dumps d ≡ identity)
  unfolding find_active lookup
  find_active-some identity [] d u f = cc
  find_active-some identity ((key, j) ∷ m) d u f =
      elim (Bool-cases (is_active j && job_identity dumps j == identity)) [
        | inl first ↦ (
          key,
          ground (arith, eq_iff key key),
          ground arith,
          ground (arith, eq_iff (job_identity dumps j) identity),
        )
        | inr later ↦
            (let (k, l, a, e) =
                find_active-some identity m d (ground arith) (ground (arith, later)) in
              (k, ground (arith, l, has-lookup k m, eq_iff key k), a, e))
      ]

  -- No two active jobs other than uploads do the same work.
  abbrev pub OneActive : Dict QueueJob → Type 0
  OneActive m =
      (a b : String) (i j : QueueJob)
      → lookup a m ≡ some i
      → lookup b m ≡ some j
      → is_active i ≡ true
      → is_active j ≡ true
      → is_upload i.kind ≡ false
      → is_upload j.kind ≡ false
      → job_identity dumps i ≡ job_identity dumps j
      → a ≡ b

  -- Each active job of the second table was there before, active, with the same work.
  abbrev Back : Dict QueueJob → Dict QueueJob → Type 0
  Back m n =
      (a : String) (i : QueueJob)
      → lookup a n ≡ some i
      → is_active i ≡ true
      → (o : QueueJob) × (lookup a m ≡ some o)
        × (is_active o ≡ true)
        × (identity_payload o ≡ identity_payload i)

  OneActive-Back : (m n : Dict QueueJob) → Back m n → OneActive m → OneActive n
  unfolding job_identity
  OneActive-Back m n back one a b i j p q ai aj up uq same =
      let (i₀, pi, ai₀, si) = back a i p ai in
      let (j₀, pj, aj₀, sj) = back b j q aj in
      one a b i₀ j₀ pi pj ai₀ aj₀ (kinds i₀ i si ∙ up) (kinds j₀ j sj ∙ uq)
        (ap dumps si ∙ same ∙ ap dumps (sym sj))
    where
      kinds :
          (o i : QueueJob)
          → identity_payload o ≡ identity_payload i
          → is_upload o.kind ≡ is_upload i.kind
      kinds o i e = unfold identity_payload in ap (λ (d : IdentityPayload). is_upload d.kind) e

  assigned-Back :
      (s : RagJobQueue) (m : Dict QueueJob) (id : String) (j k : QueueJob)
      → lookup id s.jobs ≡ some j
      → ((i : String) → lookup i m ≡ (if id == i then some k else lookup i s.jobs))
      → Moves j k
      → Back s.jobs m
  assigned-Back s m id j k n see moves a i p act = elim (Bool-cases (id == a)) [
    | inl e ↦ (
      j,
      ground (arith, e, n, eq_iff id a),
      ground (arith, e, see a, p, moves.no_revival, act),
      sym moves.same_work ∙ ap identity_payload (became e),
    )
    | inr e ↦ (i, ground (arith, e, see a, p), act, refl)
  ]
    where
      became : (id == a) ≡ true → k ≡ i
      became e = ground (arith, e, see a, p)

  entered-OneActive :
      (s : RagJobQueue) (j : QueueJob)
      → find_active_duplicate dumps j s ≡ none
      → OneActive s.jobs
      → OneActive (insert j.id j s.jobs)
  unfolding find_active_duplicate
  entered-OneActive s j f one a b p q ep eq ap' aq up uq same = elim (Bool-cases (j.id == a)) [
    | inl ea ↦ elim (Bool-cases (j.id == b)) [
      | inl eb ↦ ground (arith, ea, eb, eq_iff j.id a, eq_iff j.id b)
      | inr eb ↦ absurd (clash b p q (new a p ep ea) (old b q eq eb) aq up same)
    ]
    | inr ea ↦ elim (Bool-cases (j.id == b)) [
      | inl eb ↦ absurd (clash a q p (new b q eq eb) (old a p ep ea) ap' uq (sym same))
      | inr eb ↦ one a b p q (old a p ep ea) (old b q eq eb) ap' aq up uq same
    ]
  ]
    where
      new :
          (k : String) (i : QueueJob)
          → lookup k (insert j.id j s.jobs) ≡ some i
          → (j.id == k) ≡ true
          → j ≡ i
      new k i e same_id = ground (arith, e, same_id, lookup-insert j.id k j s.jobs)

      old :
          (k : String) (i : QueueJob)
          → lookup k (insert j.id j s.jobs) ≡ some i
          → (j.id == k) ≡ false
          → lookup k s.jobs ≡ some i
      old k i e other = ground (arith, e, other, lookup-insert j.id k j s.jobs)

      clash :
          (k : String) (n o : QueueJob)
          → j ≡ n
          → lookup k s.jobs ≡ some o
          → is_active o ≡ true
          → is_upload n.kind ≡ false
          → job_identity dumps n ≡ job_identity dumps o
          → ⊥
      clash k n o en eo ao un same_identity = ground (
        arith,
        en,
        un,
        f,
        find_active-none (job_identity dumps j) k s.jobs o,
        eo,
        ao,
        same_identity,
        ap (job_identity dumps) en,
        eq_iff (job_identity dumps o) (job_identity dumps j),
      )

  Effect-OneActive :
      (s : RagJobQueue) (m : Dict QueueJob) → Effect dumps s m → OneActive s.jobs → OneActive m
  Effect-OneActive s m (unchanged e) one = rw e one
  Effect-OneActive s m (assigned id j k n see moves) one =
      OneActive-Back s.jobs m (assigned-Back s m id j k n see moves) one
  Effect-OneActive s m (pruned l n u e) one = rw e (λ a b i j p q.
      one a b i j (lookup-prune_loop l n s.jobs a i u p) (lookup-prune_loop l n s.jobs b j u q))
  Effect-OneActive s m (entered l n j f u none_active e) one =
      let after : OneActive (insert j.id j s.jobs) = entered-OneActive s j none_active one in
      let u' = distinct-insert j.id j s.jobs u in
      rw e (λ a b i k p q.
        after a b i k (lookup-prune_loop l n (insert j.id j s.jobs) a i u' p)
          (lookup-prune_loop l n (insert j.id j s.jobs) b k u' q))

  pub Reach-OneActive :
      (x y : System) → Reach dumps x y → Inv x → OneActive x.shared.jobs → OneActive y.shared.jobs
  Reach-OneActive x y here h one = one
  Reach-OneActive x y (next {y = z} r st) h one =
      Effect-OneActive z.shared y.shared.jobs (Step-Effect dumps z y st (Reach-Inv dumps h r))
        (Reach-OneActive x z r h one)

  -- A request that is not an upload, and does the work of an active job, changes nothing: it gets an
  -- active job with the same identity.
  pub enqueue_coalesces :
      (written auto_start : Bool) (now k : String) (j i : QueueJob) (s : RagJobQueue)
      → is_upload j.kind ≡ false
      → lookup k s.jobs ≡ some i
      → is_active i ≡ true
      → job_identity dumps i ≡ job_identity dumps j
      → distinct (keys s.jobs) ≡ true
      → (d : QueueJob) × (enqueue dumps written auto_start now j s ≡ (d, s))
        × (is_active d ≡ true)
        × (job_identity dumps d ≡ job_identity dumps j)
        × ((key : String) × (lookup key s.jobs ≡ some d))
  unfolding enqueue
  enqueue_coalesces written auto_start now k j i s up n act same u =
      go (find_active dumps (job_identity dumps j) s.jobs) refl
    where
      shared :
          (d : QueueJob)
          → find_active dumps (job_identity dumps j) s.jobs ≡ some d
          → enqueue dumps written auto_start now j s ≡ (d, s)
      shared d e =
          let e' : find_active_duplicate dumps j s ≡ some d =
            unfold find_active_duplicate in rw up e in
          rw (e', enqueue)

      go :
          (o : Option QueueJob)
          → find_active dumps (job_identity dumps j) s.jobs ≡ o
          → (d : QueueJob) × (enqueue dumps written auto_start now j s ≡ (d, s))
            × (is_active d ≡ true)
            × (job_identity dumps d ≡ job_identity dumps j)
            × ((key : String) × (lookup key s.jobs ≡ some d))
      go none e = absurd (
          ground (
            arith,
            find_active-none (job_identity dumps j) k s.jobs i e n act,
            same,
            eq_iff (job_identity dumps i) (job_identity dumps j),
          ))
      go (some d) e =
          (let (key, l, a, w) = find_active-some (job_identity dumps j) s.jobs d u e in
            (d, shared d e, a, w, (key, l)))
