-- ===== src/Offload/Laws.antt =====
-- What the offload manager of hitbox/src/offload/manager.rs promises.
use text.Mathlib.TextEquality.{eq_iff}
use hitbox.Prelude.{
  ℕ, zero, suc, ◌≤◌, Bool, true, false, Bool-cases, not, none, some, List, [], ◌∷◌, if◌then◌else◌,
  length, leb, ◌≡◌, refl, ap, ◌∙◌, ◌↔◌, inl, inr, arith,
}
use hitbox.Offload.Tasks.{OffloadKey, cache, generated, same_key, find, remove, is_some}
use hitbox.Offload.{
  Runtime, OffloadManager, spawn_inner, is_duplicate, insert_handle, spawn_with_key, unfinished,
  active_task_count, total_task_count, cleanup_finished, wait_all,
}

nil_of : {A : Type 0} → (xs : List A) → leb (length xs) 0 ≡ true → xs ≡ []
nil_of [] h = refl
nil_of (x ∷ xs) h = absurd (ground (arith, h))

module _ {T F K : Type 0} (r : Runtime T F K) where
  unfinished-length :
      (ts : List (OffloadKey K × r.Handle)) (t : T) → length (unfinished r ts t) ≤ length ts
  unfinished-length [] t = omega arith
  unfinished-length ((key, handle) ∷ ts) t = ground (arith, unfinished-length ts t)

  unfinished_idem :
      (ts : List (OffloadKey K × r.Handle)) (t : T)
      → unfinished r (unfinished r ts t) t ≡ unfinished r ts t
  unfinished_idem [] t = refl
  unfinished_idem ((key, handle) ∷ ts) t = ground (arith, unfinished_idem ts t)

module _ {T F K : Type 0} {r : Runtime T F K} where
  -- The active tasks are no more than the tracked ones; a cleanup leaves as many tracked as were
  -- active, and as many active.
  pub cleanup_finished-counts :
      (m : OffloadManager r)
      → (active_task_count m ≤ total_task_count m)
        × (total_task_count (cleanup_finished m) ≡ active_task_count m)
        × (active_task_count (cleanup_finished m) ≡ active_task_count m)
  unfolding active_task_count total_task_count cleanup_finished
  cleanup_finished-counts m =
      (unfinished-length r m.tasks m.runtime, refl, ap length (unfinished_idem r m.tasks m.runtime))

  module _ (meanwhile : OffloadManager r → OffloadManager r) where
    -- The manager at the start of the n-th turn of `wait_all`.
    unfoldable pub turns : ℕ → OffloadManager r → OffloadManager r
    unfolding cleanup_finished
    turns zero m = m
    turns (suc n) m =
        let m' = cleanup_finished m in
        turns n (meanwhile (record m' { runtime = r.yield_now m'.runtime }))

    abbrev pub Returns : ℕ → OffloadManager r → Type 0
    Returns fuel m =
        (m' : OffloadManager r) × (wait_all meanwhile fuel m ≡ some m') × (m'.tasks ≡ [])

    now-Returns :
        (fuel : ℕ) (m : OffloadManager r)
        → leb (length (unfinished r m.tasks m.runtime)) 0 ≡ true
        → Returns (suc fuel) m
    unfolding wait_all cleanup_finished
    now-Returns fuel m e =
        let m' = cleanup_finished m in
        let later =
          wait_all meanwhile fuel (meanwhile (record m' { runtime = r.yield_now m'.runtime })) in
        (m', ap (λ b. if b then some m' else later) e, nil_of m'.tasks e)

    -- `wait_all` returns by its n-th turn beyond the first, if no task is active at that turn, and
    -- what it returns tracks no task. What other tasks do while it yields may be anything.
    pub wait_all-Returns :
        (n : ℕ) (m : OffloadManager r) → active_task_count (turns n m) ≡ 0 → Returns (suc n) m
    unfolding wait_all cleanup_finished turns active_task_count
    wait_all-Returns zero m idle = now-Returns zero m (ground (arith, idle))
    wait_all-Returns (suc n) m idle =
        elim (Bool-cases (leb (length (unfinished r m.tasks m.runtime)) 0)) [
          | inl e ↦ now-Returns (suc n) m e
          | inr e ↦
              (let m' = cleanup_finished m in
                let next = meanwhile (record m' { runtime = r.yield_now m'.runtime }) in
                let (out, returned, empty) = wait_all-Returns n next idle in
                (
                  out,
                  ap (λ b. if b then some m' else wait_all meanwhile (suc n) next) e ∙ returned,
                  empty,
                ))
        ]

module _ {K : Type 0} (same : K → K → Bool) (same_iff : (a b : K) → same a b ≡ true ↔ a ≡ b) where
  pub same_key_refl : (k : OffloadKey K) → same_key same k k ≡ true
  same_key_refl (cache k) = (same_iff k k).1 refl
  same_key_refl (generated kind id) = ground (arith, eq_iff kind kind)

  pub same_key-eq : (a b : OffloadKey K) → same_key same a b ≡ true → a ≡ b
  same_key-eq (cache k) (cache j) h = ap cache ((same_iff k j).0 h)
  same_key-eq (cache k) (generated kind id) h = absurd (ground (arith, h))
  same_key-eq (generated kind id) (cache k) h = absurd (ground (arith, h))
  same_key-eq (generated kind id) (generated kind' id') h =
      let e = (eq_iff kind kind').0 (ground (arith, h)) in
      let n : id ≡ id' = ground (arith, h) in λ i. generated (e i) (n i)

  -- Two keys that differ are not both equal to a third.
  apart :
      (c a b : OffloadKey K)
      → same_key same a b ≡ false
      → same_key same c a ≡ true
      → same_key same c b ≡ false
  apart c a b h e = ap (λ x. same_key same x b) (same_key-eq c a e) ∙ h

  module _ {H : Type 0} where
    pub find-remove :
        (key key' : OffloadKey K) (ts : List (OffloadKey K × H))
        → same_key same key key' ≡ false
        → find same key' (remove same key ts) ≡ find same key' ts
    find-remove key key' [] h = refl
    find-remove key key' ((k, handle) ∷ ts) h =
        ground (arith, find-remove key key' ts h, apart k key key' h)

    pub find-remove_self :
        (key : OffloadKey K) (ts : List (OffloadKey K × H))
        → find same key (remove same key ts) ≡ none
    find-remove_self key [] = refl
    find-remove_self key ((k, handle) ∷ ts) = ground (arith, find-remove_self key ts)

  module _ {T F : Type 0} {r : Runtime T F K} where
    -- A request to spawn a task under a key is turned down just if deduplication is on, the key is of
    -- the cache and the key is tracked. In both cases the key is tracked afterwards, and every other
    -- key has the handle that it had, or none.
    pub spawn_with_key-tracked :
        (key other : OffloadKey K) (task : F) (m : OffloadManager r)
        → same_key same key other ≡ false
        → ((spawn_with_key same key task m).0 ≡ not (is_duplicate same key m))
          × (is_some (find same key (spawn_with_key same key task m).1.tasks) ≡ true)
          × (find same other (spawn_with_key same key task m).1.tasks ≡ find same other m.tasks)
    unfolding spawn_with_key is_duplicate insert_handle spawn_inner
    spawn_with_key-tracked key other task m h =
        ground (arith, h, same_key_refl key, find-remove key other m.tasks h)
