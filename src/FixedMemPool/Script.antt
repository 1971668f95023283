-- ===== src/FixedMemPool/Script.antt =====
-- A client of the pool: calls in sequence, and writes into the blocks that it holds.
use nvwa.Common.{
  ℕ, zero, suc, ◌==◌, if◌then◌else◌, false, List, [], ◌∷◌, ◌++◌, Option, none, some, Result, ok,
  ◌≡◌, refl, sym, ap, subst, arith, Option-cases, inl, inr, ◌>>=◌,
}
use nvwa.FixedMemPool.Defs.{Pool, store, bad_alloc_handler, allocate, deallocate}
use nvwa.FixedMemPool.Valid.{IsPool, Chain}
use nvwa.FixedMemPool.Refine.{allocate-empty, allocate-Takes, store-Leaves, deallocate-Leaves}

-- The client frees, or writes a word to the start of, the block that it holds at an index of its list,
-- the one that it got last being the first; with no such block it does nothing.
pub data Call : Type 0 where
  allocates : Call
  frees : ℕ → Call
  overwrites : ℕ → ℕ → Call

-- What comes before the member at an index, the member, and what comes after it.
abbrev pub split_at : ℕ → List ℕ → Option (List ℕ × ℕ × List ℕ)
split_at k [] = none
split_at zero (x ∷ xs) = some ([], x, xs)
split_at (suc k) (x ∷ xs) = elim (split_at k xs) [
  | none ↦ none
  | some (before, p, after) ↦ some (x ∷ before, p, after)
]

-- A call on the code: the address that it gives, if any, the blocks held and the pool after it.
unfoldable pub step : Call → Pool → List ℕ → Result (List ℕ × List ℕ × Pool)
step allocates pool held = do
  (ptr, pool') ← allocate bad_alloc_handler 1 pool
  ok (ptr ∷ [], (if ptr == 0 then held else ptr ∷ held), pool')
step (frees k) pool held = elim (split_at k held) [
  | none ↦ ok ([], held, pool)
  | some (before, p, after) ↦ do pool' ← deallocate p pool; ok ([], before ++ after, pool')
]
step (overwrites k value) pool held = elim (split_at k held) [
  | none ↦ ok ([], held, pool)
  | some (before, p, after) ↦ do pool' ← store p value pool; ok ([], held, pool')
]

unfoldable pub run : List Call → Pool → List ℕ → Result (List ℕ × List ℕ × Pool)
run [] pool held = ok ([], held, pool)
run (call ∷ calls) pool held = do
  (answer, held', pool') ← step call pool held
  (answers, held'', pool'') ← run calls pool' held'
  ok (answer ++ answers, held'', pool'')

-- The same call on a stack of free blocks: its answer, and the lists of free and held blocks.
unfoldable pub stack_step : Call → List ℕ → List ℕ → List ℕ × List ℕ × List ℕ
stack_step allocates [] held = (0 ∷ [], [], held)
stack_step allocates (p ∷ free) held = (p ∷ [], free, p ∷ held)
stack_step (frees k) free held = elim (split_at k held) [
  | none ↦ ([], free, held)
  | some (before, p, after) ↦ ([], p ∷ free, before ++ after)
]
stack_step (overwrites k value) free held = ([], free, held)

unfoldable pub stack_run : List Call → List ℕ → List ℕ → List ℕ × List ℕ × List ℕ
stack_run [] free held = ([], free, held)
stack_run (call ∷ calls) free held =
    let (answer, free', held') = stack_step call free held in
    let (answers, free'', held'') = stack_run calls free' held' in
    (answer ++ answers, free'', held'')

-- The code gives what the stack gives, and its pool is the stack's.
pub record Agrees (block_bytes n : ℕ) (result : Result (List ℕ × List ℕ × Pool))
    (answers free held : List ℕ) : Type 0 where
  pub after : Pool
  pub returns : result ≡ ok (answers, held, after)
  pub valid : IsPool block_bytes n after free held

-- What has been split is the list.
Parts : List ℕ → Option (List ℕ × ℕ × List ℕ) → Type 0
Parts xs none = Unit
Parts xs (some (before, p, after)) = xs ≡ before ++ p ∷ after

Parts-cons :
    (x : ℕ) (xs : List ℕ) (o : Option (List ℕ × ℕ × List ℕ))
    → Parts xs o
    → Parts
        (x ∷ xs)
        (elim o [ none ↦ none | some (before, p, after) ↦ some (x ∷ before, p, after) ])
unfolding Parts
Parts-cons x xs none parts = tt
Parts-cons x xs (some (before, p, after)) parts = ap (λ l. x ∷ l) parts

split_at-Parts : (k : ℕ) (xs : List ℕ) → Parts xs (split_at k xs)
unfolding Parts
split_at-Parts zero [] = tt
split_at-Parts (suc k) [] = tt
split_at-Parts zero (x ∷ xs) = refl
split_at-Parts (suc k) (x ∷ xs) = Parts-cons x xs (split_at k xs) (split_at-Parts k xs)

middle :
    (k : ℕ) (xs before : List ℕ) (p : ℕ) (after : List ℕ)
    → split_at k xs ≡ some (before, p, after)
    → xs ≡ before ++ p ∷ after
unfolding Parts
middle k xs before p after there = subst (Parts xs) there (split_at-Parts k xs)

step-Agrees :
    {block_bytes n : ℕ} (call : Call) {pool : Pool} (free held : List ℕ)
    → IsPool block_bytes n pool free held
    → Agrees block_bytes n
        (step call pool held)
        (stack_step call free held).0
        (stack_step call free held).1
        (stack_step call free held).2
unfolding step stack_step Chain
step-Agrees allocates {pool} [] held c = record {
  after = pool;
  returns = rw (allocate-empty 0 c) refl;
  valid = c;
}
step-Agrees allocates {pool} (p ∷ free) held c =
    let takes = allocate-Takes bad_alloc_handler 0 c in
    let (at, pos, _) = c.chain in
    let some_block : (p == 0) ≡ false = ground arith in
    record {
      after = takes.after;
      returns = rw (takes.returns, some_block) refl;
      valid = takes.valid;
    }
step-Agrees {block_bytes} {n} (frees k) {pool} free held c = elim (Option-cases (split_at k held)) [
  | inl none_there ↦
      rw (none_there, step, stack_step) (record { after = pool; returns = refl; valid = c })
  | inr ((before, p, after), there) ↦
      let leaves =
        deallocate-Leaves before p after
          (subst (IsPool block_bytes n pool free) (middle k held before p after there) c) in
      rw (there, step, stack_step)
        (record { after = leaves.after; returns = rw leaves.returns refl; valid = leaves.valid })
]
step-Agrees {block_bytes} {n} (overwrites k value) {pool} free held c =
    elim (Option-cases (split_at k held)) [
      | inl none_there ↦
          rw (none_there, step, stack_step) (record { after = pool; returns = refl; valid = c })
      | inr ((before, p, after), there) ↦
          let is_middle = middle k held before p after there in
          let leaves =
            store-Leaves before p after value
              (subst (IsPool block_bytes n pool free) is_middle c) in
          rw (there, step, stack_step)
            (record {
              after = leaves.after;
              returns = rw leaves.returns refl;
              valid = subst (IsPool block_bytes n leaves.after free) (sym is_middle) leaves.valid;
            })
    ]

-- On a pool in order, no sequence of calls of allocate with the default handler, of deallocate of
-- blocks that the client holds, and of writes of the word at the start of those blocks tells the
-- pool from a stack of free blocks: what allocate gives is the top of the stack, or null when it is
-- empty, and the pool is in order after each sequence, its blocks those of the chunk, each free or
-- held and none twice.
pub run-Agrees :
    {block_bytes n : ℕ} (calls : List Call) {pool : Pool} (free held : List ℕ)
    → IsPool block_bytes n pool free held
    → Agrees block_bytes n
        (run calls pool held)
        (stack_run calls free held).0
        (stack_run calls free held).1
        (stack_run calls free held).2
unfolding run stack_run
run-Agrees [] {pool} free held c = record { after = pool; returns = refl; valid = c }
run-Agrees (call ∷ calls) {pool} free held c =
    let one = step-Agrees call free held c in
    let rest =
      run-Agrees calls (stack_step call free held).1 (stack_step call free held).2 one.valid in
    record { after = rest.after; returns = rw (one.returns, rest.returns) refl; valid = rest.valid }
