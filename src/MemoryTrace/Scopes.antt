-- ===== src/MemoryTrace/Scopes.antt =====
-- Checkpoints in the scopes of a program: the context that `operator new` finds on the stack is the
-- one of the innermost scope around it, also when exceptions leave the scopes.
use nvwa.Common.{
  ℕ, ◌+◌, ◌≤◌, ◌==◌, ltb, Bool, Bool-cases, inl, inr, true, false, List, [], ◌∷◌, Option,
  Option-cases, none, some, Result, ok, err, bad_alloc, ◌≡◌, refl, ap, sym, ◌∙◌, ◌⊎◌, arith,
}
use nvwa.Bits.Words.{add_size}
use nvwa.MemoryTrace.Defs.{
  Trace, Context, Message, same_text, get_current_context, save_context, restore_context,
  default_new_alignment, aligned_list_node_size, printed_if, enlist, place, or_throw, granted,
  alloc_mem, operator_new_in, operator_new,
}
use nvwa.MemoryTrace.Programs.{
  Program, skip, sequence, allocates, within, Aligned, Ended, forget, and_then, restored, leave,
  run, run_in,
}

same_text_self : (xs : List ℕ) → same_text xs xs ≡ true
unfolding same_text
same_text_self [] = refl
same_text_self (x ∷ xs) =
    let same : (x == x) ≡ true = ground arith in rw (same, same_text_self xs) refl

abbrev with_stack : List Context → Trace → Trace
with_stack stack t = record t { context_stack = stack }

abbrev on_stack {ℓ} : {A : Type ℓ} → List Context → A × Trace → A × Trace
on_stack stack (a, t) = (a, with_stack stack t)

restore_context-save_context :
    (ctx : Context) (t : Trace) (stack : List Context)
    → restore_context ctx (with_stack (ctx ∷ stack) t) ≡ ok (with_stack stack t)
unfolding restore_context
restore_context-save_context ctx t stack =
    rw (same_text_self ctx.file, same_text_self ctx.func) refl

module _ (stack : List Context) where
  printed_if-with_stack :
      (verbose : Bool) (message : Message) (t : Trace)
      → printed_if verbose message (with_stack stack t)
        ≡ with_stack stack (printed_if verbose message t)
  printed_if-with_stack true message t = refl
  printed_if-with_stack false message t = refl

  place-on_stack :
      (alloc_list size : ℕ) (ctx : Context) (is_array : Bool) (head : ℕ) (t : Trace)
      (answer : Option ℕ)
      → place alloc_list size ctx is_array head (with_stack stack t) answer
        ≡ on_stack stack (place alloc_list size ctx is_array head t answer)
  unfolding place enlist
  place-on_stack alloc_list size ctx is_array head t none = refl
  place-on_stack alloc_list size ctx is_array head t (some ptr) =
      let after = enlist alloc_list ptr size ctx is_array head t in
      ap (λ s. (ok (some (ptr + head)), s))
        (printed_if-with_stack after.new_verbose_flag
          (Message.allocated is_array (ptr + head) size (after.ctx ptr)) after)

  and_then-on_stack :
      (x : Ended) (next : Trace → Ended)
      → next (with_stack stack x.1) ≡ on_stack stack (next x.1)
      → and_then (on_stack stack x) next ≡ on_stack stack (and_then x next)
  and_then-on_stack (ok done, t) next same = same
  and_then-on_stack (err reason, t) next same = refl

  forget-or_throw-on_stack :
      (x : Result (Option ℕ) × Trace)
      → forget (or_throw (on_stack stack x)) ≡ on_stack stack (forget (or_throw x))
  forget-or_throw-on_stack (ok (some ptr), t) = refl
  forget-or_throw-on_stack (ok none, t) = refl
  forget-or_throw-on_stack (err reason, t) = refl

-- It is no assertion that ends the program.
abbrev pub Safe : Result (Unit {0}) → Type 0
Safe ended = (ended ≡ ok tt) ⊎ (ended ≡ err bad_alloc)

and_then-Safe :
    (x : Ended) (next : Trace → Ended) → Safe x.0 → Safe (next x.1).0 → Safe (and_then x next).0
and_then-Safe (ok done, t) next safe later = later
and_then-Safe (err reason, t) next safe later = safe

and_then-same : (x : Ended) (f g : Trace → Ended) → f x.1 ≡ g x.1 → and_then x f ≡ and_then x g
and_then-same (ok done, t) f g same = same
and_then-same (err reason, t) f g same = refl

leave-Safe :
    (ctx : Context) (stack : List Context) (ended : Result (Unit {0})) (t : Trace)
    → Safe ended
    → leave ctx (ended, with_stack (ctx ∷ stack) t) ≡ (ended, with_stack stack t)
leave-Safe ctx stack ended t safe = elim safe [
  | inl done ↦ rw done (
      ap (restored (ok tt) (with_stack (ctx ∷ stack) t)) (restore_context-save_context ctx t stack))
  | inr failed ↦ rw failed (
      ap (restored (err bad_alloc) (with_stack (ctx ∷ stack) t))
        (restore_context-save_context ctx t stack))
]

get_current_context-stack :
    (ctx : Context) (older : List Context) (t : Trace)
    → t.context_stack ≡ ctx ∷ older
    → get_current_context t ≡ ok ctx
unfolding get_current_context
get_current_context-stack ctx older t stack = rw stack refl

module _ (malloc : ℕ → Option ℕ) (aligned_malloc : ℕ → ℕ → Option ℕ) (alloc_list size : ℕ)
    (is_array : Bool) (alignment : ℕ) (ctx : Context) (t : Trace) where
  alloc_mem-on_stack :
      (stack : List Context)
      → alloc_mem malloc aligned_malloc alloc_list size ctx is_array alignment (with_stack stack t)
        ≡ on_stack stack (alloc_mem malloc aligned_malloc alloc_list size ctx is_array alignment t)
  unfolding alloc_mem
  alloc_mem-on_stack stack =
      let head = aligned_list_node_size alignment in
      elim (Bool-cases (ltb alignment default_new_alignment)) [
        | inl small ↦ rw (small, alloc_mem) refl
        | inr large ↦
            rw (large, alloc_mem)
              (place-on_stack stack alloc_list size ctx is_array head t
                (granted malloc aligned_malloc alloc_list (add_size size head) alignment))
      ]

  new_in : Ended
  new_in = forget (operator_new_in malloc aligned_malloc alloc_list size ctx is_array alignment t)

  new_in-Safe : default_new_alignment ≤ alignment → Safe new_in.0
  unfolding new_in operator_new_in alloc_mem place
  new_in-Safe wide =
      let head = aligned_list_node_size alignment in
      let large : ltb alignment default_new_alignment ≡ false = ground arith in
      elim (Option-cases
        (granted malloc aligned_malloc alloc_list (add_size size head) alignment)) [
          | inl none_left ↦ rw (large, alloc_mem, none_left) (inr refl)
          | inr (ptr, given) ↦ rw (large, alloc_mem, given) (inl refl)
        ]

module _ (alloc_list : ℕ) where
  run_in-on_stack :
      (p : Program) (ctx : Context) (stack : List Context) (t : Trace)
      → run_in alloc_list p ctx (with_stack stack t) ≡ on_stack stack (run_in alloc_list p ctx t)
  unfolding run_in operator_new_in
  run_in-on_stack skip ctx stack t = refl
  run_in-on_stack (sequence p q) ctx stack t =
      ap (λ x. and_then x (run_in alloc_list q ctx)) (run_in-on_stack p ctx stack t)
      ∙ and_then-on_stack stack (run_in alloc_list p ctx t) (run_in alloc_list q ctx)
          (run_in-on_stack q ctx stack (run_in alloc_list p ctx t).1)
  run_in-on_stack (allocates system size is_array alignment) ctx stack t =
      ap (λ x. forget (or_throw x))
        (alloc_mem-on_stack system.malloc system.aligned_malloc alloc_list size is_array alignment
          ctx t stack)
      ∙ forget-or_throw-on_stack stack
          (alloc_mem system.malloc system.aligned_malloc alloc_list size ctx is_array alignment t)
  run_in-on_stack (within inner p) ctx stack t = run_in-on_stack p inner stack t

  run_in-context_stack :
      (p : Program) (ctx : Context) (t : Trace)
      → (run_in alloc_list p ctx t).1.context_stack ≡ t.context_stack
  run_in-context_stack p ctx t =
      ap (λ x. x.1.context_stack) (run_in-on_stack p ctx t.context_stack t)

  run_in-Safe :
      (p : Program) → Aligned p → (ctx : Context) (t : Trace) → Safe (run_in alloc_list p ctx t).0
  unfolding run_in Aligned new_in
  run_in-Safe skip aligned ctx t = inl refl
  run_in-Safe (sequence p q) (left, right) ctx t =
      and_then-Safe (run_in alloc_list p ctx t) (run_in alloc_list q ctx) (run_in-Safe p left ctx t)
        (run_in-Safe q right ctx (run_in alloc_list p ctx t).1)
  run_in-Safe (allocates system size is_array alignment) wide ctx t =
      new_in-Safe system.malloc system.aligned_malloc alloc_list size is_array alignment ctx t wide
  run_in-Safe (within inner p) aligned ctx t = run_in-Safe p aligned inner t

  -- For a program of allocations and nested scopes with checkpoints, whose alignments are at
  -- least the default one, on a context stack that is not empty: whatever the system answers to
  -- each request, and whichever exceptions leave the scopes, the run with the context stack ends
  -- as the run in which each scope hands its context to what is in it, so that no assertion about
  -- the stack fails and the stack is at the end what it was.
  pub run-run_in :
      (p : Program) (t : Trace) (ctx : Context) (older : List Context)
      → Aligned p
      → t.context_stack ≡ ctx ∷ older
      → run alloc_list p t ≡ run_in alloc_list p ctx t
  unfolding run run_in Aligned operator_new
  run-run_in skip t ctx older aligned stack = refl
  run-run_in (sequence p q) t ctx older (left, right) stack =
      ap (λ x. and_then x (run alloc_list q)) (run-run_in p t ctx older left stack)
      ∙ and_then-same (run_in alloc_list p ctx t) (run alloc_list q) (run_in alloc_list q ctx) (
          run-run_in q (run_in alloc_list p ctx t).1 ctx older right
            (run_in-context_stack p ctx t ∙ stack))
  run-run_in (allocates system size is_array alignment) t ctx older wide stack =
      let current = get_current_context-stack ctx older t stack in
      ap forget (rw (current, operator_new) refl)
  run-run_in (within inner p) t ctx older aligned stack =
      let inside = run_in alloc_list p inner t in
      ap (leave inner) (
        run-run_in p (save_context inner t) inner t.context_stack aligned refl
        ∙ run_in-on_stack p inner (inner ∷ t.context_stack) t)
      ∙ leave-Safe inner t.context_stack inside.0 inside.1 (run_in-Safe p aligned inner t)
      ∙ ap (λ stk. (inside.0, with_stack stk inside.1)) (sym (run_in-context_stack p inner t))
