-- ===== src/Lint/Nesting/Preprocessor.antt =====
-- `UpdatePreprocessor` of tools/cpplint.py over regions of code whose #if and #endif match.
use optimer.Prelude.{List, [], false, refl, true, ◌∷◌, ◌≡◌}
use optimer.Lint.Nesting.{
  BlockInfo, NestingState, PreprocessorInfo, apply_directive, else_directive, endif_directive,
  if_directive,
}

-- A region: lines without a directive, which change the stack in any way, and conditionals, with a
-- first branch and the branches of #else and #elif.
mutual
  pub data Region : Type 0 where
    change : (List BlockInfo → List BlockInfo) → Region
    then_region : Region → Region → Region
    conditional : Region → Branches → Region

  pub data Branches : Type 0 where
    no_branch : Branches
    branch : Region → Branches → Branches

-- the state after the lines of a region
unfoldable mutual
  pub run_region : Region → NestingState → NestingState
  run_region (change f) s = record s { stack = f s.stack }
  run_region (then_region r q) s = run_region q (run_region r s)
  run_region (conditional r bs) s =
      apply_directive endif_directive
        (run_branches bs (run_region r (apply_directive if_directive s)))

  pub run_branches : Branches → NestingState → NestingState
  run_branches no_branch s = s
  run_branches (branch r bs) s = run_branches bs (run_region r (apply_directive else_directive s))

-- what the first branches alone do to the stack
unfoldable pub first_branches : Region → List BlockInfo → List BlockInfo
first_branches (change f) stack = f stack
first_branches (then_region r q) stack = first_branches q (first_branches r stack)
first_branches (conditional r bs) stack = first_branches r stack

abbrev state : List BlockInfo → List PreprocessorInfo → NestingState
state stack pp = record { stack = stack; pp_stack = pp }

-- a checkpoint at which #else has been seen
abbrev seen : List BlockInfo → List BlockInfo → PreprocessorInfo
seen before_if before_else = record {
  stack_before_if = before_if;
  stack_before_else = before_else;
  seen_else = true;
}

abbrev unseen : List BlockInfo → PreprocessorInfo
unseen before_if = record { stack_before_if = before_if; stack_before_else = []; seen_else = false }

module _ (stack before_if before_else : List BlockInfo) (pp : List PreprocessorInfo) where
  at_if : apply_directive if_directive (state stack pp) ≡ state stack (unseen stack ∷ pp)
  unfolding apply_directive
  at_if = refl

  at_first_else :
      apply_directive else_directive (state stack (unseen before_if ∷ pp))
      ≡ state before_if (seen before_if stack ∷ pp)
  unfolding apply_directive
  at_first_else = refl

  at_later_else :
      apply_directive else_directive (state stack (seen before_if before_else ∷ pp))
      ≡ state before_if (seen before_if before_else ∷ pp)
  unfolding apply_directive
  at_later_else = refl

  at_endif :
      apply_directive endif_directive (state stack (seen before_if before_else ∷ pp))
      ≡ state before_else pp
  unfolding apply_directive
  at_endif = refl

  at_only_endif :
      apply_directive endif_directive (state stack (unseen before_if ∷ pp)) ≡ state stack pp
  unfolding apply_directive
  at_only_endif = refl

mutual
  unfolding run_region first_branches

  run_region_lem :
      (r : Region) (stack : List BlockInfo) (pp : List PreprocessorInfo)
      → run_region r (state stack pp) ≡ state (first_branches r stack) pp
  run_region_lem (change f) stack pp = refl
  run_region_lem (then_region r q) stack pp =
      rw (run_region_lem r stack pp) (run_region_lem q (first_branches r stack) pp)
  run_region_lem (conditional r no_branch) stack pp =
      let kept = first_branches r stack in
      rw (
        at_if stack [] [] pp,
        run_region_lem r stack (unseen stack ∷ pp),
        at_only_endif kept stack [] pp,
      )
  run_region_lem (conditional r (branch q bs)) stack pp =
      let kept = first_branches r stack in
      rw
        (
          at_if stack [] [] pp,
          run_region_lem r stack (unseen stack ∷ pp),
          at_first_else kept stack [] pp,
          run_region_lem q stack (seen stack kept ∷ pp),
        )
        (run_branches_lem bs (first_branches q stack) stack kept pp)

  run_branches_lem :
      (bs : Branches) (stack before_if before_else : List BlockInfo) (pp : List PreprocessorInfo)
      → apply_directive endif_directive
          (run_branches bs (state stack (seen before_if before_else ∷ pp)))
        ≡ state before_else pp
  run_branches_lem no_branch stack before_if before_else pp =
      at_endif stack before_if before_else pp
  run_branches_lem (branch q bs) stack before_if before_else pp =
      rw
        (
          at_later_else stack before_if before_else pp,
          run_region_lem q before_if (seen before_if before_else ∷ pp),
        )
        (run_branches_lem bs (first_branches q before_if) before_if before_else pp)

-- Behind a region whose conditionals are closed, the stack of blocks is what the first branches of
-- the conditionals alone make of it, whatever the branches of #else and #elif do, and the stack of
-- checkpoints is as it was.
pub run_region-first_branches :
    (r : Region) (s : NestingState) → run_region r s ≡ record s { stack = first_branches r s.stack }
run_region-first_branches r s = run_region_lem r s.stack s.pp_stack
