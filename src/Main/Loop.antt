-- ===== src/Main/Loop.antt =====
-- The exit code of quuz-main.c, after the loop over the data of the input.
use quuz.Prelude.{ℕ, ◌≡◌, refl, Bool, true, false, List, [], ◌∷◌, if◌then◌else◌}
use quuz.Prelude.Text.{codes}
use quuz.Object.Tag.{is_none}
use quuz.Machine.Store.{State}
use quuz.Machine.Outcome.{M}
use quuz.Collector.{unref}
use quuz.Hash.{CityHash}
use quuz.Reader.Actions.{Action, read}
use quuz.Runtime.Post.{Post, then_Post, choose_Post}
use quuz.Writer.{CLibrary}
use quuz.Eval.{Cfun}
use quuz.Main.{Mode, process, print_to, main_loop}

-- A success leaves no error behind.
abbrev pub LeavesNoError : Bool → State → Type 0
LeavesNoError success after = success ≡ true → is_none after.error_obj ≡ true

-- The test is known in the first branch.
test_Post :
    {A : Type 0} {P : A → State → Type 0} (b : Bool) (m n : M A) (st : State)
    → (b ≡ true → Post P (m st))
    → Post P (n st)
    → Post P ((if b then m else n) st)
test_Post true m n st x y = x refl
test_Post false m n st x y = y

module _ ⦃city : CityHash⦄ (libc : CLibrary) (peval : Cfun) where
  -- Where the loop of main returns, it reports success only if no error object is left in the state.
  -- At its start there is none. It holds in all three modes, for any input, and whatever the evaluator
  -- does.
  pub main_loop-LeavesNoError :
      (mode : Mode) (n : ℕ) (input : List (List Action)) (st : State)
      → is_none st.error_obj ≡ true
      → Post LeavesNoError (main_loop libc peval mode n input st)
  unfolding main_loop
  main_loop-LeavesNoError mode n [] st none_left = record { ends = λ success. none_left }
  main_loop-LeavesNoError mode n (actions ∷ more) st none_left =
      then_Post (read actions st) _ (λ obj st1.
        choose_Post (is_none obj) _ _ st1 (record { ends = λ success. absurd (cc success) })
          (then_Post (process libc peval mode n obj st1) _ (λ u st2.
            then_Post (unref obj st2) _ (λ v st3.
              test_Post (is_none st3.error_obj) _ _ st3
                (λ clean. main_loop-LeavesNoError mode n more st3 clean)
                (then_Post
                  (print_to libc peval (λ st. st.error_port) (codes "An error occurred: %w\n") n
                    st3.error_obj st3)
                  _ (λ w st4. record { ends = λ success. absurd (cc success) }))))))
