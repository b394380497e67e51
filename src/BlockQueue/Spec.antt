-- ===== src/BlockQueue/Spec.antt =====
-- What `block_queue` stands for: a list of at most `max` items, the one that is popped next first.
use c_language_learnning.Base.{
  ℕ, Option, none, some, Bool, true, false, List, [], ◌∷◌, ◌++◌, leb, if◌then◌else◌, length,
}

unfoldable pub push {ℓ} : {T : Type ℓ} → ℕ → T → List T → Bool × List T
push max item xs = if leb max (length xs) then (false, xs) else (true, xs ++ (item ∷ []))

unfoldable pub take_if {ℓ} : {T : Type ℓ} → List T → Option T × List T
take_if [] = (none, [])
take_if (x ∷ xs) = (some x, xs)

unfoldable pub pop {ℓ} : {T : Type ℓ} → List (Bool × List T) → List T → Option (Option T × List T)
pop [] [] = none
pop ((failed, ys) ∷ waits) [] = let more = pop waits ys in if failed then some (none, ys) else more
pop [] (x ∷ xs) = some (some x, xs)
pop (w ∷ waits) (x ∷ xs) = some (some x, xs)

unfoldable pub pop_timeout {ℓ} : {T : Type ℓ} → Bool × List T → List T → Option T × List T
pop_timeout (failed, ys) [] = if failed then (none, ys) else take_if ys
pop_timeout (failed, ys) (x ∷ xs) = (some x, xs)
