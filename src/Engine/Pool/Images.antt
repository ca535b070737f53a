-- ===== src/Engine/Pool/Images.antt =====
-- src/ThreadPool.cpp: the tasks that carry the image processors, and lists of them.
use lumen_engine.Prelude.{
  ℕ, zero, suc, ◌≡◌, refl, ap, some, List, [], ◌∷◌, ◌++◌, map, arith, length, take, drop, min,
}
use lumen_engine.Core.Types.{Text, InferenceTask, imagenet_pre, imagenet_post}
use lumen_engine.Engine.Run.{Durations}

-- A task that carries the image processors.
abbrev pub IsImage : List Text → InferenceTask → Type 0
IsImage labels task = (task.pre ≡ some imagenet_pre) × (task.post ≡ some (imagenet_post labels))

abbrev pub AllImages : List Text → List InferenceTask → Type 0
AllImages labels [] = Unit
AllImages labels (task ∷ tasks) = IsImage labels task × AllImages labels tasks

abbrev pub task_of : ℕ × Durations × InferenceTask → InferenceTask
task_of (now, times, task) = task

module _ (labels : List Text) where
  pub AllImages-append :
      (xs ys : List InferenceTask)
      → AllImages labels xs
      → AllImages labels ys
      → AllImages labels (xs ++ ys)
  AllImages-append [] ys h k = k
  AllImages-append (x ∷ xs) ys h k = (h.0, AllImages-append xs ys h.1 k)

  pub AllImages-take :
      (n : ℕ) (xs : List InferenceTask) → AllImages labels xs → AllImages labels (take n xs)
  AllImages-take zero xs h = tt
  AllImages-take (suc n) [] h = tt
  AllImages-take (suc n) (x ∷ xs) h = (h.0, AllImages-take n xs h.1)

  pub AllImages-drop :
      (n : ℕ) (xs : List InferenceTask) → AllImages labels xs → AllImages labels (drop n xs)
  AllImages-drop zero xs h = h
  AllImages-drop (suc n) [] h = tt
  AllImages-drop (suc n) (x ∷ xs) h = AllImages-drop n xs h.1

pub map-append :
    {A B : Type 0} (f : A → B) (xs ys : List A) → map f (xs ++ ys) ≡ map f xs ++ map f ys
map-append f [] ys = refl
map-append f (x ∷ xs) ys = ap (λ l. f x ∷ l) (map-append f xs ys)

pub take_none : {A : Type 0} (n : ℕ) (xs : List A) → min n (length xs) ≡ 0 → take n xs ≡ []
take_none zero xs h = refl
take_none (suc n) [] h = refl
take_none (suc n) (x ∷ xs) h = absurd (omega arith)
