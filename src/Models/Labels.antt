-- ===== src/Models/Labels.antt =====
-- ImageNetProcessor.hpp: `handle_results` and the scores.
use lumen_engine.Prelude.{
  ℕ, suc, ◌+◌, ◌<◌, ◌≡◌, ◌⊎◌, inl, inr, refl, sym, ap, ◌∙◌, subst, Bool, true, false, Bool-cases,
  List, [], ◌∷◌, arith, if◌then◌else◌, if_elim, ltb, length, get_or,
}
use lumen_engine.Core.Types.{Text}
use lumen_engine.Models.ImageNet.{max_element, handle_results, unknown}

module _ {F : Type 0} (less : F → F → Bool) where
  abbrev pub NoneAbove : F → List F → Type 0
  NoneAbove m [] = Unit
  NoneAbove m (x ∷ xs) = (less m x ≡ false) × NoneAbove m xs

  -- The place and value so far, or those of an element of the rest.
  abbrev Found : (d best : F) (at i : ℕ) → List F → ℕ × F → Type 0
  Found d best at i xs r =
      ((r.0 ≡ at) × (r.1 ≡ best))
      ⊎ ((j : ℕ) × (r.0 ≡ i + j) × (j < length xs) × (get_or xs j d ≡ r.1))

  take_it :
      (d best x : F) (at i : ℕ) (xs : List F) (r : ℕ × F)
      → Found d x i (i + 1) xs r
      → Found d best at i (x ∷ xs) r
  take_it d best x at i xs r (inl (a, b)) = inr (0, omega arith, omega arith, sym b)
  take_it d best x at i xs r (inr (j, a, inside, g)) = inr (suc j, omega arith, omega arith, g)

  leave_it :
      (d best x : F) (at i : ℕ) (xs : List F) (r : ℕ × F)
      → Found d best at (i + 1) xs r
      → Found d best at i (x ∷ xs) r
  leave_it d best x at i xs r (inl same) = inl same
  leave_it d best x at i xs r (inr (j, a, inside, g)) = inr (suc j, omega arith, omega arith, g)

  max_element-Found :
      (d best : F) (at i : ℕ) (xs : List F) → Found d best at i xs (max_element less best at i xs)
  unfolding max_element
  max_element-Found d best at i [] = inl (refl, refl)
  max_element-Found d best at i (x ∷ xs) =
      if_elim (Found d best at i (x ∷ xs)) (less best x)
        (λ _. take_it d best x at i xs _ (max_element-Found d x i (i + 1) xs))
        (λ _. leave_it d best x at i xs _ (max_element-Found d best at (i + 1) xs))

  module _ (less_irrefl : (a : F) → less a a ≡ false)
      (less_trans : (a b c : F) → less a b ≡ true → less b c ≡ true → less a c ≡ true) where
    abbrev Above : F → F → Type 0
    Above best m = (m ≡ best) ⊎ (less best m ≡ true)

    never : {b : Bool} → b ≡ true → b ≡ false → ⊥
    never e e' = ground arith

    -- What an element at least as large as `b` is not below.
    not_below : (b x m : F) → less b x ≡ false → Above b m → less m x ≡ false
    not_below b x m h (inl e) = ap (λ z. less z x) e ∙ h
    not_below b x m h (inr e) = elim (Bool-cases (less m x)) [
      | inl e' ↦ absurd (never (less_trans b m x e e') h)
      | inr e' ↦ e'
    ]

    raised : (best x m : F) → less best x ≡ true → Above x m → Above best m
    raised best x m h (inl e) = inr (ap (λ z. less best z) e ∙ h)
    raised best x m h (inr e) = inr (less_trans best x m h e)

    max_element-NoneAbove :
        (best : F) (at i : ℕ) (xs : List F)
        → let m = (max_element less best at i xs).1 in Above best m × NoneAbove m xs
    unfolding max_element
    max_element-NoneAbove best at i [] = (inl refl, tt)
    max_element-NoneAbove best at i (x ∷ xs) =
        if_elim (λ (r : ℕ × F). Above best r.1 × NoneAbove r.1 (x ∷ xs)) (less best x)
          (λ up.
            let (a, rest) = max_element-NoneAbove x i (i + 1) xs in
            (raised best x _ up a, (not_below x x _ (less_irrefl x) a, rest)))
          (λ keep.
            let (a, rest) = max_element-NoneAbove best at (i + 1) xs in
            (a, (not_below best x _ keep a, rest)))

    -- For a strict order on the scores, the class that `handle_results` names is one of the
    -- scores', and no score is larger than its own; the answer is its label, or `Unknown` where
    -- there are fewer labels.
    pub handle_results_lem :
        (labels : List Text) (x : F) (xs : List F)
        → (class_id : ℕ) × (class_id < length (x ∷ xs))
          × NoneAbove (get_or (x ∷ xs) class_id x) (x ∷ xs)
          × (handle_results less labels (x ∷ xs)
              ≡ (if ltb class_id (length labels) then get_or labels class_id [] else unknown))
    unfolding handle_results
    handle_results_lem labels x xs = go (max_element-Found x x 0 1 xs)
      where
        r : ℕ × F
        r = max_element less x 0 1 xs

        above : NoneAbove r.1 (x ∷ xs)
        above =
            let (a, rest) = max_element-NoneAbove x 0 1 xs in
            (not_below x x r.1 (less_irrefl x) a, rest)

        go :
            Found x x 0 1 xs r
            → (class_id : ℕ) × (class_id < length (x ∷ xs))
              × NoneAbove (get_or (x ∷ xs) class_id x) (x ∷ xs)
              × ((if ltb r.0 (length labels) then get_or labels r.0 [] else unknown)
                  ≡ (if ltb class_id (length labels) then get_or labels class_id [] else unknown))
        go (inl (a, b)) = (
          0,
          omega arith,
          subst (λ m. NoneAbove m (x ∷ xs)) b above,
          ap (λ c. if ltb c (length labels) then get_or labels c [] else unknown) a,
        )
        go (inr (j, a, inside, g)) = (
          suc j,
          omega arith,
          subst (λ m. NoneAbove m (x ∷ xs)) (sym g) above,
          ap (λ c. if ltb c (length labels) then get_or labels c [] else unknown)
              (a ∙ (omega arith)),
        )
