-- ===== src/Models/ImageNet.antt =====
-- include/lumen/models/ImageNetProcessor.hpp: a picture to a tensor, and scores to a label. A
-- `float` is an element of a type with the operations that the code uses.
use lumen_engine.Prelude.{
  ℕ, zero, suc, ◌+◌, Bool, Option, none, some, List, [], ◌∷◌, if◌then◌else◌, ltb, length, get_or,
  set, add_size, mul_size,
}
use lumen_engine.Core.Types.{Text}

module _ {F : Type 0} (normalise : (c pixel : ℕ) → F) (pixels : List ℕ) where
  -- `tensor_buffer[dst_idx] = ((val / 255.0f) - mean[c]) / std[c]`; `normalise c` is that formula.
  unfoldable pub write_channel : (area place c : ℕ) → List F → List F
  write_channel area place c tensor =
      let src_idx = add_size (mul_size place 3) c in
      let dst_idx = add_size (mul_size c area) place in
      set tensor dst_idx (normalise c (get_or pixels src_idx 0))

  unfoldable pub channel_loop : (rounds c area place : ℕ) → List F → List F
  channel_loop zero c area place tensor = tensor
  channel_loop (suc rounds) c area place tensor =
      channel_loop rounds (c + 1) area place (write_channel area place c tensor)

  unfoldable pub row_loop : (rounds x y area width : ℕ) → List F → List F
  row_loop zero x y area width tensor = tensor
  row_loop (suc rounds) x y area width tensor =
      row_loop rounds (x + 1) y area width
        (channel_loop 3 0 area (add_size (mul_size y width) x) tensor)

  unfoldable pub picture_loop : (rounds y area width : ℕ) → List F → List F
  picture_loop zero y area width tensor = tensor
  picture_loop (suc rounds) y area width tensor =
      picture_loop rounds (y + 1) area width (row_loop width 0 y area width tensor)

  unfoldable pub transform : (width height : ℕ) → List F → List F
  transform width height tensor = picture_loop height 0 (mul_size width height) width tensor

-- `std::max_element`: the place of the first element that no other exceeds. `best` is its value.
unfoldable pub max_element : {F : Type 0} → (F → F → Bool) → (best : F) (at i : ℕ) → List F → ℕ × F
max_element less best at i [] = (at, best)
max_element less best at i (x ∷ xs) =
    if less best x then max_element less x i (i + 1) xs else max_element less best at (i + 1) xs

abbrev pub unknown : Text
unknown = 85 ∷ 110 ∷ 107 ∷ 110 ∷ 111 ∷ 119 ∷ 110 ∷ []

-- "Error: Empty or Invalid Tensor"
abbrev pub empty_tensor : Text
empty_tensor =
    69 ∷ 114 ∷ 114 ∷ 111 ∷ 114 ∷ 58 ∷ 32 ∷ 69 ∷ 109 ∷ 112 ∷ 116 ∷ 121 ∷ 32 ∷ 111 ∷ 114 ∷ 32 ∷ 73
    ∷ 110 ∷ 118 ∷ 97 ∷ 108 ∷ 105 ∷ 100 ∷ 32 ∷ 84 ∷ 101 ∷ 110 ∷ 115 ∷ 111 ∷ 114 ∷ []

-- The constructor keeps the lines of the labels file that are not empty; `none` is a missing file.
unfoldable pub read_labels : Option (List Text) → List Text
read_labels none = []
read_labels (some []) = []
read_labels (some ([] ∷ lines)) = read_labels (some lines)
read_labels (some ((b ∷ bs) ∷ lines)) = (b ∷ bs) ∷ read_labels (some lines)

-- The label; the confidence is only printed.
unfoldable pub handle_results : {F : Type 0} → (F → F → Bool) → List Text → List F → Text
unfolding max_element
handle_results less labels [] = empty_tensor
handle_results less labels (x ∷ xs) =
    let class_id = (max_element less x 0 1 xs).0 in
    if ltb class_id (length labels) then get_or labels class_id [] else unknown
