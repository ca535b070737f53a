-- ===== src/Models/Tests.antt =====
-- The processors on a picture of two pixels and on three scores.
use lumen_engine.Prelude.{
  ℕ, ◌+◌, ◌*◌, ◌<◌, ◌≡◌, List, [], ◌∷◌, arith, if◌then◌else◌, ltb, length, get_or,
}
use lumen_engine.Core.Types.{Text}
use lumen_engine.Models.ImageNet.{transform, handle_results, unknown}
use lumen_engine.Models.Transform.{transform_lem}
use lumen_engine.Models.Labels.{NoneAbove, handle_results_lem}

abbrev picture : List ℕ
picture = 1 ∷ 2 ∷ 3 ∷ 4 ∷ 5 ∷ 6 ∷ []

abbrev empty : List ℕ
empty = 0 ∷ 0 ∷ 0 ∷ 0 ∷ 0 ∷ 0 ∷ []

transform_lem_example :
    get_or (transform (λ c pixel. 10 * c + pixel) picture 2 1 empty) (2 * (1 * 2) + 1) 0
    ≡ 10 * 2 + get_or picture (1 * 3 + 2) 0
transform_lem_example =
    transform_lem (λ c pixel. 10 * c + pixel) picture 0 2 1 empty (omega arith) (omega arith) 2 1
      (omega arith) (omega arith)

abbrev labels : List Text
labels = (97 ∷ []) ∷ (98 ∷ []) ∷ []

handle_results_lem_example :
    (class_id : ℕ) × (class_id < 3)
    × NoneAbove ltb (get_or (3 ∷ 8 ∷ 5 ∷ []) class_id 3) (3 ∷ 8 ∷ 5 ∷ [])
    × (handle_results ltb labels (3 ∷ 8 ∷ 5 ∷ [])
        ≡ (if ltb class_id (length labels) then get_or labels class_id [] else unknown))
handle_results_lem_example =
    handle_results_lem ltb (λ a. ground arith) (λ a b c. ground arith) labels 3 (8 ∷ 5 ∷ [])
