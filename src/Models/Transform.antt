-- ===== src/Models/Transform.antt =====
-- ImageNetProcessor.hpp: the loops of `transform`.
use lumen_engine.Prelude.{
  ℕ, zero, suc, ◌+◌, ◌*◌, ◌≤◌, ◌<◌, ◌≡◌, ◌≢◌, refl, sym, ap, ap₂, ◌∙◌, subst, List, [], ◌∷◌, arith,
  length, get_or, set, length-set, add_size, mul_size, word, dec_lt,
}
use native.Mathlib.Nat.{mul-le-mul_right}
use lumen_engine.Models.ImageNet.{write_channel, channel_loop, row_loop, picture_loop, transform}

-- Two cells of the tensor are the same only for the same colour and place.
apart :
    (area c d p q : ℕ)
    → c < 3
    → d < 3
    → p < area
    → q < area
    → c * area + p ≡ d * area + q
    → (c ≡ d) × (p ≡ q)
apart area zero zero p q hc hd hp hq e = (refl, omega arith)
apart area zero (suc zero) p q hc hd hp hq e = absurd (omega arith)
apart area zero (suc (suc zero)) p q hc hd hp hq e = absurd (omega arith)
apart area (suc zero) zero p q hc hd hp hq e = absurd (omega arith)
apart area (suc zero) (suc zero) p q hc hd hp hq e = (refl, omega arith)
apart area (suc zero) (suc (suc zero)) p q hc hd hp hq e = absurd (omega arith)
apart area (suc (suc zero)) zero p q hc hd hp hq e = absurd (omega arith)
apart area (suc (suc zero)) (suc zero) p q hc hd hp hq e = absurd (omega arith)
apart area (suc (suc zero)) (suc (suc zero)) p q hc hd hp hq e = (refl, omega arith)
apart area (suc (suc (suc c))) d p q hc hd hp hq e = absurd (omega arith)
apart area c (suc (suc (suc d))) p q hc hd hp hq e = absurd (omega arith)

in_tensor : (area c p : ℕ) → c < 3 → p < area → c * area + p < 3 * area
in_tensor area zero p hc hp = omega arith
in_tensor area (suc zero) p hc hp = omega arith
in_tensor area (suc (suc zero)) p hc hp = omega arith
in_tensor area (suc (suc (suc c))) p hc hp = absurd (omega arith)

row_end : (y width : ℕ) → suc y * width ≡ y * width + width
row_end y width = omega arith

next_row : (rounds y height : ℕ) → suc rounds + y ≡ height → suc y ≤ height
next_row rounds y height e = omega arith

in_picture : (width height x y : ℕ) → x < width → y < height → y * width + x < height * width
in_picture width height x y hx hy = omega (arith, mul-le-mul_right width hy, row_end y width)

get_or-set_self :
    {A : Type 0} (l : List A) (i : ℕ) (v d : A) → i < length l → get_or (set l i v) i d ≡ v
get_or-set_self [] i v d h = elim h [ ]
get_or-set_self (x ∷ l) zero v d h = refl
get_or-set_self (x ∷ l) (suc i) v d h = get_or-set_self l i v d (omega arith)

get_or-set_ne :
    {A : Type 0} (l : List A) (i j : ℕ) (v d : A) → i ≢ j → get_or (set l i v) j d ≡ get_or l j d
get_or-set_ne [] i j v d ne = refl
get_or-set_ne (x ∷ l) zero zero v d ne = absurd (ne refl)
get_or-set_ne (x ∷ l) zero (suc j) v d ne = refl
get_or-set_ne (x ∷ l) (suc i) zero v d ne = refl
get_or-set_ne (x ∷ l) (suc i) (suc j) v d ne = get_or-set_ne l i j v d (λ e. ne (ap suc e))

module _ {F : Type 0} (normalise : (c pixel : ℕ) → F) (pixels : List ℕ) (d : F) (area : ℕ) where
  -- The first `k` values of the picture, colour by colour of each place, are in their planes.
  record Done (k : ℕ) (tensor : List F) : Type 0 where
    room : 3 * area ≤ length tensor
    filled :
        (c p : ℕ)
        → c < 3
        → p < area
        → p * 3 + c < k
        → get_or tensor (c * area + p) d ≡ normalise c (get_or pixels (p * 3 + c) 0)

  write_channel-Done :
      (c p : ℕ) (tensor : List F)
      → 3 * area < word
      → c < 3
      → p < area
      → Done (p * 3 + c) tensor
      → Done (p * 3 + (c + 1)) (write_channel normalise pixels area p c tensor)
  unfolding write_channel
  write_channel-Done c p tensor small hc hp h =
      let src : add_size (mul_size p 3) c ≡ p * 3 + c = omega arith in
      let dst : add_size (mul_size c area) p ≡ c * area + p =
        omega (arith, in_tensor area c p hc hp) in
      rw src (
        rw dst (record {
          room = omega (
            arith,
            h.room,
            length-set tensor (c * area + p) (normalise c (get_or pixels (p * 3 + c) 0)),
          );
          filled = λ e q he hq lt. elim (dec_lt (q * 3 + e) (p * 3 + c)) [
            | yes before ↦
                get_or-set_ne tensor (c * area + p) (e * area + q) _ d
                  (λ same. absurd (let (a, b) = apart area c e p q hc he hp hq same in omega arith))
                ∙ h.filled e q he hq before
            | no now ↦
                let which : (c ≡ e) × (p ≡ q) = (omega arith, omega arith) in
                ap₂
                  (λ e q.
                    get_or (set tensor (c * area + p) (normalise c (get_or pixels (p * 3 + c) 0)))
                      (e * area + q) d)
                  (sym which.0) (sym which.1)
                ∙ get_or-set_self tensor (c * area + p) _ d
                    (omega (arith, h.room, in_tensor area c p hc hp))
                ∙ ap₂ (λ e q. normalise e (get_or pixels (q * 3 + e) 0)) which.0 which.1
          ];
        }))

  channel_loop-Done :
      (rounds c p : ℕ) (tensor : List F)
      → 3 * area < word
      → rounds + c ≡ 3
      → p < area
      → Done (p * 3 + c) tensor
      → Done (p * 3 + 3) (channel_loop normalise pixels rounds c area p tensor)
  unfolding channel_loop
  channel_loop-Done zero c p tensor small e hp h =
      subst (λ c. Done (p * 3 + c) tensor) (omega arith) h
  channel_loop-Done (suc rounds) c p tensor small e hp h =
      channel_loop-Done rounds (c + 1) p _ small (omega arith) hp
        (write_channel-Done c p tensor small (omega arith) hp h)

  row_loop-Done :
      (rounds x y width : ℕ) (tensor : List F)
      → 3 * area < word
      → rounds + x ≡ width
      → y * width + width ≤ area
      → Done ((y * width + x) * 3) tensor
      → Done ((y * width + width) * 3) (row_loop normalise pixels rounds x y area width tensor)
  unfolding row_loop
  row_loop-Done zero x y width tensor small e inside h =
      subst (λ x. Done ((y * width + x) * 3) tensor) (omega arith) h
  row_loop-Done (suc rounds) x y width tensor small e inside h =
      let p = y * width + x in
      let place : add_size (mul_size y width) x ≡ p = omega arith in
      let next : p * 3 + 3 ≡ (y * width + (x + 1)) * 3 = omega arith in
      row_loop-Done rounds (x + 1) y width _ small (omega arith) inside (
        subst
          (λ k.
            Done k (channel_loop normalise pixels 3 0 area (add_size (mul_size y width) x) tensor))
          next
          (rw place (
            channel_loop-Done 3 0 p tensor small refl (omega arith)
              (subst (λ k. Done k tensor) (omega arith) h))))

  picture_loop-Done :
      (rounds y width height : ℕ) (tensor : List F)
      → 3 * area < word
      → rounds + y ≡ height
      → height * width ≡ area
      → Done (y * width * 3) tensor
      → Done (height * width * 3) (picture_loop normalise pixels rounds y area width tensor)
  unfolding picture_loop
  picture_loop-Done zero y width height tensor small e whole h =
      subst (λ y. Done (y * width * 3) tensor) (omega arith) h
  picture_loop-Done (suc rounds) y width height tensor small e whole h =
      picture_loop-Done rounds (y + 1) width height _ small (omega arith) whole (
        subst (λ k. Done k (row_loop normalise pixels width 0 y area width tensor)) (omega arith)
          (row_loop-Done width 0 y width tensor small (omega arith)
            (omega (arith, mul-le-mul_right width (next_row rounds y height e), row_end y width))
            (subst (λ k. Done k tensor) (omega arith) h)))

nothing-Done :
    {F : Type 0} (normalise : (c pixel : ℕ) → F) (pixels : List ℕ) (d : F) (area : ℕ)
    (tensor : List F)
    → 3 * area ≤ length tensor
    → Done normalise pixels d area 0 tensor
nothing-Done normalise pixels d area tensor room = record {
  room = room;
  filled = λ c p hc hp none_yet. absurd (omega arith);
}

-- A picture of `width` times `height` pixels, three bytes each, goes to a tensor with room for it,
-- in planes: the cell of colour `c` and place `p` holds the normalised byte `c` of pixel `p`, for
-- all three colours and every place, if three times the area is below 2^64.
pub transform_lem :
    {F : Type 0} (normalise : (c pixel : ℕ) → F) (pixels : List ℕ) (d : F) (width height : ℕ)
    (tensor : List F)
    → 3 * (height * width) < word
    → 3 * (height * width) ≤ length tensor
    → (c p : ℕ) → c < 3
    → p < height * width
    → get_or (transform normalise pixels width height tensor) (c * (height * width) + p) d
      ≡ normalise c (get_or pixels (p * 3 + c) 0)
unfolding transform
transform_lem normalise pixels d width height tensor small room c p hc hp =
    let area : mul_size width height ≡ height * width = omega arith in
    let start : 0 ≡ 0 * width * 3 = omega arith in
    let h =
      picture_loop-Done normalise pixels d (height * width) height 0 width height tensor small
        (omega arith) refl
        (subst (λ k. Done normalise pixels d (height * width) k tensor) start
          (nothing-Done normalise pixels d (height * width) tensor room)) in
    rw area (h.filled c p hc hp (omega arith))
