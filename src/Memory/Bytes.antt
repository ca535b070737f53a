-- ===== src/Memory/Bytes.antt =====
-- Memory as bytes, for src/InferenceEngine.cpp: `memcpy`, and the stores and loads of a little-endian
-- machine with words of 64 bits.
use lumen_engine.Prelude.{
  ℕ, zero, suc, ◌+◌, ◌-◌, ◌*◌, ◌/◌, ◌%◌, ◌^◌, ◌≤◌, ◌<◌, ◌≡◌, refl, ap, ap₂, ◌∙◌, sym, ◌⊎◌, List, [],
  ◌∷◌, ◌++◌, if◌then◌else◌, arith, length, ltb, ◌==◌, word, ℤ, pos, negsuc, ◌≢◌, subst,
  length-append, if_elim, ==_iff,
}

-- From addresses to bytes.
abbrev pub Memory : Type 0
Memory = ℕ → ℕ

-- `memcpy(p, bytes, n)`
unfoldable pub write : Memory → (p : ℕ) → List ℕ → Memory
write m p [] q = m q
write m p (b ∷ bs) q = if q == p then b else write m (suc p) bs q

-- The `n` low bytes of a number, the lowest first, and the number of some bytes.
pub bytes_of : (n x : ℕ) → List ℕ
bytes_of zero x = []
bytes_of (suc n) x = x % 256 ∷ bytes_of n (x / 256)

unfoldable pub read_bytes : Memory → (p n : ℕ) → ℕ
read_bytes m p zero = 0
read_bytes m p (suc n) = m p + 256 * read_bytes m (suc p) n

abbrev pub word_bytes : ℕ → List ℕ
word_bytes x = bytes_of 8 x

abbrev pub read_word : Memory → ℕ → ℕ
read_word m p = read_bytes m p 8

-- `int64_t`, in two's complement.
abbrev pub int_word : ℤ → ℕ
int_word (pos n) = n
int_word (negsuc n) = word - 1 - n

abbrev pub word_int : ℕ → ℤ
word_int x = if ltb x (2 ^ 63) then pos x else negsuc (word - 1 - x)

abbrev pub IsInt64 : ℤ → Type 0
IsInt64 (pos n) = n < 2 ^ 63
IsInt64 (negsuc n) = n < 2 ^ 63

-- The bytes of an array of `int64_t`, and `n` elements of one.
unfoldable pub ints_bytes : List ℤ → List ℕ
ints_bytes [] = []
ints_bytes (x ∷ xs) = word_bytes (int_word x) ++ ints_bytes xs

unfoldable pub read_ints : Memory → (p n : ℕ) → List ℤ
read_ints m p zero = []
read_ints m p (suc n) = word_int (read_word m p) ∷ read_ints m (p + 8) n

-- A C string, of which at most `limit` bytes are looked at.
unfoldable pub read_string : Memory → (p limit : ℕ) → List ℕ
read_string m p zero = []
read_string m p (suc limit) =
    let rest = read_string m (suc p) limit in if m p == 0 then [] else m p ∷ rest

-- The bytes that stand from an address on.
abbrev pub BytesAt : Memory → ℕ → List ℕ → Type 0
BytesAt m p [] = Unit
BytesAt m p (b ∷ bs) = (m p ≡ b) × BytesAt m (suc p) bs

pub write_apart :
    (m : Memory) (p : ℕ) (bs : List ℕ) (q : ℕ)
    → (q < p) ⊎ (p + length bs ≤ q)
    → write m p bs q ≡ m q
unfolding write
write_apart m p [] q h = refl
write_apart m p (b ∷ bs) q h =
    let apart : (q < suc p) ⊎ (suc p + length bs ≤ q) = ground arith in
    ground (arith, write_apart m (suc p) bs q apart)

pub BytesAt-cong :
    (m m' : Memory) (p : ℕ) (bs : List ℕ)
    → ((q : ℕ) → p ≤ q → q < p + length bs → m' q ≡ m q)
    → BytesAt m p bs
    → BytesAt m' p bs
BytesAt-cong m m' p [] same h = tt
BytesAt-cong m m' p (b ∷ bs) same h = (
  same p (omega arith) (omega arith) ∙ h.0,
  BytesAt-cong m m' (suc p) bs (λ q lo hi. same q (omega arith) (omega arith)) h.1,
)

pub BytesAt-write : (m : Memory) (p : ℕ) (bs : List ℕ) → BytesAt (write m p bs) p bs
unfolding write
BytesAt-write m p [] = tt
BytesAt-write m p (b ∷ bs) = (
  first,
  BytesAt-cong (write m (suc p) bs) (write m p (b ∷ bs)) (suc p) bs rest
      (BytesAt-write m (suc p) bs),
)
  where
    first : write m p (b ∷ bs) p ≡ b
    first = ground arith

    rest : (q : ℕ) → suc p ≤ q → q < suc p + length bs → write m p (b ∷ bs) q ≡ write m (suc p) bs q
    rest q lo hi = ground arith

-- What a number of `n` bytes may be.
abbrev pub bound : ℕ → ℕ
bound zero = 1
bound (suc n) = 256 * bound n

pub read_bytes_at :
    (n x p : ℕ) (m : Memory) → x < bound n → BytesAt m p (bytes_of n x) → read_bytes m p n ≡ x
unfolding read_bytes bytes_of
read_bytes_at zero x p m small h = omega arith
read_bytes_at (suc n) x p m small h =
    omega (arith, h.0, read_bytes_at n (x / 256) (suc p) m (omega arith) h.1)

pub read_word_at :
    (x p : ℕ) (m : Memory) → x < 2 ^ 64 → BytesAt m p (word_bytes x) → read_word m p ≡ x
read_word_at x p m small h = read_bytes_at 8 x p m small h

int_word-lt : (x : ℤ) → IsInt64 x → int_word x < 2 ^ 64
int_word-lt (pos n) h = omega arith
int_word-lt (negsuc n) h = omega arith

word_int-int_word : (x : ℤ) → IsInt64 x → word_int (int_word x) ≡ x
word_int-int_word (pos n) h = ground arith
word_int-int_word (negsuc n) h = ground arith

pub length-bytes_of : (n x : ℕ) → length (bytes_of n x) ≡ n
unfolding bytes_of
length-bytes_of zero x = refl
length-bytes_of (suc n) x = ap suc (length-bytes_of n (x / 256))

abbrev pub AllInt64 : List ℤ → Type 0
AllInt64 [] = Unit
AllInt64 (x ∷ xs) = IsInt64 x × AllInt64 xs

BytesAt-append :
    (m : Memory) (p : ℕ) (bs cs : List ℕ)
    → BytesAt m p (bs ++ cs)
    → BytesAt m p bs × BytesAt m (p + length bs) cs
BytesAt-append m p [] cs h = (tt, subst (λ q. BytesAt m q cs) (omega arith) h)
BytesAt-append m p (b ∷ bs) cs h =
    let (l, r) = BytesAt-append m (suc p) bs cs h.1 in
    ((h.0, l), subst (λ q. BytesAt m q cs) (omega arith) r)

pub read_ints_at :
    (xs : List ℤ) (p : ℕ) (m : Memory)
    → AllInt64 xs
    → BytesAt m p (ints_bytes xs)
    → read_ints m p (length xs) ≡ xs
unfolding read_ints ints_bytes
read_ints_at [] p m small h = refl
read_ints_at (x ∷ xs) p m small h =
    let (l, r) = BytesAt-append m p (word_bytes (int_word x)) (ints_bytes xs) h in
    ap₂ (λ y ys. y ∷ ys)
      (ap word_int (read_word_at (int_word x) p m (int_word-lt x small.0) l)
        ∙ word_int-int_word x small.0)
      (read_ints_at xs (p + 8) m small.1
        (subst (λ n. BytesAt m (p + n) (ints_bytes xs)) (length-bytes_of 8 (int_word x)) r))

pub length-ints_bytes : (xs : List ℤ) → length (ints_bytes xs) ≡ length xs * 8
unfolding ints_bytes
length-ints_bytes [] = refl
length-ints_bytes (x ∷ xs) = omega (
  arith,
  length-append (word_bytes (int_word x)) (ints_bytes xs),
  length-bytes_of 8 (int_word x),
  length-ints_bytes xs,
)

-- The characters of a C string.
abbrev pub IsCString : List ℕ → Type 0
IsCString [] = Unit
IsCString (b ∷ bs) = (b ≢ 0) × IsCString bs

pub read_string_at :
    (bs : List ℕ) (p limit : ℕ) (m : Memory)
    → IsCString bs
    → length bs < limit
    → BytesAt m p (bs ++ (0 ∷ []))
    → read_string m p limit ≡ bs
unfolding read_string
read_string_at [] p zero m c l h = absurd (omega arith)
read_string_at [] p (suc limit) m c l h = ground (arith, h.0)
read_string_at (b ∷ bs) p zero m c l h = absurd (omega arith)
read_string_at (b ∷ bs) p (suc limit) m c l h =
    let rest = read_string_at bs (suc p) limit m c.1 (omega arith) h.1 in
    let first : m p ≡ b = h.0 in
    let nonzero : m p ≢ 0 = λ z. c.0 (sym first ∙ z) in
    if_elim (λ s. s ≡ b ∷ bs) (m p == 0) (λ e. absurd (nonzero ((==_iff (m p) 0).0 e)))
      (λ _. ap₂ (λ y ys. y ∷ ys) first rest)

-- A write beside some bytes leaves them.
pub BytesAt-kept :
    (m : Memory) (p : ℕ) (bs : List ℕ) (q : ℕ) (cs : List ℕ)
    → (q + length cs ≤ p) ⊎ (p + length bs ≤ q)
    → BytesAt m p bs
    → BytesAt (write m q cs) p bs
BytesAt-kept m p bs q cs apart h =
    BytesAt-cong m (write m q cs) p bs
      (λ r lo hi.
        let off : (r < q) ⊎ (q + length cs ≤ r) = ground arith in write_apart m q cs r off)
      h
